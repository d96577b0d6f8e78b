-- ===== src/ThriftUtils/ClientPool/Create.antt =====
-- What `createClient` returns.
use ezbake_common_cpp.Cache.Lru
use ezbake_common_cpp.Cache.Lru.{Cache}
use ezbake_common_cpp.Cache.Lru.Min.{IsRange}
use ezbake_common_cpp.Cache.Lru.Writes.{holds}
use ezbake_common_cpp.Common.Result.{ok}
use ezbake_common_cpp.Common.{
  ℕ, zero, suc, ◌^◌, ◌≤◌, ◌<◌, ◌≡◌, true, some, List, [], ◌∷◌, Text, text_Eq, text_eq, arith,
  length, Bool-cases, Option-cases, inl, inr,
}
use ezbake_common_cpp.Common.Result.{Ends}
use ezbake_common_cpp.Config.Helpers.Base.{BaseConfiguration}
use ezbake_common_cpp.Config.Helpers.Constants.{Constants}
use ezbake_common_cpp.Net.HostAndPort.{HostAndPort, equals}
use ezbake_common_cpp.Net.HostAndPort.Order.{equals_iff}
use ezbake_common_cpp.ThriftUtils.ClientPool.Balance.{
  values_of, take, take_whole, length-range, first_open, try_endpoints-first_open,
}
use ezbake_common_cpp.ThriftUtils.ClientPool.{
  Outside, host_eq, connect, try_endpoints, attempt, create_client, refresh_endpoints,
  refresh_common_endpoints,
}

module _ {Client : Type 0} (outside : Outside Client) (g : Constants)
    (thrift_config : BaseConfiguration) where
  -- The endpoint opens in whichever round and at whichever place it is tried.
  abbrev pub AlwaysOpens : HostAndPort → Type 0
  AlwaysOpens h =
      (round try : ℕ)
      → (client : Client) × (connect g thrift_config outside round try h ≡ some client)

  holds-first_open :
      (round try : ℕ) (service_name : Text) (h : HostAndPort) (items : List (Text × HostAndPort))
      → holds service_name h items ≡ true
      → AlwaysOpens h
      → (client : Client) × (first_open outside g thrift_config round try
            (values_of service_name items)
          ≡ some client)
  unfolding holds values_of first_open
  holds-first_open round try service_name h [] held opens = cc
  holds-first_open round try service_name h ((j, i) ∷ items) held opens =
      elim (Bool-cases (text_eq j service_name)) [
        | inr other ↦
            rw other (holds-first_open round try service_name h items (ground arith) opens)
        | inl same ↦ elim (Option-cases (connect g thrift_config outside round try i)) [
          | inr (client, opened) ↦ rw same (client, rw (opened, first_open))
          | inl failed ↦ elim (Bool-cases (equals i h)) [
            | inl equal ↦
                let (client, opened) = opens round try in
                let e : i ≡ h = (equals_iff i h).0 equal in absurd (cc (rw e at failed, opened))
            | inr differs ↦
                let (client, opened) =
                  holds-first_open round (suc try) service_name h items (ground arith) opens in
                rw same (client, rw (failed, first_open, opened))
          ]
        ]
      ]

module _ {Client : Type 0} (outside : Outside Client)
    (range : Text → List (Text × HostAndPort) → List ℕ) (law : IsRange range) (g : Constants)
    (thrift_config : BaseConfiguration) where
  value_range_all :
      (cache : Cache Text HostAndPort) (service_name : Text)
      → length (values_of service_name cache.items) < 2 ^ 32
      → Lru.value_range range cache service_name ≡ length (values_of service_name cache.items)
  unfolding Lru.value_range
  value_range_all cache service_name h =
      rw (length-range range law service_name cache.items) (omega arith)

  value_range-le :
      (cache : Cache Text HostAndPort) (service_name : Text)
      → Lru.value_range range cache service_name ≤ length (values_of service_name cache.items)
  unfolding Lru.value_range
  value_range-le cache service_name =
      rw (length-range range law service_name cache.items) (omega arith)

  -- Where an endpoint of the service is in the cache that opens whenever it is tried, `createClient`
  -- returns a client, and need not ask service discovery again.
  pub create_client-holds :
      (application_name : Text) (cache : Cache Text HostAndPort) (service_name : Text)
      (h : HostAndPort)
      → length (values_of service_name cache.items) < 2 ^ 32
      → holds service_name h cache.items ≡ true
      → AlwaysOpens outside g thrift_config h
      → (client : Client) × ((create_client outside range g thrift_config application_name cache
            service_name).1
          ≡ ok client)
  unfolding create_client attempt
  create_client-holds application_name cache service_name h small held opens =
      let vs = values_of service_name cache.items in
      let (client, first) =
        holds-first_open outside g thrift_config 0 0 service_name h cache.items held opens in
      let tried =
        try_endpoints-first_open outside range law g thrift_config (length vs) 0 0 cache
          service_name (omega arith) in
      (client, rw (value_range_all cache service_name small, tried, attempt, take_whole vs, first))

  attempt-Ends :
      (left round end_point_count : ℕ) (application_name : Text) (cache : Cache Text HostAndPort)
      (service_name : Text)
      → Ends
          (attempt outside range g thrift_config left round end_point_count application_name cache
            service_name).1
  unfolding attempt
  attempt-Ends zero round end_point_count application_name cache service_name = tt
  attempt-Ends (suc left) round end_point_count application_name cache service_name =
      let found = Lru.value_range range cache service_name in
      let tried =
        try_endpoints-first_open outside range law g thrift_config found round 0 cache service_name
          (value_range-le cache service_name) in
      elim (Option-cases (
        first_open outside g thrift_config round 0
          (take found (values_of service_name cache.items)))) [
            | inr (client, first) ↦ rw (tried, attempt, first) tt
            | inl none_opens ↦
                rw (tried, attempt, none_opens)
                  (attempt-Ends left (suc round) found application_name
                    (refresh_common_endpoints outside range round (
                      refresh_endpoints outside range round application_name
                        (try_endpoints outside range g thrift_config found round 0 cache
                          service_name).0))
                    service_name)
          ]

  -- Whatever the sockets and service discovery do, `createClient` returns a client or throws; so it
  -- never reads an endpoint where the cache gives none.
  pub create_client-Ends :
      (application_name : Text) (cache : Cache Text HostAndPort) (service_name : Text)
      → Ends (create_client outside range g thrift_config application_name cache service_name).1
  unfolding create_client
  create_client-Ends application_name cache service_name =
      attempt-Ends 2 0 0 application_name cache service_name
