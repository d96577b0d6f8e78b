-- ===== src/ThriftUtils/AsyncPool/Settled.antt =====
-- How often the callback of `createClient` is called.
use ezbake_common_cpp.Cache.Lru
use ezbake_common_cpp.Common.Result.{Exception, Result-cases}
use ezbake_common_cpp.Common.{
  ℕ, zero, suc, ◌≡◌, ◌⊎◌, refl, Bool, Bool-cases, Option-cases, Option, none, some, inl, inr, List,
  Eq, Text, text_Eq,
}
use ezbake_common_cpp.Config.Helpers.Base.{BaseConfiguration}
use ezbake_common_cpp.Config.Helpers.Constants.{Constants}
use ezbake_common_cpp.Net.HostAndPort.{HostAndPort}
use ezbake_common_cpp.ThriftUtils.AsyncPool.Create.{
  channel_settings, finish_client, try_endpoint, after_endpoints, create_client_to_endpoint,
  start_attempt, create_client,
}
use ezbake_common_cpp.ThriftUtils.AsyncPool.Discovered.{Settled, refresh_all_endpoints-Settles}
use ezbake_common_cpp.ThriftUtils.AsyncPool.{Pooled}
use ezbake_common_cpp.ThriftUtils.ClientPool.{Outside, ClientPool, host_eq}

count-cases : (n : ℕ) → (n ≡ zero) ⊎ ((m : ℕ) × (n ≡ suc m))
count-cases zero = inl refl
count-cases (suc m) = inr (m, refl)

module _ {Chan Client A : Type 0} ⦃eC : Eq Client⦄ (Twice : Type 0) (outside : Outside Client)
    (range : Text → List (Text × HostAndPort) → List ℕ) where
  module _ (g : Constants) (thrift_config : BaseConfiguration)
      (cb : ClientPool Client → Option Exception → Option Client → Pooled Chan Client A)
      (told : (p : ClientPool Client) (e : Option Exception) (c : Option Client)
        → Settled Twice (cb p e c)) where
    finish_client-Settles :
        (pool : ClientPool Client) (key : Text) (channel : Chan) (compact : Bool)
        → Settled Twice (finish_client outside range g thrift_config cb pool key channel compact)
    unfolding finish_client
    finish_client-Settles pool key channel compact = λ reply ok_reply. elim (Bool-cases reply.1) [
      | inl good ↦ rw good (λ later ok_later. told _ _ _)
      | inr bad ↦ rw bad (told _ _ _)
    ]

    try_endpoint-Settles :
        (iteration num_endpoints : ℕ) (on_error : ClientPool Client → Pooled Chan Client A)
        (pool : ClientPool Client) (service_name service_cache_key key : Text)
        → ((p : ClientPool Client) → Settled Twice (on_error p))
        → Settled Twice (
            try_endpoint outside range g thrift_config cb iteration num_endpoints on_error pool
              service_name service_cache_key key)
    unfolding try_endpoint
    try_endpoint-Settles iteration num_endpoints on_error pool service_name service_cache_key key
          h =
        elim (Option-cases (Lru.get range pool.service_cache service_cache_key).1) [
          | inl missing ↦ rw (missing, try_endpoint) (told _ _ _)
          | inr (end_point, found) ↦
              elim (Result-cases (channel_settings outside range g thrift_config cb end_point)) [
                | inr (inl (e, thrown)) ↦ rw (found, try_endpoint, thrown) tt
                | inr (inr (inl hung)) ↦ rw (found, try_endpoint, hung) tt
                | inr (inr (inr crashing)) ↦ rw (found, try_endpoint, crashing) tt
                | inl (settings, set) ↦
                    rw (found, try_endpoint, set)
                      (λ now ok_now made ok_made. elim (Bool-cases made.1) [
                        | inl good ↦ rw good (λ later ok_later. told _ _ _)
                        | inr closed ↦ rw closed (λ later ok_later. elim (Option-cases later.1) [
                          | inl connected ↦
                              rw connected (finish_client-Settles later.0 key now.1 settings.1)
                          | inr (e, failed) ↦ rw failed (h later.0)
                        ])
                      ])
              ]
        ]

    -- What is done when another attempt is left.
    abbrev AllSettle : Option (ClientPool Client → Pooled Chan Client A) → Type 0
    AllSettle none = Unit
    AllSettle (some attempt) = (p : ClientPool Client) → Settled Twice (attempt p)

    after_endpoints-Settles :
        (num_endpoints : ℕ) (again : Option (ClientPool Client → Pooled Chan Client A))
        (service_name : Text) (pool : ClientPool Client)
        → AllSettle again
        → Settled Twice
            (after_endpoints outside range g thrift_config cb num_endpoints again service_name pool)
    unfolding after_endpoints
    after_endpoints-Settles num_endpoints none service_name pool h = told _ _ _
    after_endpoints-Settles num_endpoints (some attempt) service_name pool h =
        refresh_all_endpoints-Settles Twice outside range pool attempt h

    create_client_to_endpoint-Settles :
        (left iteration num_endpoints : ℕ)
        (again : Option (ClientPool Client → Pooled Chan Client A)) (pool : ClientPool Client)
        (service_name service_cache_key key : Text)
        → AllSettle again
        → Settled Twice (
            create_client_to_endpoint outside range g thrift_config cb left iteration num_endpoints
              again pool service_name service_cache_key key)
    unfolding create_client_to_endpoint
    create_client_to_endpoint-Settles zero iteration num again pool service_name service_cache_key
          key h =
        try_endpoint-Settles iteration num _ pool service_name service_cache_key key
          (λ p. after_endpoints-Settles num again service_name p h)
    create_client_to_endpoint-Settles (suc left) iteration num again pool service_name
          service_cache_key key h =
        try_endpoint-Settles iteration num _ pool service_name service_cache_key key (λ p.
          create_client_to_endpoint-Settles left (suc iteration) num again p service_name
            service_cache_key key h)

    start_attempt-Settles :
        (again : Option (ClientPool Client → Pooled Chan Client A)) (pool : ClientPool Client)
        (service_name service_cache_key key : Text)
        → AllSettle again
        → Settled Twice (
            start_attempt outside range g thrift_config cb again pool service_name service_cache_key
              key)
    unfolding start_attempt
    start_attempt-Settles none pool service_name service_cache_key key h =
        elim (count-cases (Lru.value_range range pool.service_cache service_cache_key)) [
          | inl nothing ↦ rw (nothing, start_attempt) (told _ _ _)
          | inr (others, found) ↦
              rw (found, start_attempt)
                (create_client_to_endpoint-Settles others 1 (suc others) none pool service_name
                  service_cache_key key h)
        ]
    start_attempt-Settles (some attempt) pool service_name service_cache_key key h =
        elim (count-cases (Lru.value_range range pool.service_cache service_cache_key)) [
          | inl nothing ↦
              rw (nothing, start_attempt)
                (refresh_all_endpoints-Settles Twice outside range pool attempt h)
          | inr (others, found) ↦
              rw (found, start_attempt)
                (create_client_to_endpoint-Settles others 1 (suc others) (some attempt) pool
                  service_name service_cache_key key h)
        ]

    pub create_client-Settles :
        (left : ℕ) (pool : ClientPool Client) (service_name service_cache_key key : Text)
        → Settled Twice (
            create_client outside range g thrift_config cb left pool service_name service_cache_key
              key)
    unfolding create_client
    create_client-Settles zero pool service_name service_cache_key key =
        start_attempt-Settles none pool service_name service_cache_key key tt
    create_client-Settles (suc left) pool service_name service_cache_key key =
        start_attempt-Settles
          (some (λ later.
            create_client outside range g thrift_config cb left later service_name service_cache_key
              key))
          pool service_name service_cache_key key
          (λ later. create_client-Settles left later service_name service_cache_key key)
