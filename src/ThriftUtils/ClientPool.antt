-- ===== src/ThriftUtils/ClientPool.antt =====
-- `ThriftClientPoolBase` and `ThriftSyncClientPool`: thrift-utils/src/main/cpp/ThriftClientPoolBase.cpp,
-- ThriftSyncClientPool.cpp and thrift-utils/src/main/include/ezbake/thriftutils/ThriftSyncClientPool.tcc.
-- A client is known by its pointer. Sockets and service discovery are the record `Outside`, where
-- `none` and `false` stand for an exception.
pub mod Borrow
pub mod Balance
pub mod Create
mod Tests
use ezbake_common_cpp.Cache.Lru
use ezbake_common_cpp.Cache.Lru.{Cache}
use ezbake_common_cpp.Cache.Timed
use ezbake_common_cpp.Cache.Timed.{TimedCache}
use ezbake_common_cpp.Common.Result.{
  Exception, Result, ok, throw, hang, crash, runtime_error, ◌>>=◌,
}
use ezbake_common_cpp.Common.{
  ℕ, zero, suc, Bool, not, Option, none, some, List, [], ◌∷◌, ◌++◌, if◌then◌else◌, Eq, Text,
  text_Eq, codes, is_blank,
}
use ezbake_common_cpp.Config.Helpers.Base.{BaseConfiguration}
use ezbake_common_cpp.Config.Helpers.Constants.{Constants}
use ezbake_common_cpp.Config.Helpers.Thrift.{hs_ha, same_mode, get_server_mode, use_ssl}
use ezbake_common_cpp.Net.HostAndPort.Order.{equals_iff}
use ezbake_common_cpp.Net.HostAndPort.{HostAndPort, equals, from_string, get_port, decimal}

-- The socket, transport and protocol that a client is made with.
pub data Wire : Type 0 where
  framed buffered secure : Wire

-- The sockets and service discovery. `round` is the number of the attempts made before, and `try`
-- the number of the endpoints tried in the attempt; an application `none` is the common services.
pub record Outside (Client : Type 0) : Type 0 where
  pub open_client : (round try : ℕ) → Wire → Text → ℕ → Option Client
  pub reopen : Client → Bool
  pub close_client : Client → Bool
  pub is_a : Client → Bool
  pub get_services : (round : ℕ) → Option Text → Option (List Text)
  pub get_endpoints : (round : ℕ) → Option Text → Text → Option (List Text)
  pub lexical_cast : Text → Option ℕ
  pub diagnostic : Exception → Text

pub record ClientPool (Client : Type 0) : Type 0 where
  pub application_name : Text
  pub service_cache : Cache Text HostAndPort
  pub connection_cache : TimedCache Text Client
  pub reverse_lookup : List (Client × Text)

instance abbrev pub host_eq : Eq HostAndPort
host_eq = record { beq = equals; beq_iff = equals_iff }

abbrev pub get_protocol_attempts : ℕ
get_protocol_attempts = 2

-- `getThriftConnectionKey<T>`, with the name of the type.
unfoldable pub get_thrift_connection_key : Text → Text → Text
get_thrift_connection_key type_name service_name = service_name ++ (b'|' ∷ type_name)

module _ {Client : Type 0} ⦃eC : Eq Client⦄ where
  -- `_reverseLookup.find(client.get())`
  unfoldable pub find_client : Client → List (Client × Text) → Option Text
  find_client client [] = none
  find_client client ((c, key) ∷ l) = if eC.beq c client then some key else find_client client l

  -- `_reverseLookup.erase(client.get())`
  unfoldable pub erase_client : Client → List (Client × Text) → List (Client × Text)
  erase_client client [] = []
  erase_client client ((c, key) ∷ l) =
      let rest = erase_client client l in if eC.beq c client then rest else (c, key) ∷ rest

module _ (g : Constants) (thrift_config : BaseConfiguration) where
  unfoldable pub wire_of : Result Wire
  unfolding get_server_mode same_mode use_ssl
  wire_of = do
    mode ← get_server_mode g thrift_config
    ok (
        if same_mode mode hs_ha
        then framed
        else if use_ssl g thrift_config
        then secure
        else buffered)

  module _ {Client : Type 0} (outside : Outside Client) where
    -- The `try` block of `createClient`, for one endpoint.
    unfoldable pub connect : ℕ → ℕ → HostAndPort → Option Client
    unfolding wire_of get_port
    connect round try end_point = elim wire_of [
      | ok wire ↦ elim (get_port end_point) [
        | ok port ↦ outside.open_client round try wire end_point.host port
        | other ↦ none
      ]
      | other ↦ none
    ]

module _ {Client : Type 0} (outside : Outside Client)
    (range : Text → List (Text × HostAndPort) → List ℕ) where
  -- The loop of `addEndpoints`; an endpoint that does not parse ends it.
  unfoldable pub add_each :
      Cache Text HostAndPort → Text → List Text → Cache Text HostAndPort × Result (Unit {0})
  unfolding from_string
  add_each cache service_name [] = (cache, ok tt)
  add_each cache service_name (end_point ∷ endpoints) =
      elim (from_string outside.lexical_cast end_point) [
        | ok h ↦ add_each (Lru.put range cache service_name h) service_name endpoints
        | throw e ↦ (cache, throw e)
        | hang ↦ (cache, hang)
        | crash ↦ (cache, crash)
      ]

  unfoldable pub add_endpoints :
      Cache Text HostAndPort → Text → List Text → Cache Text HostAndPort × Result (Unit {0})
  unfolding add_each
  add_endpoints cache service_name endpoints =
      add_each (Lru.remove range cache service_name).0 service_name endpoints

  -- The loop of `refreshEndpoints` and of `refreshCommonEndpoints`, whose handler goes on.
  unfoldable pub refresh_each :
      ℕ → Option Text → List Text → Cache Text HostAndPort → Cache Text HostAndPort
  unfolding add_endpoints
  refresh_each round app [] cache = cache
  refresh_each round app (service ∷ services) cache =
      elim (outside.get_endpoints round app service) [
        | none ↦ refresh_each round app services cache
        | some endpoints ↦ refresh_each round app services (add_endpoints cache service endpoints).0
      ]

  unfoldable pub refresh_services :
      ℕ → Option Text → Cache Text HostAndPort → Cache Text HostAndPort
  unfolding refresh_each
  refresh_services round app cache = elim (outside.get_services round app) [
    | none ↦ cache
    | some services ↦ refresh_each round app services cache
  ]

  unfoldable pub refresh_endpoints : ℕ → Text → Cache Text HostAndPort → Cache Text HostAndPort
  unfolding refresh_services is_blank
  refresh_endpoints round application_name cache =
      if is_blank application_name
      then cache
      else refresh_services round (some application_name) cache

  unfoldable pub refresh_common_endpoints : ℕ → Cache Text HostAndPort → Cache Text HostAndPort
  unfolding refresh_services
  refresh_common_endpoints round cache = refresh_services round none cache

  module _ (g : Constants) (thrift_config : BaseConfiguration) where
    -- The inner loop of `createClient`: `left` endpoints to try. The dereference of an optional
    -- without a value is undefined.
    unfoldable pub try_endpoints :
        (left round try : ℕ)
        → Cache Text HostAndPort
        → Text
        → Cache Text HostAndPort × Result (Option Client)
    unfolding connect
    try_endpoints zero round try cache service_name = (cache, ok none)
    try_endpoints (suc left) round try cache service_name =
        let (after, end_point) = Lru.get range cache service_name in
        elim end_point [
          | none ↦ (after, crash)
          | some h ↦ elim (connect g thrift_config outside round try h) [
            | none ↦ try_endpoints left round (suc try) after service_name
            | some client ↦ (after, ok (some client))
          ]
        ]

    -- The outer loop, with `left` attempts to make.
    unfoldable pub attempt :
        (left round end_point_count : ℕ)
        → Text
        → Cache Text HostAndPort
        → Text
        → Cache Text HostAndPort × Result Client
    unfolding try_endpoints refresh_endpoints refresh_common_endpoints decimal
    attempt zero round end_point_count application_name cache service_name = (
      cache,
      throw (
          runtime_error (
            codes "Could not find service "
            ++ (service_name
                ++ (codes " (found " ++ (decimal end_point_count ++ codes " endpoints)"))))),
    )
    attempt (suc left) round end_point_count application_name cache service_name =
        let found = Lru.value_range range cache service_name in
        let (after, outcome) = try_endpoints found round 0 cache service_name in
        elim outcome [
          | ok (some client) ↦ (after, ok client)
          | ok none ↦
              attempt left (suc round) found application_name
                (refresh_common_endpoints round (refresh_endpoints round application_name after))
                service_name
          | throw e ↦ (after, throw e)
          | hang ↦ (after, hang)
          | crash ↦ (after, crash)
        ]

    unfoldable pub create_client :
        Text → Cache Text HostAndPort → Text → Cache Text HostAndPort × Result Client
    unfolding attempt
    create_client application_name cache service_name =
        attempt get_protocol_attempts 0 0 application_name cache service_name
