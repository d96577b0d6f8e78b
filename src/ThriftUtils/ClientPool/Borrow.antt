-- ===== src/ThriftUtils/ClientPool/Borrow.antt =====
-- `getClient` and `returnToPool` of ThriftSyncClientPool.tcc: the clients of the pool.
pub mod Returned
use ezbake_common_cpp.Cache.Lru
use ezbake_common_cpp.Cache.Lru.{Cache}
use ezbake_common_cpp.Cache.Timed
use ezbake_common_cpp.Cache.Timed.{CacheValue, TimedCache}
use ezbake_common_cpp.Common.Result.{Result, ok, throw, hang, crash, thrift_exception, ◌>>=◌}
use ezbake_common_cpp.Common.{
  ℕ, not, Option, none, some, List, [], ◌∷◌, if◌then◌else◌, Eq, Text, text_Eq,
}
use ezbake_common_cpp.Config.Helpers.Application.{get_application_service_name}
use ezbake_common_cpp.Config.Helpers.Base.{BaseConfiguration}
use ezbake_common_cpp.Config.Helpers.Constants.{Constants}
use ezbake_common_cpp.Config.Helpers.Thrift.{get_server_mode}
use ezbake_common_cpp.Net.HostAndPort.{HostAndPort}
use ezbake_common_cpp.ThriftUtils.ClientPool.{
  Outside, ClientPool, get_thrift_connection_key, find_client, erase_client, add_endpoints,
  create_client,
}

module _ {Client : Type 0} ⦃eC : Eq Client⦄ (outside : Outside Client)
    (range : Text → List (Text × HostAndPort) → List ℕ)
    (pooled_range : Text → List (Text × CacheValue Client) → List ℕ)
    (pooled_order : List (Text × CacheValue Client) → List (Text × CacheValue Client))
    (g : Constants) (thrift_config : BaseConfiguration) where
  -- A client that was in the cache, if it has the type, with its transports open.
  unfoldable pub reuse : Option Client → Option (Result Client)
  reuse none = none
  reuse (some client) =
      if not (outside.is_a client)
      then none
      else if outside.reopen client
      then some (ok client)
      else some (throw (thrift_exception []))

  -- The name to look up, with the endpoints of the application's service in the cache.
  unfoldable pub find_service :
      Cache Text HostAndPort → Option Text → Text → Cache Text HostAndPort × Result Text
  unfolding get_application_service_name add_endpoints
  find_service cache none service_name = (cache, ok service_name)
  find_service cache (some app) service_name =
      let service = get_application_service_name app service_name in
      if Lru.contains_key cache service
      then (cache, ok service)
      else elim (outside.get_endpoints 0 (some app) service_name) [
        | none ↦ (cache, throw (thrift_exception []))
        | some endpoints ↦
            let (after, outcome) = add_endpoints outside range cache service endpoints in
            (after, outcome >>= λ u. ok service)
      ]

  -- A new client, which the pool remembers under its key.
  unfoldable pub make_client :
      ClientPool Client → Option Text → Text → Text → ClientPool Client × Result Client
  unfolding find_service create_client
  make_client pool app_name service_name key =
      let (looked, service) = find_service pool.service_cache app_name service_name in
      elim service [
        | ok name ↦
            let (after, outcome) =
              create_client outside range g thrift_config pool.application_name looked name in
            elim outcome [
              | ok client ↦ (
                record pool {
                  service_cache = after;
                  reverse_lookup = (client, key) ∷ erase_client client pool.reverse_lookup;
                },
                ok client,
              )
              | other ↦ (record pool { service_cache = after }, other)
            ]
        | throw e ↦ (record pool { service_cache = looked }, throw e)
        | hang ↦ (record pool { service_cache = looked }, hang)
        | crash ↦ (record pool { service_cache = looked }, crash)
      ]

  -- The handler of `getClient`: every exception becomes a `TException`.
  unfoldable pub as_thrift_exception : Result Client → Result Client
  as_thrift_exception (throw e) = throw (thrift_exception (outside.diagnostic e))
  as_thrift_exception (ok client) = ok client
  as_thrift_exception hang = hang
  as_thrift_exception crash = crash

  -- `getClient`, at the time `now`.
  unfoldable pub get_client :
      ClientPool Client → ℕ → Text → Option Text → Text → ClientPool Client × Result Client
  unfolding get_thrift_connection_key reuse make_client as_thrift_exception
  get_client pool now type_name app_name service_name =
      let key = get_thrift_connection_key type_name service_name in
      let (connections, cached) =
        Timed.pop pooled_range pooled_order pool.connection_cache now key in
      let popped = record pool { connection_cache = connections } in
      elim (reuse cached) [
        | some outcome ↦ (popped, as_thrift_exception outcome)
        | none ↦
            let (after, outcome) = make_client popped app_name service_name key in
            (after, as_thrift_exception outcome)
      ]

  -- The connections of a client of a blocking server are closed before it goes into the cache. An
  -- exception leaves the cache as it was.
  unfoldable pub cache_client : TimedCache Text Client → ℕ → Text → Client → TimedCache Text Client
  unfolding get_server_mode
  cache_client cache now key client = elim (get_server_mode g thrift_config) [
    | ok mode ↦
        let after = Timed.put pooled_range pooled_order cache now key client in
        if not mode.is_blocking then after else if outside.close_client client then after else cache
    | other ↦ cache
  ]

  -- `returnToPool`, of a client that is not NULL.
  unfoldable pub return_to_pool : ClientPool Client → ℕ → Client → ClientPool Client
  unfolding find_client erase_client cache_client
  return_to_pool pool now client = elim (find_client client pool.reverse_lookup) [
    | none ↦ pool
    | some key ↦ record pool {
      connection_cache = cache_client pool.connection_cache now key client;
      reverse_lookup = erase_client client pool.reverse_lookup;
    }
  ]

  -- `clearPool`; what closing the connections throws is dropped.
  unfoldable pub clear_pool : ClientPool Client → ClientPool Client
  clear_pool pool = record pool {
    connection_cache = record pool.connection_cache {
      cache = Lru.clear pool.connection_cache.cache;
    };
    reverse_lookup = [];
  }

  -- `close`, whose connection to service discovery is not in the state.
  unfoldable pub close : ClientPool Client → ClientPool Client
  unfolding clear_pool
  close pool =
      let cleared = clear_pool pool in
      record cleared { service_cache = Lru.clear cleared.service_cache }
