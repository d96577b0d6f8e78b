-- ===== src/ThriftUtils/AsyncPool/Borrow.antt =====
-- `getClient` and `returnToPool` of ThriftAsyncClientPool.tcc.
use ezbake_common_cpp.Cache.Lru
use ezbake_common_cpp.Cache.Timed
use ezbake_common_cpp.Cache.Timed.{CacheValue, TimedCache}
use ezbake_common_cpp.Common.Async.{finished, crashed, raised, call, wait, both}
use ezbake_common_cpp.Common.Result.{Exception, ok, thrift_exception}
use ezbake_common_cpp.Common.{
  ℕ, Bool, true, false, not, Option, none, some, List, [], ◌∷◌, if◌then◌else◌, Eq, Text, text_Eq,
}
use ezbake_common_cpp.Config.Helpers.Application.{get_application_service_name}
use ezbake_common_cpp.Config.Helpers.Base.{BaseConfiguration}
use ezbake_common_cpp.Config.Helpers.Constants.{Constants}
use ezbake_common_cpp.Config.Helpers.Thrift.{get_server_mode, use_ssl}
use ezbake_common_cpp.Net.HostAndPort.{HostAndPort}
use ezbake_common_cpp.ThriftUtils.AsyncPool.Create.{create_client}
use ezbake_common_cpp.ThriftUtils.AsyncPool.{
  PoolRequest, discover_services, discover_endpoints, create_channel, connect_channel, channel_good,
  services_again, endpoints_again, shutdown_channel, close_channel, make_client, PoolAnswer, Pooled,
  ask, discover_each,
}
use ezbake_common_cpp.ThriftUtils.ClientPool.{
  Outside, ClientPool, host_eq, get_thrift_connection_key, get_protocol_attempts, find_client,
  erase_client,
}

module _ {Chan Client : Type 0} where
  -- Whether the answer comes before the function that asks returns: no handler waits for it.
  unfoldable pub is_at_once : (r : PoolRequest Chan Client) → PoolAnswer Chan Client r → Bool
  is_at_once (discover_services app) none = true
  is_at_once (discover_services app) (some found) = false
  is_at_once (discover_endpoints app service) none = true
  is_at_once (discover_endpoints app service) (some found) = false
  is_at_once (create_channel secure host port) channel = true
  is_at_once (connect_channel c) err = false
  is_at_once (channel_good c) good = true
  is_at_once (shutdown_channel c) err = false
  is_at_once (close_channel c) closed = true
  is_at_once (make_client c compact) client = true
  is_at_once services_again again = true
  is_at_once endpoints_again again = true

module _ {Chan Client A : Type 0} where
  -- What an exception thrown before `getClient` returns becomes.
  unfoldable pub rethrow : (Exception → Text) → Pooled Chan Client A → Pooled Chan Client A
  unfolding is_at_once
  rethrow diagnostic finished = finished
  rethrow diagnostic crashed = crashed
  rethrow diagnostic (raised e) = raised (thrift_exception (diagnostic e))
  rethrow diagnostic (call a rest) = call a (rethrow diagnostic rest)
  rethrow diagnostic (both p q) = both (rethrow diagnostic p) (rethrow diagnostic q)
  rethrow diagnostic (wait op k) = wait op (λ reply.
      let thrown = rethrow diagnostic (k reply) in
      if is_at_once op.request reply.1 then thrown else k reply)

module _ {Client : Type 0} ⦃eC : Eq Client⦄ where
  -- `_reverseLookup[client.get()]`, which makes an entry with an empty key where there is none.
  unfoldable pub lookup_key : Client → List (Client × Text) → Text × List (Client × Text)
  unfolding find_client
  lookup_key client reverse_lookup = elim (find_client client reverse_lookup) [
    | some key ↦ (key, reverse_lookup)
    | none ↦ ([], (client, []) ∷ reverse_lookup)
  ]

  module _ (pooled_range : Text → List (Text × CacheValue Client) → List ℕ)
      (pooled_order : List (Text × CacheValue Client) → List (Text × CacheValue Client)) where
    -- `_connectionCache.put(_reverseLookup[client.get()], client)`
    unfoldable pub cache_client : ClientPool Client → ℕ → Client → ClientPool Client
    unfolding lookup_key
    cache_client pool now client =
        let (key, reverse_lookup) = lookup_key client pool.reverse_lookup in
        record pool {
          connection_cache =
              Timed.put pooled_range pooled_order pool.connection_cache now key client;
          reverse_lookup = reverse_lookup;
        }

module _ {Chan Client A : Type 0} ⦃eC : Eq Client⦄
    (pooled_range : Text → List (Text × CacheValue Client) → List ℕ)
    (pooled_order : List (Text × CacheValue Client) → List (Text × CacheValue Client))
    (outside : Outside Client) (range : Text → List (Text × HostAndPort) → List ℕ)
    (channel_of : Client → Chan) (g : Constants) (thrift_config : BaseConfiguration) where
  unfoldable pub handle_async_channel_shutdown :
      ClientPool Client
      → ℕ
      → Client
      → Option Exception
      → (ClientPool Client → Pooled Chan Client A)
      → Pooled Chan Client A
  unfolding cache_client
  handle_async_channel_shutdown pool now client none cb =
      cb (cache_client pooled_range pooled_order pool now client)
  handle_async_channel_shutdown pool now client (some err) cb = cb pool

  -- `returnToPool`, of a client that is not NULL; what it throws is dropped.
  unfoldable pub return_to_pool :
      ClientPool Client
      → ℕ
      → Client
      → (ClientPool Client → Pooled Chan Client A)
      → Pooled Chan Client A
  unfolding find_client erase_client handle_async_channel_shutdown get_server_mode use_ssl
  return_to_pool pool now client cb = elim (find_client client pool.reverse_lookup) [
    | none ↦ cb pool
    | some key ↦
        let erased = record pool { reverse_lookup = erase_client client pool.reverse_lookup } in
        elim (get_server_mode g thrift_config) [
          | ok mode ↦
              if not mode.is_blocking
              then cb (cache_client pooled_range pooled_order erased now client)
              else if use_ssl g thrift_config
              then ask erased (shutdown_channel (channel_of client))
                  (λ later err. handle_async_channel_shutdown later now client err cb)
              else ask erased (close_channel (channel_of client)) (λ later closed.
                cb (
                  if closed
                  then cache_client pooled_range pooled_order later now client
                  else later))
          | other ↦ cb erased
        ]
  ]

  -- A client from the cache, whose channel is connected again where it is not good; the callback
  -- has the client even if that fails.
  unfoldable pub reuse_client :
      ClientPool Client
      → Client
      → (ClientPool Client → Option Exception → Option Client → Pooled Chan Client A)
      → Pooled Chan Client A
  reuse_client pool client cb = ask pool (channel_good (channel_of client)) (λ now good.
      if good
      then cb now none (some client)
      else ask now (connect_channel (channel_of client)) (λ later err. cb later err (some client)))

  -- A client that is not in the cache.
  unfoldable pub new_client :
      ClientPool Client
      → Option Text
      → (service_name key : Text)
      → (ClientPool Client → Option Exception → Option Client → Pooled Chan Client A)
      → Pooled Chan Client A
  unfolding create_client discover_each get_application_service_name
  new_client pool none service_name key cb =
      create_client outside range g thrift_config cb get_protocol_attempts pool service_name
        service_name key
  new_client pool (some app) service_name key cb =
      let service_cache_key = get_application_service_name app service_name in
      let create : ClientPool Client → Pooled Chan Client A = λ now.
        create_client outside range g thrift_config cb get_protocol_attempts now service_name
          service_cache_key key in
      if Lru.contains_key pool.service_cache service_cache_key
      then create pool
      else discover_each outside range (some app) service_cache_key (service_name ∷ []) pool create

  unfoldable pub get_client :
      ClientPool Client
      → ℕ
      → (type_name : Text) → Option Text
      → (service_name : Text)
      → (ClientPool Client → Option Exception → Option Client → Pooled Chan Client A)
      → Pooled Chan Client A
  unfolding get_thrift_connection_key reuse_client new_client rethrow
  get_client pool now type_name app_name service_name cb =
      let key = get_thrift_connection_key type_name service_name in
      let (connections, cached) =
        Timed.pop pooled_range pooled_order pool.connection_cache now key in
      let popped = record pool { connection_cache = connections } in
      let created = new_client popped app_name service_name key cb in
      rethrow outside.diagnostic (elim cached [
        | none ↦ created
        | some client ↦ if outside.is_a client then reuse_client popped client cb else created
      ])
