-- ===== src/ThriftUtils/AsyncPool/Returned.antt =====
-- Where `returnToPool` puts a client.
use ezbake_common_cpp.Cache.Lru.Min.{IsRange}
use ezbake_common_cpp.Cache.Lru.Reads.{holds-put}
use ezbake_common_cpp.Cache.Lru.Writes.{holds, IsDistinct}
use ezbake_common_cpp.Cache.Timed
use ezbake_common_cpp.Cache.Timed.{CacheValue, value_eq}
use ezbake_common_cpp.Common.Result.{ok}
use ezbake_common_cpp.Common.{
  ◌&&◌, not, ℕ, ◌≡◌, refl, ap, false, none, some, List, [], ◌∷◌, Eq, Text, text_Eq, text_eq, arith,
}
use ezbake_common_cpp.Config.Helpers.Base.{BaseConfiguration}
use ezbake_common_cpp.Config.Helpers.Constants.{Constants}
use ezbake_common_cpp.Config.Helpers.Thrift.{ThriftServerMode, get_server_mode}
use ezbake_common_cpp.Net.HostAndPort.{HostAndPort}
use ezbake_common_cpp.ThriftUtils.AsyncPool.Borrow.{lookup_key, cache_client, return_to_pool}
use ezbake_common_cpp.ThriftUtils.AsyncPool.{Pooled}
use ezbake_common_cpp.ThriftUtils.ClientPool.Borrow.Returned.{find_client-erase_client}
use ezbake_common_cpp.ThriftUtils.ClientPool.{
  Outside, ClientPool, find_client, erase_client, get_thrift_connection_key,
}

key_not_empty :
    (type_name service_name : Text)
    → text_eq [] (get_thrift_connection_key type_name service_name) ≡ false
unfolding get_thrift_connection_key text_eq
key_not_empty type_name [] = refl
key_not_empty type_name (c ∷ service_name) = refl

cache_client-unknown :
    {Client : Type 0} ⦃eC : Eq Client⦄
    (pooled_range : Text → List (Text × CacheValue Client) → List ℕ)
    (pooled_order : List (Text × CacheValue Client) → List (Text × CacheValue Client))
    (pool : ClientPool Client) (now : ℕ) (client : Client)
    → find_client client pool.reverse_lookup ≡ none
    → cache_client pooled_range pooled_order pool now client ≡ record pool {
      connection_cache = Timed.put pooled_range pooled_order pool.connection_cache now [] client;
      reverse_lookup = (client, []) ∷ pool.reverse_lookup;
    }
unfolding cache_client lookup_key
cache_client-unknown pooled_range pooled_order pool now client unknown =
    rw (unknown, lookup_key) refl

module _ {Chan Client A : Type 0} ⦃eC : Eq Client⦄
    (pooled_range : Text → List (Text × CacheValue Client) → List ℕ)
    (pooled_order : List (Text × CacheValue Client) → List (Text × CacheValue Client))
    (outside : Outside Client) (range : Text → List (Text × HostAndPort) → List ℕ)
    (channel_of : Client → Chan) (g : Constants) (thrift_config : BaseConfiguration) where
  -- The key of a client that is given back is the empty one, whatever it was before.
  return_to_pool_key :
      (pool : ClientPool Client) (now : ℕ) (client : Client) (key : Text)
      (cb : ClientPool Client → Pooled Chan Client A) (mode : ThriftServerMode)
      → find_client client pool.reverse_lookup ≡ some key
      → get_server_mode g thrift_config ≡ ok mode
      → mode.is_blocking ≡ false
      → return_to_pool pooled_range pooled_order outside range channel_of g thrift_config pool now
          client cb
        ≡ cb (record pool {
          connection_cache =
              Timed.put pooled_range pooled_order pool.connection_cache now [] client;
          reverse_lookup = (client, []) ∷ erase_client client pool.reverse_lookup;
        })
  unfolding return_to_pool
  return_to_pool_key pool now client key cb mode lent settings free =
      let erased = record pool { reverse_lookup = erase_client client pool.reverse_lookup } in
      rw (lent, return_to_pool, settings, free)
        (ap cb (
          cache_client-unknown pooled_range pooled_order erased now client
            (find_client-erase_client client pool.reverse_lookup)))

  -- A client that the pool lent, of a server that does not block, is given back in vain: under no key
  -- that `getClient` looks up does the cache hold what it did not hold before, and the key that the
  -- pool then has for the client is the empty one.
  pub return_to_pool_lost :
      (pool : ClientPool Client) (now : ℕ) (client : Client) (key : Text)
      (cb : ClientPool Client → Pooled Chan Client A) (mode : ThriftServerMode)
      (type_name service_name : Text) (w : CacheValue Client)
      → find_client client pool.reverse_lookup ≡ some key
      → get_server_mode g thrift_config ≡ ok mode
      → mode.is_blocking ≡ false
      → IsRange pooled_range
      → IsDistinct pool.connection_cache.cache.items
      → let looked_up = get_thrift_connection_key type_name service_name in
        (after : ClientPool Client) × (return_to_pool pooled_range pooled_order outside range
            channel_of g thrift_config pool now client cb
          ≡ cb after)
        × ((holds looked_up w after.connection_cache.cache.items
              && not (holds looked_up w pool.connection_cache.cache.items))
            ≡ false)
        × (find_client client after.reverse_lookup ≡ some [])
  unfolding get_thrift_connection_key find_client Timed.put
  return_to_pool_lost pool now client key cb mode type_name service_name w lent settings free law
        distinct =
      (
        record pool {
          connection_cache =
              Timed.put pooled_range pooled_order pool.connection_cache now [] client;
          reverse_lookup = (client, []) ∷ erase_client client pool.reverse_lookup;
        },
        return_to_pool_key pool now client key cb mode lent settings free,
        rw
            (holds-put pooled_range law pool.connection_cache.cache []
              (get_thrift_connection_key type_name service_name) (Timed.stamped now client) w
              distinct)
            (ground (arith, key_not_empty type_name service_name)),
        ground (arith, eC.beq_iff client client),
      )
