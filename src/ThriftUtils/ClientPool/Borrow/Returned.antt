-- ===== src/ThriftUtils/ClientPool/Borrow/Returned.antt =====
-- What becomes of a client that is given back to the pool.
use ezbake_common_cpp.Cache.Timed
use ezbake_common_cpp.Cache.Timed.{CacheValue, TimedCache}
use ezbake_common_cpp.Common.Result.{ok}
use ezbake_common_cpp.Common.{
  ℕ, ◌≡◌, refl, Option, none, some, List, [], ◌∷◌, Eq, Text, text_Eq, arith, Option-cases, inl, inr,
}
use ezbake_common_cpp.Config.Helpers.Base.{BaseConfiguration}
use ezbake_common_cpp.Config.Helpers.Constants.{Constants}
use ezbake_common_cpp.Net.HostAndPort.{HostAndPort}
use ezbake_common_cpp.ThriftUtils.ClientPool.Borrow.{reuse, get_client, return_to_pool}
use ezbake_common_cpp.ThriftUtils.ClientPool.{
  Outside, ClientPool, find_client, erase_client, get_thrift_connection_key,
}

pub find_client-erase_client :
    {Client : Type 0} ⦃eC : Eq Client⦄ (client : Client) (l : List (Client × Text))
    → find_client client (erase_client client l) ≡ none
unfolding find_client erase_client
find_client-erase_client client [] = refl
find_client-erase_client ⦃eC⦄ client ((c, key) ∷ l) =
    ground (arith, find_client-erase_client client l)

module _ {Client : Type 0} ⦃eC : Eq Client⦄ (outside : Outside Client)
    (range : Text → List (Text × HostAndPort) → List ℕ)
    (pooled_range : Text → List (Text × CacheValue Client) → List ℕ)
    (pooled_order : List (Text × CacheValue Client) → List (Text × CacheValue Client))
    (g : Constants) (thrift_config : BaseConfiguration) where
  find_client-return_to_pool :
      (pool : ClientPool Client) (now : ℕ) (client : Client)
      → find_client client
          (return_to_pool outside range pooled_range pooled_order g thrift_config pool now
            client).reverse_lookup
        ≡ none
  unfolding return_to_pool
  find_client-return_to_pool pool now client =
      elim (Option-cases (find_client client pool.reverse_lookup)) [
        | inl unknown ↦ rw (unknown, return_to_pool) unknown
        | inr (key, known) ↦
            rw (known, return_to_pool) (find_client-erase_client client pool.reverse_lookup)
      ]

  return_to_pool_unknown :
      (pool : ClientPool Client) (now : ℕ) (client : Client)
      → find_client client pool.reverse_lookup ≡ none
      → return_to_pool outside range pooled_range pooled_order g thrift_config pool now client
        ≡ pool
  unfolding return_to_pool
  return_to_pool_unknown pool now client unknown = rw (unknown, return_to_pool)

  get_client_reused :
      (pool : ClientPool Client) (now : ℕ) (client : Client) (type_name : Text)
      (app_name : Option Text) (service_name : Text)
      → reuse outside range pooled_range pooled_order g thrift_config
          (Timed.pop pooled_range pooled_order pool.connection_cache now
            (get_thrift_connection_key type_name service_name)).1
        ≡ some (ok client)
      → (get_client outside range pooled_range pooled_order g thrift_config pool now type_name
          app_name service_name).0.reverse_lookup
        ≡ pool.reverse_lookup
  unfolding get_client
  get_client_reused pool now client type_name app_name service_name hit = rw (hit, get_client)

  -- A client that was given back and is then taken from the cache of connections is not cached when
  -- it is given back again: the pool is left as it was.
  pub return_to_pool-get_client :
      (before : ClientPool Client) (first second third : ℕ) (client : Client) (type_name : Text)
      (app_name : Option Text) (service_name : Text)
      → let pool =
          return_to_pool outside range pooled_range pooled_order g thrift_config before first
            client in
        let borrowed =
          (get_client outside range pooled_range pooled_order g thrift_config pool second type_name
            app_name service_name).0 in
        reuse outside range pooled_range pooled_order g thrift_config
            (Timed.pop pooled_range pooled_order pool.connection_cache second
              (get_thrift_connection_key type_name service_name)).1
          ≡ some (ok client)
        → return_to_pool outside range pooled_range pooled_order g thrift_config borrowed third
            client
          ≡ borrowed
  return_to_pool-get_client before first second third client type_name app_name service_name hit =
      let pool =
        return_to_pool outside range pooled_range pooled_order g thrift_config before first
          client in
      return_to_pool_unknown
        (get_client outside range pooled_range pooled_order g thrift_config pool second type_name
          app_name service_name).0
        third client
        (rw (get_client_reused pool second client type_name app_name service_name hit)
          (find_client-return_to_pool before first client))
