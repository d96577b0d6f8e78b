-- ===== src/ThriftUtils/AsyncPool/Close.antt =====
-- `clearPool` and `close` of thrift-utils/src/main/cpp/ThriftAsyncClientPool.cpp, and what they leave of
-- the caches.
use ezbake_common_cpp.Cache.Lru
use ezbake_common_cpp.Cache.Timed
use ezbake_common_cpp.Common.Async.{answer, run, Answers}
use ezbake_common_cpp.Common.{
  ◌≡◌, refl, Bool-cases, if◌then◌else◌, inl, inr, List, [], ◌∷◌, Eq, Text, text_Eq,
}
use ezbake_common_cpp.ThriftUtils.AsyncPool.{PoolOp, PoolReply, Pooled, close_channel, ask}
use ezbake_common_cpp.ThriftUtils.ClientPool.{ClientPool}

module _ {Chan Client A : Type 0} ⦃eC : Eq Client⦄ (channel_of : Client → Chan) where
  -- The loop of `clearPool`, which the first exception of a `close` ends.
  unfoldable pub close_each :
      List (Text × Client)
      → ClientPool Client
      → (ClientPool Client → Pooled Chan Client A)
      → Pooled Chan Client A
  close_each [] pool cb = cb pool
  close_each (entry ∷ entries) pool cb =
      ask pool (close_channel (channel_of entry.1))
        (λ now closed. if closed then close_each entries now cb else cb now)

  -- `entry_order` is the order in which the set of entries is iterated.
  unfoldable pub clear_pool :
      (entry_order : List (Text × Client) → List (Text × Client))
      → ClientPool Client
      → (ClientPool Client → Pooled Chan Client A)
      → Pooled Chan Client A
  unfolding close_each
  clear_pool entry_order pool cb =
      let forgotten = record pool { reverse_lookup = [] } in
      close_each (entry_order (Timed.entry_set forgotten.connection_cache)) forgotten (λ now.
        cb (record now {
          connection_cache = record now.connection_cache {
            cache = Lru.clear now.connection_cache.cache;
          };
        }))

  -- `close`: the caches of the pool; service discovery and the client manager are not in its state.
  unfoldable pub close :
      (entry_order : List (Text × Client) → List (Text × Client))
      → ClientPool Client
      → (ClientPool Client → Pooled Chan Client A)
      → Pooled Chan Client A
  unfolding clear_pool
  close entry_order pool cb =
      clear_pool entry_order pool
        (λ cleared. cb (record cleared { service_cache = Lru.clear cleared.service_cache }))

module _ {Chan Client : Type 0} ⦃eC : Eq Client⦄ (channel_of : Client → Chan) {S : Type 0}
    (step : S → (op : PoolOp Chan Client) → S × PoolReply Chan Client op) where
  -- The loop comes to its end, whichever channel fails to close.
  close_each_lem :
      {A : Type 0} (entries : List (Text × Client)) (pool : ClientPool Client)
      (cb : ClientPool Client → Pooled Chan Client A) (s : S)
      → (now : ClientPool Client) × (later : S) × (run step
            (close_each channel_of entries pool cb)
            s
          ≡ run step (cb now) later)
  unfolding close_each run
  close_each_lem [] pool cb s = (pool, s, refl)
  close_each_lem (entry ∷ entries) pool cb s =
      let r = step s (record { pool = pool; request = close_channel (channel_of entry.1) }) in
      let (now, later, same) = close_each_lem entries r.1.0 cb r.0 in
      elim (Bool-cases r.1.1) [
        | inl closed ↦ (now, later, rw (run, closed) same)
        | inr failed ↦ (r.1.0, r.0, rw (run, failed) refl)
      ]

  -- Whatever the sockets do, `close` comes to an end once, with both caches empty.
  pub close_lem :
      (entry_order : List (Text × Client) → List (Text × Client)) (pool : ClientPool Client) (s : S)
      → (closed : ClientPool Client) × Answers
          (run step (close channel_of entry_order pool answer) s)
          closed
        × (closed.connection_cache.cache.items ≡ [])
        × (closed.service_cache.items ≡ [])
  unfolding close clear_pool run Lru.clear
  close_lem entry_order pool s =
      let forgotten = record pool { reverse_lookup = [] } in
      let finish : ClientPool Client → ClientPool Client = λ now. record now {
        connection_cache = record now.connection_cache {
          cache = Lru.clear now.connection_cache.cache;
        };
        service_cache = Lru.clear now.service_cache;
      } in
      let (now, later, same) =
        close_each_lem (entry_order (Timed.entry_set forgotten.connection_cache)) forgotten
          (λ now. answer (finish now)) s in
      (finish now, (rw (close, same) refl, rw (close, same) refl), refl, refl)
