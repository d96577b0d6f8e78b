-- ===== src/Cache/Timed/Expiry.antt =====
-- `getKey` of `LRUTimedCache`: what it finds, what it removes, and what it keeps.
use ezbake_common_cpp.Common.{
  ℕ, ◌≡◌, ◌⊎◌, inl, inr, true, false, not, ◌&&◌, none, some, List, Eq, arith, Bool-cases,
}
use ezbake_common_cpp.Cache.Lru.Bounds.{IsValid}
use ezbake_common_cpp.Cache.Lru.Min.{IsRange}
use ezbake_common_cpp.Cache.Lru.Writes.{holds}
use ezbake_common_cpp.Cache.Timed.Keeps.{
  IsOrder, scan_fresh_hit, scan_fresh-expired, scan_fresh_miss, holds-remove_entries,
  remove_entries-IsValid,
}
use ezbake_common_cpp.Cache.Timed.{CacheValue, TimedCache, expired, value_eq, scan_fresh, get_key}

module _ {ℓ} {K V : Type ℓ} ⦃eK : Eq K⦄ ⦃eV : Eq V⦄ (range : K → List (K × CacheValue V) → List ℕ)
    (order : List (K × CacheValue V) → List (K × CacheValue V)) where
  -- A key that `getKey` returns has an entry of the value that is fresh at a reading of the clock.
  pub get_key_fresh :
      (c : TimedCache K V) (clock : ℕ → ℕ) (v : V) (k : K)
      → (get_key range order c clock v).1 ≡ some k
      → (n : ℕ) × (w : CacheValue V) × (holds k w c.cache.items ≡ true)
        × (w.value ≡ v)
        × (expired c.expiration (clock n) w.timestamp ≡ false)
  unfolding get_key
  get_key_fresh c clock v k h = scan_fresh_hit c.expiration clock 0 v k c.cache.items h

module _ {ℓ} {K V : Type ℓ} ⦃eK : Eq K⦄ ⦃eV : Eq V⦄ (range : K → List (K × CacheValue V) → List ℕ)
    (law : IsRange range) (order : List (K × CacheValue V) → List (K × CacheValue V))
    (set_law : IsOrder order) where
  holds-get_key_after :
      (c : TimedCache K V) (clock : ℕ → ℕ) (v : V) (j : K) (u : CacheValue V)
      → IsValid c.cache
      → holds j u (get_key range order c clock v).0.cache.items ≡ (
          holds j u c.cache.items
          && not (holds j u (scan_fresh c.expiration clock 0 v c.cache.items).1))
  unfolding get_key
  holds-get_key_after c clock v j u h =
      let stale = (scan_fresh c.expiration clock 0 v c.cache.items).1 in
      ground (
        arith,
        holds-remove_entries range law order c.cache (order stale) j u h,
        set_law.same stale j u,
      )

  -- In a valid cache `getKey` adds no entry, and an entry that it removes is one of the value,
  -- expired at a reading of the clock.
  pub get_key_kept :
      (c : TimedCache K V) (clock : ℕ → ℕ) (v : V) (j : K) (u : CacheValue V)
      → IsValid c.cache
      → (holds j u (get_key range order c clock v).0.cache.items ≡ holds j u c.cache.items)
        ⊎ ((holds j u (get_key range order c clock v).0.cache.items ≡ false)
            × (u.value ≡ v)
            × ((n : ℕ) × (expired c.expiration (clock n) u.timestamp ≡ true)))
  get_key_kept c clock v j u h =
      let stale = (scan_fresh c.expiration clock 0 v c.cache.items).1 in
      let after = holds-get_key_after c clock v j u h in
      elim (Bool-cases (holds j u stale)) [
        | inl removed ↦
            let (held, value, late) =
              scan_fresh-expired c.expiration clock 0 v j u c.cache.items removed in
            inr (ground (arith, after), value, late)
        | inr kept ↦ inl (ground (arith, after))
      ]

  -- Where `getKey` returns nothing on a valid cache, no entry of the value is left in the cache.
  pub get_key-none :
      (c : TimedCache K V) (clock : ℕ → ℕ) (v : V) (j : K) (u : CacheValue V)
      → IsValid c.cache
      → (get_key range order c clock v).1 ≡ none
      → u.value ≡ v
      → holds j u (get_key range order c clock v).0.cache.items ≡ false
  unfolding get_key
  get_key-none c clock v j u h missing e = ground (
    arith,
    holds-get_key_after c clock v j u h,
    scan_fresh_miss c.expiration clock 0 v j u c.cache.items missing e,
  )

  -- `getKey` keeps the invariant of the cache below.
  pub get_key-IsValid :
      (c : TimedCache K V) (clock : ℕ → ℕ) (v : V)
      → IsValid c.cache
      → IsValid (get_key range order c clock v).0.cache
  unfolding get_key
  get_key-IsValid c clock v h =
      remove_entries-IsValid range law order c.cache
        (order (scan_fresh c.expiration clock 0 v c.cache.items).1) h
