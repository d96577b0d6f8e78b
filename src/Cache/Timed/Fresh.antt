-- ===== src/Cache/Timed/Fresh.antt =====
-- What `LRUTimedCache` returns is fresh, and what it finds expired it takes out.
use ezbake_common_cpp.Common.{
  ℕ, ◌≡◌, false, Option, none, some, List, [], ◌∷◌, ◌++◌, if◌then◌else◌, Eq, arith, Option-cases,
  Bool-cases, inl, inr,
}
use ezbake_common_cpp.Cache.Lru
use ezbake_common_cpp.Cache.Lru.Bounds.{IsValid, holds-without_first}
use ezbake_common_cpp.Cache.Lru.Bounds.Part.{
  IsDistinct-concat, PartOf-IsDistinct, without_first-PartOf,
}
use ezbake_common_cpp.Cache.Lru.Min.{IsRange}
use ezbake_common_cpp.Cache.Lru.Spec.{
  find_first, without_first, after_get, after_pop, get-after_get, pop-after_pop,
}
use ezbake_common_cpp.Cache.Lru.Writes.{holds, erase_entry, IsDistinct, remove_value-erase_entry}
use ezbake_common_cpp.Cache.Timed.{
  CacheValue, TimedCache, expired, value_eq, expunge_expired, hide_expired, get, pop,
}

module _ {ℓ} {K W : Type ℓ} ⦃eK : Eq K⦄ ⦃eW : Eq W⦄ where
  erase_entry-append_last :
      (k : K) (w : W) (l : List (K × W))
      → holds k w l ≡ false
      → erase_entry k w (l ++ ((k, w) ∷ [])) ≡ l
  unfolding erase_entry holds
  erase_entry-append_last k w [] h = ground (arith, eK.beq_iff k k, eW.beq_iff w w)
  erase_entry-append_last k w ((j, u) ∷ l) h = ground (arith, erase_entry-append_last k w l)

module _ {ℓ} {K V : Type ℓ} ⦃eK : Eq K⦄ ⦃eV : Eq V⦄ where
  -- `get`: a fresh hit becomes the most recently used entry, an expired one is taken out.
  unfoldable pub after_timed_get : TimedCache K V → ℕ → K → TimedCache K V × Option V
  after_timed_get c now k = elim (find_first k c.cache.items) [
    | none ↦ (c, none)
    | some w ↦
        let rest = without_first k c.cache.items in
        if expired c.expiration now w.timestamp
        then (record c { cache = record c.cache { items = rest } }, none)
        else (record c { cache = record c.cache { items = rest ++ ((k, w) ∷ []) } }, some w.value)
  ]

  -- `pop`: a hit is taken out, and returned if it is fresh.
  unfoldable pub after_timed_pop : TimedCache K V → ℕ → K → TimedCache K V × Option V
  after_timed_pop c now k = elim (find_first k c.cache.items) [
    | none ↦ (c, none)
    | some w ↦ (
      record c { cache = record c.cache { items = without_first k c.cache.items } },
      if expired c.expiration now w.timestamp then none else some w.value,
    )
  ]

module _ {ℓ} {K V : Type ℓ} ⦃eK : Eq K⦄ ⦃eV : Eq V⦄ (range : K → List (K × CacheValue V) → List ℕ)
    (law : IsRange range) (order : List (K × CacheValue V) → List (K × CacheValue V)) where
  -- In a valid cache `get` returns the value of the least recently used entry of the key if that
  -- is fresh, and makes the entry the most recently used one; if the entry is expired, `get`
  -- returns nothing and takes it out.
  pub get-after_timed_get :
      (c : TimedCache K V) (now : ℕ) (k : K)
      → IsValid c.cache
      → get range order c now k ≡ after_timed_get c now k
  unfolding get expunge_expired after_timed_get after_get
  get-after_timed_get c now k h = elim (Option-cases (find_first k c.cache.items)) [
    | inl miss ↦ rw (lru_miss k miss, miss, get, after_timed_get)
    | inr (w, hit) ↦ elim (Bool-cases (expired c.expiration now w.timestamp)) [
      | inl stale ↦ rw (lru_hit k w hit, hit, get, after_timed_get, stale, removed k w hit)
      | inr fresh ↦ rw (lru_hit k w hit, hit, get, after_timed_get, fresh)
    ]
  ]
    where
      lru_miss :
          (k : K) → find_first k c.cache.items ≡ none → Lru.get range c.cache k ≡ (c.cache, none)
      lru_miss k miss = rw (get-after_get range law c.cache k, miss, after_get)

      lru_hit :
          (k : K) (w : CacheValue V)
          → find_first k c.cache.items ≡ some w
          → Lru.get range c.cache k
            ≡ (record c.cache { items = without_first k c.cache.items ++ ((k, w) ∷ []) }, some w)
      lru_hit k w hit = rw (get-after_get range law c.cache k, hit, after_get)

      removed :
          (k : K) (w : CacheValue V)
          → find_first k c.cache.items ≡ some w
          → (Lru.remove_value range
              (record c.cache { items = without_first k c.cache.items ++ ((k, w) ∷ []) })
              k
              w).0
            ≡ record c.cache { items = without_first k c.cache.items }
      removed k w hit =
          let rest = without_first k c.cache.items in
          let gone = holds-without_first k w c.cache.items h.distinct hit in
          let moved : Lru.Cache K (CacheValue V) = record c.cache {
            items = rest ++ ((k, w) ∷ []);
          } in
          let distinct : IsDistinct moved.items =
            IsDistinct-concat k w rest
              (PartOf-IsDistinct (without_first-PartOf k c.cache.items) h.distinct) gone in
          rw (
            remove_value-erase_entry range law moved k w distinct,
            erase_entry-append_last k w rest gone,
          )

  -- `pop` takes the least recently used entry of the key out, and returns its value if it is fresh.
  pub pop-after_timed_pop :
      (c : TimedCache K V) (now : ℕ) (k : K) → pop range order c now k ≡ after_timed_pop c now k
  unfolding pop hide_expired after_timed_pop after_pop
  pop-after_timed_pop c now k = elim (Option-cases (find_first k c.cache.items)) [
    | inl miss ↦ rw (pop-after_pop range law c.cache k, miss, after_timed_pop, pop, after_pop)
    | inr (w, hit) ↦ rw (pop-after_pop range law c.cache k, hit, after_timed_pop, pop, after_pop)
  ]
