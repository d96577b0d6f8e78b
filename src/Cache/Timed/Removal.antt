-- ===== src/Cache/Timed/Removal.antt =====
-- The two-argument `remove` of `LRUTimedCache`: every entry of the key and the value goes, whatever
-- its time stamp.
use ezbake_common_cpp.Common.{
  ℕ, ◌+◌, ◌<◌, ◌≡◌, true, not, ◌&&◌, some, List, [], ◌∷◌, Eq, arith, get_elem?, Option-cases,
  Bool-cases, inl, inr,
}
use ezbake_common_cpp.Cache.Lru.Bounds.{IsValid}
use ezbake_common_cpp.Cache.Lru.Min.{count, IsRange}
use ezbake_common_cpp.Cache.Lru.Writes.{
  holds, holds_elem, elem_of_holds, positions_elem, elem_positions,
}
use ezbake_common_cpp.Cache.Timed.Keeps.{IsOrder, holds-remove_entries}
use ezbake_common_cpp.Cache.Timed.{
  CacheValue, TimedCache, value_eq, same_value, same_value_iff, entries_at, remove_value,
}

module _ {ℓ} {K V : Type ℓ} ⦃eK : Eq K⦄ ⦃eV : Eq V⦄ where
  entries_at_hit :
      (v : V) (j : K) (u : CacheValue V) (l : List (K × CacheValue V)) (r : List ℕ)
      → holds j u (entries_at v l r) ≡ true
      → (i : ℕ) × (0 < count i r) × (get_elem? l i ≡ some (j, u)) × (eV.beq u.value v ≡ true)
  unfolding entries_at holds
  entries_at_hit v j u l [] h = cc
  entries_at_hit v j u l (n ∷ r) h = elim (Option-cases (get_elem? l n)) [
    | inl gone ↦
        let (i, there, elem, value) = entries_at_hit v j u l r (rw (gone, entries_at) at h) in
        (i, ground arith, elem, value)
    | inr ((k, w), elem) ↦ elim (Bool-cases (eV.beq w.value v && (eK.beq k j && same_value w u))) [
      | inl here ↦ (
        n,
        ground arith,
        ground (arith, eK.beq_iff k j, same_value_iff w u),
        ground (arith, same_value_iff w u),
      )
      | inr other ↦
          let (i, there, elem', value) = entries_at_hit v j u l r (ground arith) in
          (i, ground arith, elem', value)
    ]
  ]

  entries_at_all :
      (v : V) (i : ℕ) (j : K) (u : CacheValue V) (l : List (K × CacheValue V)) (r : List ℕ)
      → 0 < count i r
      → get_elem? l i ≡ some (j, u)
      → eV.beq u.value v ≡ true
      → holds j u (entries_at v l r) ≡ true
  unfolding entries_at holds
  entries_at_all v i j u l [] h m e = elim h [ ]
  entries_at_all v i j u l (n ∷ r) h m e =
      ground (arith, entries_at_all v i j u l r, eK.beq_iff j j, same_value_iff u u)

module _ {ℓ} {K V : Type ℓ} ⦃eK : Eq K⦄ ⦃eV : Eq V⦄ (range : K → List (K × CacheValue V) → List ℕ)
    (law : IsRange range) (order : List (K × CacheValue V) → List (K × CacheValue V))
    (set_law : IsOrder order) where
  range_entries :
      (k j : K) (v : V) (u : CacheValue V) (l : List (K × CacheValue V))
      → holds j u (entries_at v l (range k l)) ≡ ((eK.beq k j && eV.beq u.value v) && holds j u l)
  range_entries k j v u l = elim (Bool-cases (holds j u (entries_at v l (range k l)))) [
    | inl there ↦
        let (i, counted, elem, value) = entries_at_hit v j u l (range k l) there in
        let (d, w, place, elem') = positions_elem 0 i k l (rw (law.same k l i) at counted) in
        let e : d ≡ i = omega arith in
        let here : get_elem? l i ≡ some (k, w) = rw e at elem' in
        ground (arith, holds_elem j u i l elem, eK.beq_iff k j)
    | inr absent ↦ elim (Bool-cases (holds j u l)) [
      | inl held ↦ elim (Bool-cases (eK.beq k j && eV.beq u.value v)) [
        | inl match_both ↦
            let (d, elem) = elem_of_holds j u l held in
            let e : j ≡ k = ground (arith, eK.beq_iff k j) in
            let elem' : get_elem? l d ≡ some (k, u) = rw e at elem in
            let z : 0 + d ≡ d = omega arith in
            let counted : 0 < count d (range k l) =
              rw (law.same k l d) (rw z at (elem_positions 0 d k u l elem')) in
            absurd (ground (arith, entries_at_all v d j u l (range k l) counted elem))
        | inr differs ↦ ground arith
      ]
      | inr free ↦ ground arith
    ]
  ]

  -- After the two-argument `remove` on a valid cache, the cache holds the entries that it held before
  -- but those of the key and the value, whatever their time stamps.
  pub holds-remove_value :
      (c : TimedCache K V) (k j : K) (v : V) (u : CacheValue V)
      → IsValid c.cache
      → holds j u (remove_value range order c k v).0.cache.items
        ≡ (holds j u c.cache.items && not (eK.beq k j && eV.beq u.value v))
  unfolding remove_value
  holds-remove_value c k j v u h =
      let entries = entries_at v c.cache.items (range k c.cache.items) in
      ground (
        arith,
        holds-remove_entries range law order c.cache (order entries) j u h,
        set_law.same entries j u,
        range_entries k j v u c.cache.items,
      )
