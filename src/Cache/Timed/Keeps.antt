-- ===== src/Cache/Timed/Keeps.antt =====
-- What `LRUTimedCache` holds after `getKey` and the two-argument `remove`.
use ezbake_common_cpp.Common.{
  ℕ, suc, ◌≡◌, refl, true, false, not, ◌&&◌, none, some, List, [], ◌∷◌, Eq, arith, Bool-cases, inl,
  inr,
}
use ezbake_common_cpp.Cache.Lru
use ezbake_common_cpp.Cache.Lru.Bounds.{IsValid, call, remove_value_call, call-IsValid}
use ezbake_common_cpp.Cache.Lru.Min.{IsRange}
use ezbake_common_cpp.Cache.Lru.Reads.{holds-erase_entry_other}
use ezbake_common_cpp.Cache.Lru.Bounds.{holds-erase_entry}
use ezbake_common_cpp.Cache.Lru.Writes.{holds, erase_entry, remove_value-erase_entry}
use ezbake_common_cpp.Cache.Timed.{
  CacheValue, expired, value_eq, same_value, same_value_iff, scan_fresh, remove_entries,
}

-- The elements of a `std::set` are those inserted.
pub record IsOrder {ℓ} {K V : Type ℓ} ⦃eK : Eq K⦄ ⦃eV : Eq V⦄
    (order : List (K × CacheValue V) → List (K × CacheValue V)) : Type ℓ where
  pub same :
      (l : List (K × CacheValue V)) (k : K) (w : CacheValue V) → holds k w (order l) ≡ holds k w l

module _ {ℓ} {K V : Type ℓ} ⦃eK : Eq K⦄ ⦃eV : Eq V⦄ (expiration : ℕ) (clock : ℕ → ℕ) where
  -- A key found belongs to an entry of the value that is fresh at some reading of the clock.
  pub scan_fresh_hit :
      (i : ℕ) (v : V) (k : K) (l : List (K × CacheValue V))
      → (scan_fresh expiration clock i v l).0 ≡ some k
      → (n : ℕ) × (w : CacheValue V) × (holds k w l ≡ true)
        × (w.value ≡ v)
        × (expired expiration (clock n) w.timestamp ≡ false)
  unfolding scan_fresh holds
  scan_fresh_hit i v k [] h = cc
  scan_fresh_hit i v k ((j, w) ∷ l) h = elim (Bool-cases (eV.beq w.value v)) [
    | inl same ↦ elim (Bool-cases (expired expiration (clock i) w.timestamp)) [
      | inl stale ↦
          let (n, u, held, value, fresh) =
            scan_fresh_hit (suc i) v k l (rw (same, scan_fresh, stale) at h) in
          (n, u, ground arith, value, fresh)
      | inr fresh ↦ (
        i,
        w,
        ground (arith, eK.beq_iff j k, same_value_iff w w),
        ground (arith, eV.beq_iff w.value v),
        fresh,
      )
    ]
    | inr other ↦
        let (n, u, held, value, fresh) =
          scan_fresh_hit (suc i) v k l (rw (other, scan_fresh) at h) in
        (n, u, ground arith, value, fresh)
  ]

  -- The entries collected are entries of the value, expired at some reading.
  pub scan_fresh-expired :
      (i : ℕ) (v : V) (k : K) (w : CacheValue V) (l : List (K × CacheValue V))
      → holds k w (scan_fresh expiration clock i v l).1 ≡ true
      → (holds k w l ≡ true)
        × (w.value ≡ v)
        × ((n : ℕ) × (expired expiration (clock n) w.timestamp ≡ true))
  unfolding scan_fresh holds
  scan_fresh-expired i v k w [] h = cc
  scan_fresh-expired i v k w ((j, u) ∷ l) h = elim (Bool-cases (eV.beq u.value v)) [
    | inl same ↦ elim (Bool-cases (expired expiration (clock i) u.timestamp)) [
      | inl stale ↦
          let h' = rw (same, stale, scan_fresh) at h in
          elim (Bool-cases (eK.beq j k && same_value u w)) [
            | inl here ↦
                let e : u ≡ w = ground (arith, same_value_iff u w) in
                let value : u.value ≡ v = ground (arith, eV.beq_iff u.value v) in
                (ground arith, rw e at value, (i, rw e at stale))
            | inr there ↦
                let (held, value, at_n) = scan_fresh-expired (suc i) v k w l (ground arith) in
                (ground arith, value, at_n)
          ]
      | inr fresh ↦ absurd (cc (rw (same, fresh, scan_fresh) at h))
    ]
    | inr other ↦
        let (held, value, at_n) =
          scan_fresh-expired (suc i) v k w l (rw (other, scan_fresh) at h) in
        (ground arith, value, at_n)
  ]

  -- Where no key is found, every entry of the value was collected.
  pub scan_fresh_miss :
      (i : ℕ) (v : V) (k : K) (w : CacheValue V) (l : List (K × CacheValue V))
      → (scan_fresh expiration clock i v l).0 ≡ none
      → w.value ≡ v
      → holds k w (scan_fresh expiration clock i v l).1 ≡ holds k w l
  unfolding scan_fresh holds
  scan_fresh_miss i v k w [] h e = refl
  scan_fresh_miss i v k w ((j, u) ∷ l) h e = ground (
    arith,
    scan_fresh_miss (suc i) v k w l,
    same_value_iff u w,
    eV.beq_iff u.value v,
    eV.beq_iff w.value v,
  )

module _ {ℓ} {K V : Type ℓ} ⦃eK : Eq K⦄ ⦃eV : Eq V⦄ (range : K → List (K × CacheValue V) → List ℕ)
    (law : IsRange range) (order : List (K × CacheValue V) → List (K × CacheValue V)) where
  remove_value-IsValid :
      (c : Lru.Cache K (CacheValue V)) (k : K) (w : CacheValue V)
      → IsValid c
      → IsValid (Lru.remove_value range c k w).0
  unfolding call
  remove_value-IsValid c k w h = call-IsValid range law c (remove_value_call k w) h

  pub remove_entries-IsValid :
      (c : Lru.Cache K (CacheValue V)) (l : List (K × CacheValue V))
      → IsValid c
      → IsValid (remove_entries range order c l)
  unfolding remove_entries
  remove_entries-IsValid c [] h = h
  remove_entries-IsValid c ((k, w) ∷ l) h =
      remove_entries-IsValid (Lru.remove_value range c k w).0 l (remove_value-IsValid c k w h)

  pub holds-remove_entries :
      (c : Lru.Cache K (CacheValue V)) (l : List (K × CacheValue V)) (j : K) (u : CacheValue V)
      → IsValid c
      → holds j u (remove_entries range order c l).items ≡ (holds j u c.items && not (holds j u l))
  unfolding remove_entries holds
  holds-remove_entries c [] j u h = ground arith
  holds-remove_entries c ((k, w) ∷ l) j u h =
      let after = (Lru.remove_value range c k w).0 in
      let removed : after.items ≡ erase_entry k w c.items =
        rw (remove_value-erase_entry range law c k w h.distinct) in
      let kept : holds j u after.items ≡ holds j u (erase_entry k w c.items) = rw removed in
      ground (
        arith,
        kept,
        holds-remove_entries after l j u (remove_value-IsValid c k w h),
        holds-erase_entry k w c.items h.distinct,
        holds-erase_entry_other k j w u c.items,
        eK.beq_iff k j,
        same_value_iff w u,
      )
