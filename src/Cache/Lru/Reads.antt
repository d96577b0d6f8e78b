-- ===== src/Cache/Lru/Reads.antt =====
-- What the cache holds after each method, and what the queries say of it.
use ezbake_common_cpp.Common.{
  ℕ, suc, ◌+◌, sym, ◌∙◌, ◌<◌, ◌≡◌, refl, Bool, true, false, not, ◌&&◌, ◌||◌, some, List, [], ◌∷◌,
  leb, ◌==◌, Eq, arith, Option-cases, Bool-cases, inl, inr, length, get_elem?,
}
use ezbake_common_cpp.Cache.Lru.Bounds.Part.{holds-append, PartOf-IsDistinct, erase_entry-PartOf}
use ezbake_common_cpp.Cache.Lru.Min.{count, IsRange}
use ezbake_common_cpp.Cache.Lru.Spec.{find_first, without_first, after_get, get-after_get}
use ezbake_common_cpp.Cache.Lru.Writes.{
  holds, erase_entry, IsDistinct, put-make_room, positions_elem, elem_positions, holds_elem,
  elem_of_holds,
}
use ezbake_common_cpp.Cache.Lru.{
  Cache, has_key, erase_key, make_room, values_at, set_has, get, put, remove, contains_key,
}

module _ {ℓ} {K V : Type ℓ} ⦃eK : Eq K⦄ ⦃eV : Eq V⦄ where
  holds-without_first_hit :
      (k j : K) (v w : V) (l : List (K × V))
      → find_first k l ≡ some v
      → holds j w l ≡ ((eK.beq k j && eV.beq v w) || holds j w (without_first k l))
  unfolding holds find_first without_first
  holds-without_first_hit k j v w [] h = cc
  holds-without_first_hit k j v w ((i, u) ∷ l) h =
      ground (arith, holds-without_first_hit k j v w l, eK.beq_iff i k)

  pub holds-erase_entry_other :
      (k j : K) (v w : V) (l : List (K × V))
      → (eK.beq k j && eV.beq v w) ≡ false
      → holds j w (erase_entry k v l) ≡ holds j w l
  unfolding holds erase_entry
  holds-erase_entry_other k j v w [] h = refl
  holds-erase_entry_other k j v w ((i, u) ∷ l) h =
      ground (arith, holds-erase_entry_other k j v w l, eK.beq_iff i k, eV.beq_iff u v)

  -- `put` drops this entry of the others `l`: the least recently used one, at capacity.
  unfoldable pub is_dropped : ℕ → K → V → List (K × V) → Bool
  is_dropped capacity j w [] = false
  is_dropped capacity j w ((i, u) ∷ l) =
      (not (capacity == 0) && leb capacity (suc (length l))) && (eK.beq i j && eV.beq u w)

  holds-make_room :
      (capacity : ℕ) (j : K) (w : V) (l : List (K × V))
      → IsDistinct l
      → holds j w (make_room capacity l) ≡ (holds j w l && not (is_dropped capacity j w l))
  unfolding make_room is_dropped holds
  holds-make_room capacity j w [] u = ground arith
  holds-make_room capacity j w ((i, v) ∷ l) u = ground (arith, eK.beq_iff i j, eV.beq_iff v w, u.0)

  holds-after_get :
      (c : Cache K V) (k j : K) (w : V) → holds j w (after_get c k).items ≡ holds j w c.items
  unfolding after_get holds
  holds-after_get c k j w = elim (Option-cases (find_first k c.items)) [
    | inl miss ↦ rw (miss, after_get)
    | inr (v, hit) ↦
        rw (hit, after_get)
          (ground (
            arith,
            holds-append j w (without_first k c.items) ((k, v) ∷ []),
            holds-without_first_hit k j v w c.items hit,
          ))
  ]

  has_key-erase_key :
      (k j : K) (l : List (K × V)) → has_key j (erase_key k l) ≡ (not (eK.beq k j) && has_key j l)
  unfolding has_key erase_key
  has_key-erase_key k j [] = ground arith
  has_key-erase_key k j ((i, u) ∷ l) =
      ground (arith, has_key-erase_key k j l, eK.beq_iff i k, eK.beq_iff i j, eK.beq_iff k j)

  holds-erase_key :
      (k j : K) (w : V) (l : List (K × V))
      → holds j w (erase_key k l) ≡ (not (eK.beq k j) && holds j w l)
  unfolding holds erase_key
  holds-erase_key k j w [] = ground arith
  holds-erase_key k j w ((i, u) ∷ l) =
      ground (arith, holds-erase_key k j w l, eK.beq_iff i k, eK.beq_iff i j, eK.beq_iff k j)

  values_at_has :
      (v : V) (i : ℕ) (k : K) (l : List (K × V)) (r : List ℕ)
      → 0 < count i r
      → get_elem? l i ≡ some (k, v)
      → set_has v (values_at l r) ≡ true
  unfolding values_at set_has
  values_at_has v i k l [] h m = elim h [ ]
  values_at_has v i k l (j ∷ r) h m = ground (arith, values_at_has v i k l r, eV.beq_iff v v)

  has_values_at :
      (v : V) (l : List (K × V)) (r : List ℕ)
      → set_has v (values_at l r) ≡ true
      → (i : ℕ) × (k : K) × (0 < count i r) × (get_elem? l i ≡ some (k, v))
  unfolding values_at set_has
  has_values_at v l [] h = cc
  has_values_at v l (j ∷ r) h = elim (Option-cases (get_elem? l j)) [
    | inl miss ↦
        let (i, k, there, elem) = has_values_at v l r (ground arith) in (i, k, ground arith, elem)
    | inr ((k, w), elem) ↦ elim (Bool-cases (eV.beq w v)) [
      | inl same ↦ (j, k, ground arith, ground (arith, eV.beq_iff w v))
      | inr other ↦
          let (i, m, there, elem') = has_values_at v l r (ground arith) in
          (i, m, ground arith, elem')
    ]
  ]

module _ {ℓ} {K V : Type ℓ} ⦃eK : Eq K⦄ ⦃eV : Eq V⦄ (range : K → List (K × V) → List ℕ)
    (law : IsRange range) where
  pub range_values :
      (k : K) (w : V) (l : List (K × V)) → set_has w (values_at l (range k l)) ≡ holds k w l
  range_values k w l = elim (Bool-cases (holds k w l)) [
    | inl held ↦
        let (d, elem) = elem_of_holds k w l held in
        let e : 0 + d ≡ d = omega arith in
        rw held (
          values_at_has w d k l (range k l) (rw law.same (rw e at (elem_positions 0 d k w l elem)))
            elem)
    | inr free ↦ elim (Bool-cases (set_has w (values_at l (range k l)))) [
      | inl there ↦
          let (i, j, there', elem) = has_values_at w l (range k l) there in
          let (d, v, place, elem') = positions_elem 0 i k l (rw law.same at there') in
          let e : d ≡ i = omega arith in
          let here : get_elem? l i ≡ some (k, v) = rw e at elem' in
          absurd (cc (holds_elem k v i l here, free))
      | inr no_value ↦ no_value ∙ sym free
    ]
  ]

  -- `get` changes only the order: the cache holds the same entries.
  pub holds-get :
      (c : Cache K V) (k j : K) (w : V) → holds j w (get range c k).0.items ≡ holds j w c.items
  holds-get c k j w = rw (get-after_get range law c k) (holds-after_get c k j w)

  -- After `put` on a cache with no entry twice, the cache holds the new entry, and of the entries
  -- that it held before all but the one dropped at capacity.
  pub holds-put :
      (c : Cache K V) (k j : K) (v w : V)
      → IsDistinct c.items
      → holds j w (put range c k v).items ≡ (
          (eK.beq k j && eV.beq v w)
          || (holds j w c.items && not (is_dropped c.capacity j w (erase_entry k v c.items))))
  unfolding holds
  holds-put c k j v w u =
      let l = erase_entry k v c.items in
      rw (put-make_room range law c k v u) (
        ground (
          arith,
          holds-append j w (make_room c.capacity l) ((k, v) ∷ []),
          holds-make_room c.capacity j w l (PartOf-IsDistinct (erase_entry-PartOf k v c.items) u),
          holds-erase_entry_other k j v w c.items,
        ))

  -- `remove` of a key takes out its entries and no others, and the values that it reports are
  -- those of its entries.
  pub remove_lem :
      (c : Cache K V) (k j : K) (w : V)
      → (contains_key (remove range c k).0 k ≡ false)
        × (holds j w (remove range c k).0.items ≡ (not (eK.beq k j) && holds j w c.items))
        × (set_has w (remove range c k).1 ≡ holds k w c.items)
  unfolding remove contains_key
  remove_lem c k j w = (
    ground (arith, has_key-erase_key k k c.items, eK.beq_iff k k),
    holds-erase_key k j w c.items,
    range_values k w c.items,
  )
