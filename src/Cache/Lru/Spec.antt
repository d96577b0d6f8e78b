-- ===== src/Cache/Lru/Spec.antt =====
-- `get` and `pop` against their description on the list view alone: the hash table is gone.
use ezbake_common_cpp.Common.{
  ℕ, suc, ◌+◌, ◌≡◌, refl, Option, none, some, List, [], ◌∷◌, ◌++◌, if◌then◌else◌, Eq, arith,
  Option-cases, Bool-cases, inl, inr, get_elem?, erase_at,
}
use ezbake_common_cpp.Cache.Lru.Min.{first_pos, IsRange, get_lru_entry-first_pos}
use ezbake_common_cpp.Cache.Lru.{Cache, lru_entry, get, pop}

module _ {ℓ} {K V : Type ℓ} ⦃e : Eq K⦄ where
  -- The value of the least recently used entry of the key.
  unfoldable pub find_first : K → List (K × V) → Option V
  find_first k [] = none
  find_first k ((j, v) ∷ l) = if e.beq j k then some v else find_first k l

  unfoldable pub without_first : K → List (K × V) → List (K × V)
  without_first k [] = []
  without_first k ((j, v) ∷ l) = if e.beq j k then l else (j, v) ∷ without_first k l

  first_pos_hit :
      (n p : ℕ) (k : K) (l : List (K × V))
      → first_pos n k l ≡ some p
      → (d : ℕ) × (v : V) × (p ≡ n + d)
        × (get_elem? l d ≡ some (k, v))
        × (find_first k l ≡ some v)
        × (erase_at d l ≡ without_first k l)
  unfolding first_pos find_first without_first
  first_pos_hit n p k [] h = cc
  first_pos_hit n p k ((j, v) ∷ l) h = elim (Bool-cases (e.beq j k)) [
    | inl same ↦ (0, v, ground arith, ground (arith, e.beq_iff j k), rw same, rw same)
    | inr other ↦
        let (d, w, at, elem, found, rest) = first_pos_hit (suc n) p k l (rw other at h) in
        (suc d, w, omega arith, elem, rw other found, rw (other, rest))
  ]

  first_pos_miss :
      (n : ℕ) (k : K) (l : List (K × V)) → first_pos n k l ≡ none → find_first k l ≡ none
  unfolding first_pos find_first
  first_pos_miss n k [] h = refl
  first_pos_miss n k ((j, v) ∷ l) h = ground (arith, first_pos_miss (suc n) k l)

  -- `get`: a hit becomes the most recently used entry.
  unfoldable pub after_get : Cache K V → K → Cache K V
  after_get c k = elim (find_first k c.items) [
    | none ↦ c
    | some v ↦ record c { items = without_first k c.items ++ ((k, v) ∷ []) }
  ]

  -- `pop`: a hit is taken out.
  unfoldable pub after_pop : Cache K V → K → Cache K V
  after_pop c k = elim (find_first k c.items) [
    | none ↦ c
    | some v ↦ record c { items = without_first k c.items }
  ]

module _ {ℓ} {K V : Type ℓ} ⦃eK : Eq K⦄ ⦃eV : Eq V⦄ (range : K → List (K × V) → List ℕ)
    (law : IsRange range) where
  lru_entry_hit :
      (k : K) (l : List (K × V)) (p : ℕ)
      → first_pos 0 k l ≡ some p
      → (v : V) × (lru_entry range k l ≡ some (p, k, v))
        × (find_first k l ≡ some v)
        × (erase_at p l ≡ without_first k l)
  unfolding lru_entry
  lru_entry_hit k l p h =
      let (d, v, at, elem, found, rest) = first_pos_hit 0 p k l h in
      let same : d ≡ p = omega arith in
      (
        v,
        rw (get_lru_entry-first_pos range law k l, h, lru_entry, rw same at elem),
        found,
        rw same at rest,
      )

  lru_entry_miss : (k : K) (l : List (K × V)) → first_pos 0 k l ≡ none → lru_entry range k l ≡ none
  unfolding lru_entry
  lru_entry_miss k l h = rw (get_lru_entry-first_pos range law k l, h, lru_entry)

  -- Whatever the order of the hash table's ranges, `get` returns the value of the first entry of
  -- the key in the recency list, or nothing if there is none, and makes that entry the last.
  pub get-after_get :
      (c : Cache K V) (k : K) → get range c k ≡ (after_get c k, find_first k c.items)
  unfolding get after_get
  get-after_get c k = elim (Option-cases (first_pos 0 k c.items)) [
    | inl miss ↦ rw (lru_entry_miss k c.items miss, get, first_pos_miss 0 k c.items miss, after_get)
    | inr (p, hit) ↦
        let (v, entry, found, rest) = lru_entry_hit k c.items p hit in
        rw (entry, get, found, after_get, rest)
  ]

  -- Whatever the order of the hash table's ranges, `pop` returns the value of the first entry of the
  -- key in the recency list, or nothing if there is none, and takes that entry out and no other.
  pub pop-after_pop :
      (c : Cache K V) (k : K) → pop range c k ≡ (after_pop c k, find_first k c.items)
  unfolding pop after_pop
  pop-after_pop c k = elim (Option-cases (first_pos 0 k c.items)) [
    | inl miss ↦ rw (lru_entry_miss k c.items miss, pop, first_pos_miss 0 k c.items miss, after_pop)
    | inr (p, hit) ↦
        let (v, entry, found, rest) = lru_entry_hit k c.items p hit in
        rw (entry, pop, found, after_pop, rest)
  ]
