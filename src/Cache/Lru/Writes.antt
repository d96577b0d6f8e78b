-- ===== src/Cache/Lru/Writes.antt =====
-- `put` and the two forms of `remove` against their description on the list view alone.
use ezbake_common_cpp.Common.{
  ℕ, zero, suc, ◌+◌, ◌<◌, ◌==◌, ◌≡◌, refl, Bool, true, false, ◌&&◌, ◌||◌, none, some, List, [], ◌∷◌,
  ◌++◌, if◌then◌else◌, Eq, arith, Option-cases, Bool-cases, inl, inr, get_elem?, erase_at, ltb,
  length,
}
use ezbake_common_cpp.Cache.Lru.Min.{count, positions, IsRange}
use ezbake_common_cpp.Cache.Lru.{
  Cache, value_is, scan_value, find_entry, erase_found, make_room, put, remove_value,
}

module _ {ℓ} {K V : Type ℓ} ⦃eK : Eq K⦄ ⦃eV : Eq V⦄ where
  -- The cache holds this very entry.
  unfoldable pub holds : K → V → List (K × V) → Bool
  holds k v [] = false
  holds k v ((j, w) ∷ l) = (eK.beq j k && eV.beq w v) || holds k v l

  unfoldable pub erase_entry : K → V → List (K × V) → List (K × V)
  erase_entry k v [] = []
  erase_entry k v ((j, w) ∷ l) = if eK.beq j k && eV.beq w v then l else (j, w) ∷ erase_entry k v l

  -- No entry occurs twice.
  abbrev pub IsDistinct : List (K × V) → Type 0
  IsDistinct [] = Unit
  IsDistinct ((j, w) ∷ l) = (holds j w l ≡ false) × IsDistinct l

  -- The list without its first entry, if there are as many entries as a capacity other than 0.
  unfoldable pub without_oldest : ℕ → List (K × V) → List (K × V)
  without_oldest zero l = l
  without_oldest (suc n) [] = []
  without_oldest (suc n) (oldest ∷ l) = if ltb (length l) n then oldest ∷ l else l

  -- `put`, on the list alone.
  unfoldable pub after_put : Cache K V → K → V → Cache K V
  after_put c k v = record c {
    items = without_oldest c.capacity (erase_entry k v c.items) ++ ((k, v) ∷ []);
  }

  make_room-without_oldest :
      (capacity : ℕ) (l : List (K × V)) → make_room capacity l ≡ without_oldest capacity l
  unfolding make_room without_oldest
  make_room-without_oldest zero l = ground arith
  make_room-without_oldest (suc n) [] = ground arith
  make_room-without_oldest (suc n) (oldest ∷ l) = ground arith

  pub holds_elem :
      (k : K) (v : V) (d : ℕ) (l : List (K × V)) → get_elem? l d ≡ some (k, v) → holds k v l ≡ true
  unfolding holds
  holds_elem k v d [] h = cc
  holds_elem k v zero ((j, w) ∷ l) h = ground (arith, eK.beq_iff j k, eV.beq_iff w v)
  holds_elem k v (suc d) ((j, w) ∷ l) h = ground (arith, holds_elem k v d l)

  pub elem_of_holds :
      (k : K) (v : V) (l : List (K × V))
      → holds k v l ≡ true
      → (d : ℕ) × (get_elem? l d ≡ some (k, v))
  unfolding holds
  elem_of_holds k v [] h = cc
  elem_of_holds k v ((j, w) ∷ l) h = elim (Bool-cases (eK.beq j k && eV.beq w v)) [
    | inl same ↦ (0, ground (arith, eK.beq_iff j k, eV.beq_iff w v))
    | inr other ↦ let (d, elem) = elem_of_holds k v l (ground arith) in (suc d, elem)
  ]

  erase_entry_absent :
      (k : K) (v : V) (l : List (K × V)) → holds k v l ≡ false → erase_entry k v l ≡ l
  unfolding holds erase_entry
  erase_entry_absent k v [] h = refl
  erase_entry_absent k v ((j, w) ∷ l) h = ground (arith, erase_entry_absent k v l)

  erase_at-erase_entry :
      (k : K) (v : V) (d : ℕ) (l : List (K × V))
      → IsDistinct l
      → get_elem? l d ≡ some (k, v)
      → erase_at d l ≡ erase_entry k v l
  unfolding erase_entry
  erase_at-erase_entry k v d [] u h = cc
  erase_at-erase_entry k v zero ((j, w) ∷ l) u h = ground (arith, eK.beq_iff j k, eV.beq_iff w v)
  erase_at-erase_entry k v (suc d) ((j, w) ∷ l) u h =
      ground
        (arith, erase_at-erase_entry k v d l, holds_elem k v d l, eK.beq_iff j k, eV.beq_iff w v)

  pub positions_elem :
      (n i : ℕ) (k : K) (l : List (K × V))
      → 0 < count i (positions n k l)
      → (d : ℕ) × (v : V) × (i ≡ n + d) × (get_elem? l d ≡ some (k, v))
  unfolding positions
  positions_elem n i k [] h = elim h [ ]
  positions_elem n i k ((j, v) ∷ l) h = elim (Bool-cases (eK.beq j k)) [
    | inl same ↦ elim (Bool-cases (i == n)) [
      | inl here ↦ (0, v, ground arith, ground (arith, eK.beq_iff j k))
      | inr there ↦
          let (d, w, at, elem) = positions_elem (suc n) i k l (ground arith) in
          (suc d, w, omega arith, elem)
    ]
    | inr other ↦
        let (d, w, at, elem) = positions_elem (suc n) i k l (ground arith) in
        (suc d, w, omega arith, elem)
  ]

  pub elem_positions :
      (n d : ℕ) (k : K) (v : V) (l : List (K × V))
      → get_elem? l d ≡ some (k, v)
      → 0 < count (n + d) (positions n k l)
  unfolding positions
  elem_positions n d k v [] h = cc
  elem_positions n zero k v ((j, w) ∷ l) h = ground (arith, eK.beq_iff j k)
  elem_positions n (suc d) k v ((j, w) ∷ l) h =
      let e : n + suc d ≡ suc n + d = omega arith in
      rw e (ground (arith, elem_positions (suc n) d k v l))

  scan_value_hit :
      (l : List (K × V)) (v : V) (i : ℕ) (r : List ℕ)
      → scan_value l v r ≡ some i
      → (0 < count i r) × (value_is v (get_elem? l i) ≡ true)
  unfolding scan_value
  scan_value_hit l v i [] h = cc
  scan_value_hit l v i (j ∷ r) h = ground (arith, scan_value_hit l v i r)

  scan_value_miss :
      (l : List (K × V)) (v : V) (i : ℕ) (r : List ℕ)
      → scan_value l v r ≡ none
      → 0 < count i r
      → value_is v (get_elem? l i) ≡ false
  unfolding scan_value
  scan_value_miss l v i [] h c = elim c [ ]
  scan_value_miss l v i (j ∷ r) h c = ground (arith, scan_value_miss l v i r)

module _ {ℓ} {K V : Type ℓ} ⦃eK : Eq K⦄ ⦃eV : Eq V⦄ (range : K → List (K × V) → List ℕ)
    (law : IsRange range) where
  find_entry_hit :
      (k : K) (v : V) (l : List (K × V)) (i : ℕ)
      → find_entry range k v l ≡ some i
      → get_elem? l i ≡ some (k, v)
  unfolding find_entry
  find_entry_hit k v l i h =
      let (there, same) = scan_value_hit l v i (range k l) h in
      let (d, w, at, elem) = positions_elem 0 i k l (rw law.same at there) in
      let e : d ≡ i = omega arith in
      let elem' : get_elem? l i ≡ some (k, w) = rw e at elem in
      unfold value_is in ground (arith, eV.beq_iff w v)

  find_entry_miss :
      (k : K) (v : V) (l : List (K × V)) → find_entry range k v l ≡ none → holds k v l ≡ false
  unfolding find_entry
  find_entry_miss k v l h = elim (Bool-cases (holds k v l)) [
    | inl held ↦
        let (d, elem) = elem_of_holds k v l held in
        let there = elem_positions 0 d k v l elem in
        let e : 0 + d ≡ d = omega arith in
        let no = scan_value_miss l v d (range k l) h (rw (law.same k l d) (rw e at there)) in
        unfold value_is in absurd (ground (arith, eV.beq_iff v v))
    | inr free ↦ free
  ]

  pub erase_found-erase_entry :
      (k : K) (v : V) (l : List (K × V))
      → IsDistinct l
      → erase_found range k v l ≡ erase_entry k v l
  unfolding erase_found
  erase_found-erase_entry k v l u = elim (Option-cases (find_entry range k v l)) [
    | inl miss ↦ rw (miss, erase_found, erase_entry_absent k v l (find_entry_miss k v l miss))
    | inr (i, hit) ↦
        rw (hit, erase_found) (erase_at-erase_entry k v i l u (find_entry_hit k v l i hit))
  ]

  -- The search for the entry finds it where there is one.
  pub put-make_room :
      (c : Cache K V) (k : K) (v : V)
      → IsDistinct c.items
      → put range c k v
        ≡ record c { items = make_room c.capacity (erase_entry k v c.items) ++ ((k, v) ∷ []) }
  unfolding put
  put-make_room c k v u = rw (erase_found-erase_entry k v c.items u)

  -- In a cache with no entry twice, `put` takes the entry out if it is there, then drops the
  -- least recently used entry if the cache is at a capacity other than 0, then adds the entry as
  -- the most recently used one.
  pub put-after_put :
      (c : Cache K V) (k : K) (v : V) → IsDistinct c.items → put range c k v ≡ after_put c k v
  unfolding after_put
  put-after_put c k v u =
      rw (put-make_room c k v u, make_room-without_oldest c.capacity (erase_entry k v c.items)) refl

  -- In a cache with no entry twice, the two-argument `remove` reports the value exactly if the cache
  -- holds the entry, and takes out that entry.
  pub remove_value-erase_entry :
      (c : Cache K V) (k : K) (v : V)
      → IsDistinct c.items
      → remove_value range c k v
        ≡ (record c { items = erase_entry k v c.items }, if holds k v c.items then some v else none)
  unfolding remove_value
  remove_value-erase_entry c k v u = elim (Option-cases (find_entry range k v c.items)) [
    | inl miss ↦
        let free = find_entry_miss k v c.items miss in
        rw (miss, remove_value, erase_entry_absent k v c.items free, free)
    | inr (i, hit) ↦
        let elem = find_entry_hit k v c.items i hit in
        rw (
          hit,
          remove_value,
          elem,
          erase_at-erase_entry k v i c.items u elem,
          holds_elem k v i c.items elem,
        )
  ]
