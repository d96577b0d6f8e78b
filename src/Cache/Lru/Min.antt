-- ===== src/Cache/Lru/Min.antt =====
-- `getLruEntry`: whatever the order of the range, the scan of the distances ends at the first
-- entry of the key in the list view.
use ezbake_common_cpp.Common.{
  ℕ, suc, ◌+◌, ◌≤◌, ◌<◌, ◌≡◌, refl, ap, true, false, Option, none, some, List, [], ◌∷◌, ◌==◌,
  if◌then◌else◌, Eq, arith, Option-cases, inl, inr,
}
use ezbake_common_cpp.Cache.Lru.{scan_lru, lru_of, has_key, get_lru_entry}

abbrev pub count : ℕ → List ℕ → ℕ
count i [] = 0
count i (j ∷ r) = (if i == j then 1 else 0) + count i r

module _ {ℓ} {K V : Type ℓ} ⦃e : Eq K⦄ where
  -- The positions of the entries of the key, from position `n` on.
  unfoldable pub positions : ℕ → K → List (K × V) → List ℕ
  positions n k [] = []
  positions n k ((j, v) ∷ l) =
      let rest = positions (suc n) k l in if e.beq j k then n ∷ rest else rest

  unfoldable pub first_pos : ℕ → K → List (K × V) → Option ℕ
  first_pos n k [] = none
  first_pos n k ((j, v) ∷ l) = if e.beq j k then some n else first_pos (suc n) k l

  positions-ge : (n i : ℕ) (k : K) (l : List (K × V)) → 0 < count i (positions n k l) → n ≤ i
  unfolding positions
  positions-ge n i k [] h = elim h [ ]
  positions-ge n i k ((j, v) ∷ l) h = ground (arith, positions-ge (suc n) i k l)

  pub first_pos-count :
      (n p : ℕ) (k : K) (l : List (K × V))
      → first_pos n k l ≡ some p
      → 0 < count p (positions n k l)
  unfolding positions first_pos
  first_pos-count n p k [] h = cc
  first_pos-count n p k ((j, v) ∷ l) h = ground (arith, first_pos-count (suc n) p k l)

  first_pos-le :
      (n p i : ℕ) (k : K) (l : List (K × V))
      → first_pos n k l ≡ some p
      → 0 < count i (positions n k l)
      → p ≤ i
  unfolding positions first_pos
  first_pos-le n p i k [] h c = cc
  first_pos-le n p i k ((j, v) ∷ l) h c =
      ground (arith, first_pos-le (suc n) p i k l, positions-ge (suc n) i k l)

  -- `find` fails exactly where there is no first position.
  pub first_pos-has_key :
      (n : ℕ) (k : K) (l : List (K × V))
      → has_key k l ≡ (elim (first_pos n k l) [ none ↦ false | some _ ↦ true ])
  unfolding first_pos has_key
  first_pos-has_key n k [] = refl
  first_pos-has_key n k ((j, v) ∷ l) = ground (arith, first_pos-has_key (suc n) k l)

scan_lru-le : (entry : ℕ) (r : List ℕ) → scan_lru entry r ≤ entry
unfolding scan_lru
scan_lru-le entry [] = omega arith
scan_lru-le entry (i ∷ r) = ground (arith, scan_lru-le i r, scan_lru-le entry r)

scan_lru-le-count : (entry i : ℕ) (r : List ℕ) → 0 < count i r → scan_lru entry r ≤ i
unfolding scan_lru
scan_lru-le-count entry i [] h = elim h [ ]
scan_lru-le-count entry i (j ∷ r) h = ground (
  arith,
  scan_lru-le j r,
  scan_lru-le entry r,
  scan_lru-le-count j i r,
  scan_lru-le-count entry i r,
)

scan_lru-count : (entry : ℕ) (r : List ℕ) → 0 < count (scan_lru entry r) (entry ∷ r)
unfolding scan_lru
scan_lru-count entry [] = ground arith
scan_lru-count entry (j ∷ r) = ground (arith, scan_lru-count j r, scan_lru-count entry r)

-- Two lists with the same members have the same least one.
lru_of-least :
    (r : List ℕ) (p : ℕ) → 0 < count p r → ((i : ℕ) → 0 < count i r → p ≤ i) → lru_of r ≡ some p
unfolding lru_of
lru_of-least [] p h m = elim h [ ]
lru_of-least (j ∷ r) p h m =
    let q = scan_lru j (j ∷ r) in
    let below : q ≤ p = scan_lru-le-count j p (j ∷ r) h in
    let there : 0 < count q (j ∷ j ∷ r) = scan_lru-count j (j ∷ r) in
    let above : p ≤ q = m q (ground arith) in ap some (omega arith)

-- What Boost documents of `equal_range`: it runs through the entries of the key, each once.
pub record IsRange {ℓ} {K V : Type ℓ} ⦃e : Eq K⦄ (range : K → List (K × V) → List ℕ) : Type ℓ where
  pub same : (k : K) (l : List (K × V)) (i : ℕ) → count i (range k l) ≡ count i (positions 0 k l)

module _ {ℓ} {K V : Type ℓ} ⦃eK : Eq K⦄ ⦃eV : Eq V⦄ (range : K → List (K × V) → List ℕ)
    (law : IsRange range) where
  pub get_lru_entry-first_pos :
      (k : K) (l : List (K × V)) → get_lru_entry range k l ≡ first_pos 0 k l
  unfolding get_lru_entry
  get_lru_entry-first_pos k l = elim (Option-cases (first_pos 0 k l)) [
    | inl miss ↦ rw (miss, rw miss at (first_pos-has_key 0 k l))
    | inr (p, hit) ↦
        rw (hit, rw hit at (first_pos-has_key 0 k l))
          (lru_of-least (range k l) p (rw (law.same k l p) (first_pos-count 0 p k l hit))
            (λ i h. first_pos-le 0 p i k l hit (rw (law.same k l i) at h)))
  ]
