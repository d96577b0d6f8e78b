-- ===== src/Cache/Lru/Queries.antt =====
-- The queries `valueSet`, `getKey` and `containsValue`, against the entries that the cache holds.
use ezbake_common_cpp.Common.{
  ℕ, suc, ◌<◌, ◌≡◌, ◌↔◌, refl, true, false, ◌||◌, none, some, List, [], ◌∷◌, ◌++◌, Eq, arith,
  Bool-cases, Option-cases, inl, inr,
}
use ezbake_common_cpp.Cache.Lru.Min.{
  count, positions, first_pos, first_pos-has_key, first_pos-count, IsRange,
}
use ezbake_common_cpp.Cache.Lru.Reads.{range_values}
use ezbake_common_cpp.Cache.Lru.Writes.{holds}
use ezbake_common_cpp.Cache.Lru.{
  Cache, has_key, values_at, set_has, set_insert, set_of, scan_key, get_key, contains_key,
  contains_value, value_set, has_entry, insert_entries, entry_set,
}

module _ {ℓ} {V : Type ℓ} ⦃e : Eq V⦄ where
  set_has-append : (w : V) (s l : List V) → set_has w (s ++ l) ≡ (set_has w s || set_has w l)
  unfolding set_has
  set_has-append w [] l = refl
  set_has-append w (x ∷ s) l = ground (arith, set_has-append w s l)

  set_has-set_insert :
      (w v : V) (s : List V) → set_has w (set_insert s v) ≡ (set_has w s || e.beq v w)
  unfolding set_has set_insert
  set_has-set_insert w v s = ground (arith, set_has-append w s (v ∷ []), e.beq_iff v w)

  set_has-set_of : (w : V) (s l : List V) → set_has w (set_of s l) ≡ (set_has w s || set_has w l)
  unfolding set_has set_of
  set_has-set_of w s [] = ground arith
  set_has-set_of w s (v ∷ l) =
      ground (arith, set_has-set_of w (set_insert s v) l, set_has-set_insert w v s)

module _ {ℓ} {K V : Type ℓ} ⦃eK : Eq K⦄ where
  positions-none :
      (n : ℕ) (k : K) (l : List (K × V)) → first_pos n k l ≡ none → positions n k l ≡ []
  unfolding first_pos positions
  positions-none n k [] h = refl
  positions-none n k ((j, v) ∷ l) h = ground (arith, positions-none (suc n) k l)

  empty_range :
      (k : K) (l : List (K × V)) (r : List ℕ)
      → ((i : ℕ) → count i r ≡ count i (positions 0 k l))
      → (r ≡ []) ↔ (has_key k l ≡ false)
  empty_range k l r same = elim (Option-cases (first_pos 0 k l)) [
    | inl miss ↦ (
      λ _. rw miss at (first_pos-has_key 0 k l),
      λ _. nil r (λ i. rw (positions-none 0 k l miss) at (same i)),
    )
    | inr (p, hit) ↦ (
      λ nil_range. absurd (clash p (rw nil_range at (same p)) (first_pos-count 0 p k l hit)),
      λ no_key. absurd (cc (rw hit at (first_pos-has_key 0 k l), no_key)),
    )
  ]
    where
      nil : (r : List ℕ) → ((i : ℕ) → count i r ≡ 0) → r ≡ []
      nil [] h = refl
      nil (i ∷ r) h = absurd (ground (arith, h i))

      clash : (p : ℕ) → 0 ≡ count p (positions 0 k l) → 0 < count p (positions 0 k l) → ⊥
      clash p a b = omega arith

module _ {ℓ} {K V : Type ℓ} ⦃eK : Eq K⦄ ⦃eV : Eq V⦄ where
  scan_key_hit : (v : V) (k : K) (l : List (K × V)) → scan_key v l ≡ some k → holds k v l ≡ true
  unfolding scan_key holds
  scan_key_hit v k [] h = cc
  scan_key_hit v k ((j, w) ∷ l) h = ground (arith, scan_key_hit v k l, eK.beq_iff j k)

  scan_key_miss : (v : V) (k : K) (l : List (K × V)) → scan_key v l ≡ none → holds k v l ≡ false
  unfolding scan_key holds
  scan_key_miss v k [] h = refl
  scan_key_miss v k ((j, w) ∷ l) h = ground (arith, scan_key_miss v k l)

  -- `getKey` returns a key under which the cache holds the value.
  pub holds-get_key :
      (c : Cache K V) (v : V) (k : K) → get_key c v ≡ some k → holds k v c.items ≡ true
  unfolding get_key
  holds-get_key c v k = scan_key_hit v k c.items

  -- `containsValue` answers yes exactly if the cache holds the value under some key.
  pub contains_value-holds :
      (c : Cache K V) (v : V) → (contains_value c v ≡ true) ↔ ((k : K) × (holds k v c.items ≡ true))
  unfolding contains_value get_key
  contains_value-holds c v = elim (Option-cases (scan_key v c.items)) [
    | inl miss ↦ (
      λ h. absurd (cc (rw (miss, contains_value) at h)),
      λ (k, held). absurd (cc (scan_key_miss v k c.items miss, held)),
    )
    | inr (k, hit) ↦ (λ _. (k, scan_key_hit v k c.items hit), λ _. rw (hit, contains_value))
  ]

module _ {ℓ} {K V : Type ℓ} ⦃eK : Eq K⦄ ⦃eV : Eq V⦄ (range : K → List (K × V) → List ℕ)
    (law : IsRange range) where
  -- `valueSet` reads past the end of its range exactly if the cache has no entry of the key.
  pub value_set-contains_key :
      (c : Cache K V) (k : K) → (value_set range c k ≡ none) ↔ (contains_key c k ≡ false)
  unfolding value_set contains_key
  value_set-contains_key c k =
      let (to, from) = empty_range k c.items (range k c.items) (law.same k c.items) in
      (λ h. to (ground arith), λ h. rw (from h, value_set))

  -- Where `valueSet` returns a set, that holds the values of the key's entries and no others.
  pub value_set-holds :
      (c : Cache K V) (k : K) (w : V) (s : List V)
      → value_set range c k ≡ some s
      → set_has w s ≡ holds k w c.items
  unfolding value_set set_has
  value_set-holds c k w s h = ground (
    arith,
    set_has-set_of w [] (values_at c.items (range k c.items)),
    range_values range law k w c.items,
  )

module _ {ℓ} {K V : Type ℓ} ⦃eK : Eq K⦄ ⦃eV : Eq V⦄ where
  has_entry-append :
      (k : K) (v : V) (s l : List (K × V))
      → has_entry k v (s ++ l) ≡ (has_entry k v s || has_entry k v l)
  unfolding has_entry
  has_entry-append k v [] l = refl
  has_entry-append k v ((j, w) ∷ s) l = ground (arith, has_entry-append k v s l)

  has_entry-insert_entries :
      (k : K) (v : V) (s l : List (K × V))
      → has_entry k v (insert_entries s l) ≡ (has_entry k v s || has_entry k v l)
  unfolding has_entry insert_entries
  has_entry-insert_entries k v s [] = ground arith
  has_entry-insert_entries k v s ((j, w) ∷ l) = elim (Bool-cases (has_entry j w s)) [
    | inl there ↦ ground (arith, has_entry-insert_entries k v s l, eK.beq_iff j k, eV.beq_iff w v)
    | inr new ↦ ground (
      arith,
      has_entry-insert_entries k v (s ++ ((j, w) ∷ [])) l,
      has_entry-append k v s ((j, w) ∷ []),
    )
  ]

  has_entry-holds : (k : K) (v : V) (l : List (K × V)) → has_entry k v l ≡ holds k v l
  unfolding has_entry holds
  has_entry-holds k v [] = refl
  has_entry-holds k v ((j, w) ∷ l) = ground (arith, has_entry-holds k v l)

  -- `entrySet` has exactly the entries that the cache holds.
  pub entry_set-holds :
      (c : Cache K V) (k : K) (v : V) → has_entry k v (entry_set c) ≡ holds k v c.items
  unfolding entry_set has_entry
  entry_set-holds c k v =
      ground (arith, has_entry-insert_entries k v [] c.items, has_entry-holds k v c.items)
