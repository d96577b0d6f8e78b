-- ===== src/Cache/Lru/Bounds.antt =====
-- The invariant of `LRUCache`: no entry twice, and never more entries than a capacity other than 0.
pub mod Part
use ezbake_common_cpp.Common.{
  ℕ, ◌+◌, ◌≤◌, ◌≡◌, ◌⊎◌, inl, inr, refl, false, some, List, [], ◌∷◌, Eq, arith, Option-cases,
  length, length-append,
}
use ezbake_common_cpp.Cache.Lru.Min.{IsRange}
use ezbake_common_cpp.Cache.Lru.Spec.{
  find_first, without_first, after_get, after_pop, get-after_get, pop-after_pop,
}
use ezbake_common_cpp.Cache.Lru.Writes.{
  holds, erase_entry, IsDistinct, put-make_room, remove_value-erase_entry,
}
use ezbake_common_cpp.Cache.Lru.{
  Cache, init, clear, make_room, erase_key, get, pop, put, remove, remove_value,
}
use Part.{
  PartOf, PartOf-holds, PartOf-IsDistinct, PartOf-length, without_first-PartOf, erase_entry-PartOf,
  erase_key-PartOf, make_room-PartOf, IsDistinct-concat,
}

module _ {ℓ} {K V : Type ℓ} ⦃eK : Eq K⦄ ⦃eV : Eq V⦄ where
  pub record IsValid (c : Cache K V) : Type 0 where
    pub distinct : IsDistinct c.items
    pub bounded : (c.capacity ≡ 0) ⊎ (length c.items ≤ c.capacity)

  PartOf-IsValid :
      (c : Cache K V) (l : List (K × V))
      → PartOf l c.items
      → IsValid c
      → IsValid (record c { items = l })
  PartOf-IsValid c l p h = record {
    distinct = PartOf-IsDistinct p h.distinct;
    bounded = ground (arith, PartOf-length p);
  }

  pub holds-without_first :
      (k : K) (v : V) (l : List (K × V))
      → IsDistinct l
      → find_first k l ≡ some v
      → holds k v (without_first k l) ≡ false
  unfolding holds find_first without_first
  holds-without_first k v [] u h = cc
  holds-without_first k v ((j, w) ∷ l) u h =
      ground (arith, holds-without_first k v l, eK.beq_iff j k)

  length-without_first :
      (k : K) (v : V) (l : List (K × V))
      → find_first k l ≡ some v
      → length (without_first k l) + 1 ≡ length l
  unfolding find_first without_first
  length-without_first k v [] h = cc
  length-without_first k v ((j, w) ∷ l) h = ground (arith, length-without_first k v l)

  pub holds-erase_entry :
      (k : K) (v : V) (l : List (K × V)) → IsDistinct l → holds k v (erase_entry k v l) ≡ false
  unfolding holds erase_entry
  holds-erase_entry k v [] u = refl
  holds-erase_entry k v ((j, w) ∷ l) u =
      ground (arith, holds-erase_entry k v l, eK.beq_iff j k, eV.beq_iff w v)

  after_get-IsValid : (c : Cache K V) (k : K) → IsValid c → IsValid (after_get c k)
  unfolding after_get
  after_get-IsValid c k h = elim (Option-cases (find_first k c.items)) [
    | inl miss ↦ rw (miss, after_get) h
    | inr (v, hit) ↦
        rw (hit, after_get)
          (record {
            distinct =
                IsDistinct-concat k v (without_first k c.items)
                  (PartOf-IsDistinct (without_first-PartOf k c.items) h.distinct)
                  (holds-without_first k v c.items h.distinct hit);
            bounded = ground (
              arith,
              length-without_first k v c.items hit,
              length-append (without_first k c.items) ((k, v) ∷ []),
            );
          })
  ]

  after_pop-IsValid : (c : Cache K V) (k : K) → IsValid c → IsValid (after_pop c k)
  unfolding after_pop
  after_pop-IsValid c k h = elim (Option-cases (find_first k c.items)) [
    | inl miss ↦ rw (miss, after_pop) h
    | inr (v, hit) ↦
        rw (hit, after_pop)
          (PartOf-IsValid c (without_first k c.items) (without_first-PartOf k c.items) h)
  ]

  length-make_room :
      (capacity : ℕ) (l : List (K × V))
      → (capacity ≡ 0) ⊎ (length l ≤ capacity)
      → (capacity ≡ 0) ⊎ (length (make_room capacity l) + 1 ≤ capacity)
  unfolding make_room
  length-make_room capacity [] h = ground arith
  length-make_room capacity (x ∷ l) h = ground arith

-- A call of a method that may change the cache.
pub data Call {ℓ} (K V : Type ℓ) : Type ℓ where
  get_call pop_call remove_call : K → Call K V
  put_call remove_value_call : K → V → Call K V
  clear_call : Call K V

module _ {ℓ} {K V : Type ℓ} ⦃eK : Eq K⦄ ⦃eV : Eq V⦄ (range : K → List (K × V) → List ℕ) where
  unfoldable pub call : Cache K V → Call K V → Cache K V
  call c (get_call k) = (get range c k).0
  call c (pop_call k) = (pop range c k).0
  call c (remove_call k) = (remove range c k).0
  call c (put_call k v) = put range c k v
  call c (remove_value_call k v) = (remove_value range c k v).0
  call c clear_call = clear c

  unfoldable pub run : Cache K V → List (Call K V) → Cache K V
  unfolding call
  run c [] = c
  run c (m ∷ ms) = run (call c m) ms

module _ {ℓ} {K V : Type ℓ} ⦃eK : Eq K⦄ ⦃eV : Eq V⦄ (range : K → List (K × V) → List ℕ)
    (law : IsRange range) where
  put-IsValid : (c : Cache K V) (k : K) (v : V) → IsValid c → IsValid (put range c k v)
  put-IsValid c k v h =
      let l = erase_entry k v c.items in
      let room = make_room c.capacity l in
      let part = erase_entry-PartOf k v c.items in
      let kept = make_room-PartOf c.capacity l in
      rw (put-make_room range law c k v h.distinct) (record {
        distinct =
            IsDistinct-concat k v room (PartOf-IsDistinct kept (PartOf-IsDistinct part h.distinct))
              (PartOf-holds k v kept (holds-erase_entry k v c.items h.distinct));
        bounded = ground (
          arith,
          h.bounded,
          PartOf-length part,
          length-make_room c.capacity l,
          length-append room ((k, v) ∷ []),
        );
      })

  -- Every method keeps the invariant, whatever the order of the hash table's ranges.
  pub call-IsValid : (c : Cache K V) (m : Call K V) → IsValid c → IsValid (call range c m)
  unfolding call remove clear
  call-IsValid c (get_call k) h = rw (get-after_get range law c k, call) (after_get-IsValid c k h)
  call-IsValid c (pop_call k) h = rw (pop-after_pop range law c k, call) (after_pop-IsValid c k h)
  call-IsValid c (remove_call k) h =
      PartOf-IsValid c (erase_key k c.items) (erase_key-PartOf k c.items) h
  call-IsValid c (put_call k v) h = put-IsValid c k v h
  call-IsValid c (remove_value_call k v) h =
      rw (remove_value-erase_entry range law c k v h.distinct, call)
        (PartOf-IsValid c (erase_entry k v c.items) (erase_entry-PartOf k v c.items) h)
  call-IsValid c clear_call h = record { distinct = tt; bounded = ground arith }

  run-IsValid : (c : Cache K V) (ms : List (Call K V)) → IsValid c → IsValid (run range c ms)
  unfolding run
  run-IsValid c [] h = h
  run-IsValid c (m ∷ ms) h = run-IsValid (call range c m) ms (call-IsValid c m h)

  -- After any sequence of calls on a new cache no entry is there twice, and unless the capacity
  -- is 0 there are no more entries than the capacity.
  pub run-init-IsValid :
      (capacity : ℕ) (ms : List (Call K V)) → IsValid (run range (init capacity) ms)
  unfolding init
  run-init-IsValid capacity ms =
      run-IsValid (init capacity) ms (record { distinct = tt; bounded = ground arith })
