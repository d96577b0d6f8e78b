-- ===== src/Cache/Lru/Bounds/Part.antt =====
-- Lists of entries with some left out: what every erasure of the cache leaves.
use ezbake_common_cpp.Common.{
  ℕ, ◌≤◌, ◌≡◌, refl, Bool, true, false, ◌&&◌, ◌||◌, List, [], ◌∷◌, ◌++◌, if◌then◌else◌, Eq, arith,
  Bool-cases, inl, inr, length,
}
use ezbake_common_cpp.Cache.Lru.Spec.{without_first}
use ezbake_common_cpp.Cache.Lru.Writes.{holds, erase_entry, IsDistinct}
use ezbake_common_cpp.Cache.Lru.{drop_front, make_room, erase_key}

pub data PartOf {ℓ} {A : Type ℓ} : List A → List A → Type ℓ where
  done : PartOf [] []
  keep : {x : A} {l m : List A} → PartOf l m → PartOf (x ∷ l) (x ∷ m)
  skip : {x : A} {l m : List A} → PartOf l m → PartOf l (x ∷ m)

module _ {ℓ} {A : Type ℓ} where
  pub PartOf-refl : (l : List A) → PartOf l l
  PartOf-refl [] = done
  PartOf-refl (x ∷ l) = keep (PartOf-refl l)

  pub PartOf-length : {l m : List A} → PartOf l m → length l ≤ length m
  PartOf-length done = omega arith
  PartOf-length (keep p) = omega (arith, PartOf-length p)
  PartOf-length (skip p) = omega (arith, PartOf-length p)

module _ {ℓ} {K V : Type ℓ} where
  drop_front-PartOf : (full : Bool) (l : List (K × V)) → PartOf (if full then drop_front l else l) l
  unfolding drop_front
  drop_front-PartOf false l = PartOf-refl l
  drop_front-PartOf true [] = done
  drop_front-PartOf true (x ∷ l) = skip (PartOf-refl l)

  pub make_room-PartOf : (capacity : ℕ) (l : List (K × V)) → PartOf (make_room capacity l) l
  unfolding make_room
  make_room-PartOf capacity l = drop_front-PartOf _ l

module _ {ℓ} {K V : Type ℓ} ⦃eK : Eq K⦄ where
  pub without_first-PartOf : (k : K) (l : List (K × V)) → PartOf (without_first k l) l
  unfolding without_first
  without_first-PartOf k [] = done
  without_first-PartOf k ((j, v) ∷ l) = elim (Bool-cases (eK.beq j k)) [
    | inl same ↦ rw same (skip (PartOf-refl l))
    | inr other ↦ rw other (keep (without_first-PartOf k l))
  ]

  pub erase_key-PartOf : (k : K) (l : List (K × V)) → PartOf (erase_key k l) l
  unfolding erase_key
  erase_key-PartOf k [] = done
  erase_key-PartOf k ((j, v) ∷ l) = elim (Bool-cases (eK.beq j k)) [
    | inl same ↦ rw same (skip (erase_key-PartOf k l))
    | inr other ↦ rw other (keep (erase_key-PartOf k l))
  ]

module _ {ℓ} {K V : Type ℓ} ⦃eK : Eq K⦄ ⦃eV : Eq V⦄ where
  pub erase_entry-PartOf : (k : K) (v : V) (l : List (K × V)) → PartOf (erase_entry k v l) l
  unfolding erase_entry
  erase_entry-PartOf k v [] = done
  erase_entry-PartOf k v ((j, w) ∷ l) = elim (Bool-cases (eK.beq j k && eV.beq w v)) [
    | inl same ↦ rw same (skip (PartOf-refl l))
    | inr other ↦ rw other (keep (erase_entry-PartOf k v l))
  ]

  -- What is not held is not held in a part.
  pub PartOf-holds :
      (k : K) (v : V) {l m : List (K × V)} → PartOf l m → holds k v m ≡ false → holds k v l ≡ false
  unfolding holds
  PartOf-holds k v done h = refl
  PartOf-holds k v (keep p) h = ground (arith, PartOf-holds k v p)
  PartOf-holds k v (skip p) h = ground (arith, PartOf-holds k v p)

  pub PartOf-IsDistinct : {l m : List (K × V)} → PartOf l m → IsDistinct m → IsDistinct l
  PartOf-IsDistinct done u = tt
  PartOf-IsDistinct (keep {x = (j, w)} p) u = (PartOf-holds j w p u.0, PartOf-IsDistinct p u.1)
  PartOf-IsDistinct (skip p) u = PartOf-IsDistinct p u.1

  pub holds-append :
      (k : K) (v : V) (l m : List (K × V)) → holds k v (l ++ m) ≡ (holds k v l || holds k v m)
  unfolding holds
  holds-append k v [] m = refl
  holds-append k v ((j, w) ∷ l) m = ground (arith, holds-append k v l m)

  pub IsDistinct-concat :
      (k : K) (v : V) (l : List (K × V))
      → IsDistinct l
      → holds k v l ≡ false
      → IsDistinct (l ++ ((k, v) ∷ []))
  unfolding holds
  IsDistinct-concat k v [] u h = ground arith
  IsDistinct-concat k v ((j, w) ∷ l) u h = ground (
    arith,
    IsDistinct-concat k v l,
    holds-append j w l ((k, v) ∷ []),
    eK.beq_iff j k,
    eV.beq_iff w v,
    eK.beq_iff k j,
    eV.beq_iff v w,
  )
