-- ===== src/Common/Sort.antt =====
-- `operator<` and `std::sort` on strings; sorting forgets the order.
use mathlib.Core.Path.{◌≡◌, refl, ◌∙◌}
use mathlib.Core.Bool.{Bool, true, false, ◌&&◌, ◌||◌}
use mathlib.Core.List.{List, [], ◌∷◌, Perm, Permᴰ, is_set}
use mathlib.Core.Logic.{∥∥₁_elim}
use native.Mathlib.Nat.{ℕ_set}
use native.Mathlib.Omega.{arith}
use ezbake_common_cpp.Common.Tests.{ltb, ◌==◌, if◌then◌else◌}
use ezbake_common_cpp.Common.Bytes.{Text, text_eq, text_eq_iff}

unfoldable pub text_lt : Text → Text → Bool
text_lt s [] = false
text_lt [] (d ∷ t) = true
text_lt (c ∷ s) (d ∷ t) = ltb c d || (c == d && text_lt s t)

unfoldable pub insert_sorted : Text → List Text → List Text
unfolding text_lt
insert_sorted x [] = x ∷ []
insert_sorted x (y ∷ l) =
    let rest = insert_sorted x l in if text_lt y x then y ∷ rest else x ∷ y ∷ l

unfoldable pub sort : List Text → List Text
unfolding insert_sorted
sort [] = []
sort (x ∷ l) = insert_sorted x (sort l)

text_lt_asym : (s t : Text) → text_lt s t ≡ true → text_lt t s ≡ false
unfolding text_lt
text_lt_asym s [] h = cc
text_lt_asym [] (d ∷ t) h = refl
text_lt_asym (c ∷ s) (d ∷ t) h = ground (arith, text_lt_asym s t)

text_lt_trans : (s t u : Text) → text_lt s t ≡ true → text_lt t u ≡ true → text_lt s u ≡ true
unfolding text_lt
text_lt_trans s [] u h k = cc
text_lt_trans s (d ∷ t) [] h k = cc
text_lt_trans [] (d ∷ t) (e ∷ u) h k = refl
text_lt_trans (c ∷ s) (d ∷ t) (e ∷ u) h k = ground (arith, text_lt_trans s t u)

text_lt_connex : (s t : Text) → text_lt s t ≡ false → text_lt t s ≡ false → text_eq s t ≡ true
unfolding text_lt text_eq
text_lt_connex [] [] h k = refl
text_lt_connex [] (d ∷ t) h k = cc
text_lt_connex (c ∷ s) [] h k = cc
text_lt_connex (c ∷ s) (d ∷ t) h k = ground (arith, text_lt_connex s t)

insert_sorted_comm :
    (x y : Text) (l : List Text)
    → insert_sorted x (insert_sorted y l) ≡ insert_sorted y (insert_sorted x l)
unfolding insert_sorted
insert_sorted_comm x y [] = ground (arith, text_lt_asym x y, text_lt_connex x y, text_eq_iff x y)
insert_sorted_comm x y (z ∷ l) = ground (
  arith,
  insert_sorted_comm x y l,
  text_lt_asym x y,
  text_lt_connex x y,
  text_eq_iff x y,
  text_lt_trans z x y,
  text_lt_trans z y x,
  text_lt_asym z x,
  text_lt_asym z y,
)

sort-Permᴰ : {l m : List Text} → Permᴰ l m → sort l ≡ sort m
unfolding sort
sort-Permᴰ Permᴰ.nil = refl
sort-Permᴰ (Permᴰ.cons e d) = rw (e, sort-Permᴰ d)
sort-Permᴰ (Permᴰ.swap {a} {b} {a'} {b'} {l} e k) = rw (e, k) (insert_sorted_comm b' a' (sort l))
sort-Permᴰ (Permᴰ.trans d e) = sort-Permᴰ d ∙ sort-Permᴰ e

-- What is sorted does not depend on the order.
pub sort-Perm : (l m : List Text) → Perm l m → sort l ≡ sort m
sort-Perm l m h = ∥∥₁_elim h (is_set (is_set ℕ_set) (sort l) (sort m)) (λ d. sort-Permᴰ d)
