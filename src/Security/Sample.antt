-- ===== src/Security/Sample.antt =====
-- A concrete `Boost`, for the tests, that does what Boost documents.
use ezbake_common_cpp.Common.{
  ℕ, zero, suc, ◌-◌, ◌≡◌, refl, Bool, true, false, Option, none, some, List, [], ◌∷◌, ◌++◌, ◌==◌,
  if◌then◌else◌, Text, length, arith,
}
use ezbake_common_cpp.Security.Visibility.Markings.Documented.{IsBoost, starts_with}
use ezbake_common_cpp.Security.Visibility.Markings.{Boost}

abbrev to_bool : Text → Option Bool
to_bool [] = none
to_bool (c ∷ []) = if c == b'1' then some true else if c == b'0' then some false else none
to_bool (c ∷ d ∷ s) = none

abbrev onto_first : ℕ → List Text → List Text
onto_first c [] = (c ∷ []) ∷ []
onto_first c (piece ∷ pieces) = (c ∷ piece) ∷ pieces

unfoldable split_at : Text → (ℕ → Bool) → List Text
split_at [] p = [] ∷ []
split_at (c ∷ s) p = let rest = split_at s p in if p c then [] ∷ rest else onto_first c rest

-- With `pending` bytes of an occurrence still to skip.
unfoldable replace_from : ℕ → Text → Text → Text → Text
unfolding starts_with
replace_from pending m r [] = []
replace_from (suc pending) m r (c ∷ s) = replace_from pending m r s
replace_from zero m r (c ∷ s) =
    let found = starts_with (c ∷ s) m in
    let rest = replace_from (if found then length m - 1 else 0) m r s in
    if found then r ++ rest else c ∷ rest

unfoldable pub boost : Boost
unfolding split_at replace_from
boost = record {
  lexical_cast = to_bool;
  split = split_at;
  replace_all = λ s m r. replace_from 0 m r s;
}

replace_from_pending :
    (u m r s : Text) → replace_from (length u) m r (u ++ s) ≡ replace_from 0 m r s
unfolding replace_from
replace_from_pending [] m r s = refl
replace_from_pending (c ∷ u) m r s = replace_from_pending u m r s

starts_with-append : (m s : Text) → starts_with (m ++ s) m ≡ true
unfolding starts_with
starts_with-append [] [] = refl
starts_with-append [] (c ∷ s) = refl
starts_with-append (c ∷ m) s = ground (arith, starts_with-append m s)

replace_from_found :
    (d : ℕ) (m r s : Text)
    → replace_from 0 (d ∷ m) r ((d ∷ m) ++ s) ≡ r ++ replace_from 0 (d ∷ m) r s
unfolding replace_from
replace_from_found d m r s =
    ground (arith, starts_with-append (d ∷ m) s, replace_from_pending m (d ∷ m) r s)

pub boost-IsBoost : IsBoost boost
unfolding boost split_at replace_from
boost-IsBoost = record {
  split_end = λ p. refl;
  split_cut = λ p c s h. rw h;
  split_keep = λ p c s piece pieces h k. rw (h, k);
  replace_end = λ m r. refl;
  replace_found = λ d m r s. replace_from_found d m r s;
  replace_keep = λ c s m r h. rw h;
}
