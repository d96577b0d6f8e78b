-- ===== src/Security/Visibility/Markings.antt =====
-- `get_markings_from_expression` and `vis_auth_to_parsable` of ezbake_visibility.cpp.
pub mod Documented
pub mod Replace
pub mod Extract
use ezbake_common_cpp.Common.{
  ℕ, zero, suc, Bool, false, ◌||◌, Option, List, [], ◌∷◌, ◌++◌, ◌==◌, if◌then◌else◌, Text, codes,
  text_eq, length,
}
use ezbake_common_cpp.Security.Visibility.Grammar.{is_space}

abbrev pub true_replace : Text
true_replace = codes "ezbTezb"

abbrev pub false_replace : Text
false_replace = codes "ezbFezb"

unfoldable pub without_spaces : Text → Text
without_spaces [] = []
without_spaces (c ∷ s) = let rest = without_spaces s in if is_space c then rest else c ∷ rest

abbrev pub drop : ℕ → Text → Text
drop zero s = s
drop (suc n) [] = []
drop (suc n) (c ∷ s) = drop n s

-- `std::remove_if` with nothing erased after it: what is kept moves to the front, and the end of the
-- string stays as it was.
unfoldable pub remove_if_space : Text → Text
unfolding without_spaces
remove_if_space s = without_spaces s ++ drop (length (without_spaces s)) s

-- `is_any_of(";|&!^()")`
abbrev pub is_separator : ℕ → Bool
is_separator c =
    c == b';'
    || (c == b'|' || (c == b'&' || (c == b'!' || (c == b'^' || (c == b'(' || c == b')')))))

-- What the code calls of Boost: `lexical_cast` to `bool`, and two of its string algorithms.
pub record Boost : Type 0 where
  pub lexical_cast : Text → Option Bool
  pub split : Text → (ℕ → Bool) → List Text
  pub replace_all : Text → Text → Text → Text

-- The loop over the pieces, which leaves the empty ones out.
unfoldable pub nonempty : List Text → List Text
nonempty [] = []
nonempty ([] ∷ pieces) = nonempty pieces
nonempty ((c ∷ piece) ∷ pieces) = (c ∷ piece) ∷ nonempty pieces

-- `auths.count(m) == 1`
unfoldable pub has_text : Text → List Text → Bool
unfolding text_eq
has_text m [] = false
has_text m (a ∷ auths) = text_eq a m || has_text m auths

-- `parsable[parsable.size() - 1] != ';'`
unfoldable pub ends_in_semicolon : Text → Bool
ends_in_semicolon [] = false
ends_in_semicolon (c ∷ []) = c == b';'
ends_in_semicolon (c ∷ d ∷ s) = ends_in_semicolon (d ∷ s)

unfoldable pub with_semicolon : Text → Text
unfolding ends_in_semicolon
with_semicolon s = if ends_in_semicolon s then s else s ++ (b';' ∷ [])

module _ (boost : Boost) where
  -- The loop over the markings.
  unfoldable pub replace_markings : List Text → List Text → Text → Text
  unfolding has_text
  replace_markings auths [] parsable = parsable
  replace_markings auths (m ∷ markings) parsable =
      replace_markings auths markings
        (boost.replace_all parsable m (if has_text m auths then true_replace else false_replace))

  module _ (order : List Text → List Text) where
    unfoldable pub get_markings_from_expression : Text → List Text
    unfolding nonempty remove_if_space
    get_markings_from_expression expression =
        order (nonempty (boost.split (remove_if_space expression) is_separator))

    unfoldable pub vis_auth_to_parsable : List Text → Text → Text
    unfolding get_markings_from_expression replace_markings with_semicolon
    vis_auth_to_parsable auths vis_expr =
        with_semicolon (replace_markings auths (get_markings_from_expression vis_expr) vis_expr)
