-- ===== src/Config/Convert.antt =====
-- `StringConversionUtil` of configuration/src/main/cpp/util/StringConversionUtil.cpp, and its twin
-- in common/src/main/include/ezbake/common/utils/StringConversionUtil.h. Boost's `lexical_cast` is
-- the parameter `lexical_cast`; `none` is its `bad_lexical_cast`.
use ezbake_common_cpp.Common.Result.{Result, ok, throw, bad_lexical_cast}
use ezbake_common_cpp.Common.{
  ℕ, ◌+◌, ◌≡◌, refl, ap, Bool, ◌&&◌, ◌||◌, Option, none, some, [], ◌∷◌, map, leb, if◌then◌else◌,
  Text, codes, text_eq, arith,
}

-- `::tolower` in the C locale.
unfoldable pub to_lower : ℕ → ℕ
to_lower c = if leb b'A' c && leb c b'Z' then c + 32 else c

unfoldable pub is_true : Text → Bool
unfolding text_eq
is_true transform =
    text_eq transform (codes "true")
    || text_eq transform (codes "1")
    || text_eq transform (codes "t")
    || text_eq transform (codes "y")
    || text_eq transform (codes "yes")

unfoldable pub convert_to_boolean : Option Text → Bool → Bool
unfolding is_true to_lower
convert_to_boolean none default_value = default_value
convert_to_boolean (some s) default_value = is_true (map to_lower s)

-- `convertToDouble`, `convertToFloat`, `convertToInt` and `convertToLong` are this one function at
-- four types.
unfoldable pub convert_to {ℓ} : {A : Type ℓ} → (Text → Option A) → Option Text → A → Result A
convert_to lexical_cast none default_value = ok default_value
convert_to lexical_cast (some s) default_value = elim (lexical_cast s) [
  | none ↦ throw bad_lexical_cast
  | some a ↦ ok a
]

to_lower_idem : (c : ℕ) → to_lower (to_lower c) ≡ to_lower c
unfolding to_lower
to_lower_idem c = ground arith

map-to_lower_idem : (s : Text) → map to_lower (map to_lower s) ≡ map to_lower s
map-to_lower_idem [] = refl
map-to_lower_idem (c ∷ s) = ground (arith, to_lower_idem c, map-to_lower_idem s)

-- The case of the letters does not matter: a text and its lower-case form convert alike.
pub convert_to_boolean-to_lower :
    (s : Text) (default_value : Bool)
    → convert_to_boolean (some (map to_lower s)) default_value
      ≡ convert_to_boolean (some s) default_value
unfolding convert_to_boolean
convert_to_boolean-to_lower s default_value = ap is_true (map-to_lower_idem s)
