-- ===== src/Config/Helpers/Base.antt =====
-- `BaseConfiguration` of configuration/src/main/cpp/helpers/BaseConfiguration.cpp: a copy of the
-- configuration, and the prefix that the keys of the helper are looked up under.
use ezbake_common_cpp.Common.{
  ◌≡◌, inl, inr, Bool, false, Option, none, some, [], ◌∷◌, ◌++◌, if◌then◌else◌, Text, is_blank,
  text_eq_iff, arith, Bool-cases,
}
use ezbake_common_cpp.Config.EzConfiguration
use ezbake_common_cpp.Config.EzConfiguration.{set}
use ezbake_common_cpp.Config.EzConfiguration.Set.{get-set}
use ezbake_common_cpp.Config.Parser.{Properties}

pub record BaseConfiguration : Type 0 where
  pub ez_configuration : Properties
  pub namespace_prefix : Text

-- `boost::format("%s.%s") % namespacePrefix % key`
unfoldable pub parse_key : BaseConfiguration → Text → Text
unfolding is_blank
parse_key b key = if is_blank b.namespace_prefix then key else b.namespace_prefix ++ (b'.' ∷ key)

unfoldable pub get : BaseConfiguration → Text → Option Text
get b key = EzConfiguration.get b.ez_configuration (parse_key b key)

append_inj : (p k j : Text) → p ++ k ≡ p ++ j → k ≡ j
append_inj [] k j h = h
append_inj (c ∷ p) k j h = append_inj p k j (ground arith)

-- Two keys of a helper are never looked up under one name.
pub parse_key_inj : (b : BaseConfiguration) (k j : Text) → parse_key b k ≡ parse_key b j → k ≡ j
unfolding parse_key
parse_key_inj b k j h = elim (Bool-cases (is_blank b.namespace_prefix)) [
  | inl blank ↦ rw (blank, parse_key) at h
  | inr named ↦
      let whole =
        append_inj b.namespace_prefix (b'.' ∷ k) (b'.' ∷ j) (rw (named, parse_key) at h) in
      ground arith
]

-- A helper reads the value that was just set for the first time under its key with the prefix, if
-- that is not blank.
pub get-set-parse_key :
    (b : BaseConfiguration) (k v : Text) (should_override : Bool)
    → is_blank (parse_key b k) ≡ false
    → get b k ≡ none
    → get
        (record b {
          ez_configuration = (set b.ez_configuration (parse_key b k) v should_override).0;
        })
        k
      ≡ some v
unfolding get parse_key
get-set-parse_key b k v should_override h new = ground (
  arith,
  (get-set b.ez_configuration (parse_key b k) v (parse_key b k) should_override h (inr new)).1,
  text_eq_iff (parse_key b k) (parse_key b k),
)
