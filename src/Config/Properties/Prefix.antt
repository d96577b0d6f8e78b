-- ===== src/Config/Properties/Prefix.antt =====
-- `getPropertiesByPrefix` selects the properties whose names have the prefix, closed by a dot.
use ezbake_common_cpp.Common.Dict
use ezbake_common_cpp.Common.Dict.{lookup, lookup-assign}
use ezbake_common_cpp.Common.Result.{ok}
use ezbake_common_cpp.Common.{
  ◌≡◌, ◌≢◌, inl, inr, refl, Bool, true, false, ◌&&◌, ◌||◌, none, some, List, [], ◌∷◌, if◌then◌else◌,
  Text, text_eq, text_eq_iff, arith, Option-cases, Bool-cases, All,
}
use ezbake_common_cpp.Config.Parser.{Properties}
use ezbake_common_cpp.Config.Properties.{
  System, string_property_names, with_dot, collect, get_properties_by_prefix,
}

has_name : Text → List Text → Bool
has_name j [] = false
has_name j (name ∷ names) = text_eq name j || has_name j names

abbrev IsDefined : Properties → Text → Type 0
IsDefined from name = (v : Text) × (lookup name from ≡ some v)

module _ (system : System) (from : Properties) (prefix : Text) where
  abbrev Selects : List Text → Properties → Properties → Type 0
  Selects names props m =
      (j : Text)
      → lookup j m ≡ (
          if system.starts_with j prefix && has_name j names then lookup j from else lookup j props)

  collect-Selects :
      (names : List Text) (props : Properties)
      → All (IsDefined from) names
      → (m : Properties) × (collect system from prefix names props ≡ ok m) × Selects names props m
  unfolding collect has_name
  collect-Selects [] props h = (props, refl, λ j. ground arith)
  collect-Selects (name ∷ names) props ((v, e), h) =
      elim (Bool-cases (system.starts_with name prefix)) [
        | inl fits ↦
            let (m, done, selects) = collect-Selects names (Dict.assign name v props) h in
            (
              m,
              rw (fits, e, collect) done,
              λ j. ground (arith, selects j, lookup-assign name j v props, text_eq_iff name j),
            )
        | inr skips ↦
            let (m, done, selects) = collect-Selects names props h in
            (m, rw (skips, collect) done, λ j. ground (arith, selects j, text_eq_iff name j))
      ]

names-IsDefined_in :
    (from l : Properties)
    → ((j : Text) → has_name j (string_property_names l) ≡ true → IsDefined from j)
    → All (IsDefined from) (string_property_names l)
unfolding string_property_names has_name
names-IsDefined_in from [] h = tt
names-IsDefined_in from ((k, v) ∷ l) h = (
  h k (ground (arith, text_eq_iff k k)),
  names-IsDefined_in from l (λ j there. h j (ground arith)),
)

has_name-lookup :
    (l : Properties) (j : Text)
    → has_name j (string_property_names l) ≡ (elim (lookup j l) [ none ↦ false | some _ ↦ true ])
unfolding string_property_names has_name lookup
has_name-lookup [] j = refl
has_name-lookup ((k, v) ∷ l) j = ground (arith, has_name-lookup l j)

names-IsDefined : (from : Properties) → All (IsDefined from) (string_property_names from)
names-IsDefined from = names-IsDefined_in from from (λ j there.
    elim (Option-cases (lookup j from)) [
      | inl miss ↦ absurd (cc (rw miss at (has_name-lookup from j), there))
      | inr found ↦ found
    ])

with_dot-ne-nil : (s : Text) → s ≢ [] → with_dot s ≢ []
unfolding with_dot
with_dot-ne-nil [] h = h
with_dot-ne-nil (c ∷ []) h = ground arith
with_dot-ne-nil (c ∷ d ∷ s) h = ground arith

-- For a prefix that is not blank, `getPropertiesByPrefix` throws nothing and returns exactly the
-- properties whose names start with the trimmed prefix, closed by a dot.
pub get_properties_by_prefix_lem :
    (system : System) (from : Properties) (prefix : Text)
    → system.trim prefix ≢ []
    → (m : Properties) × (get_properties_by_prefix system from prefix ≡ ok m)
      × ((j : Text)
          → lookup j m ≡ (
              if system.starts_with j (with_dot (system.trim prefix)) then lookup j from else none))
unfolding get_properties_by_prefix lookup
get_properties_by_prefix_lem system from prefix h = go (with_dot (system.trim prefix)) refl
  where
    go :
        (s : Text)
        → with_dot (system.trim prefix) ≡ s
        → (m : Properties) × (get_properties_by_prefix system from prefix ≡ ok m)
          × ((j : Text)
              → lookup j m ≡ (
                  if system.starts_with j (with_dot (system.trim prefix))
                  then lookup j from
                  else none))
    go [] e = absurd (with_dot-ne-nil (system.trim prefix) h e)
    go (c ∷ s) e =
        let (m, done, selects) =
          collect-Selects system from (c ∷ s) (string_property_names from) []
            (names-IsDefined from) in
        (
          m,
          rw (e, get_properties_by_prefix) done,
          λ j. rw e (ground (arith, selects j, has_name-lookup from j)),
        )
