-- ===== src/Config/Properties/Merge.antt =====
-- What is defined after `mergeProperties` and after the loads: what was there is never replaced,
-- with `shouldOverride` or without.
use ezbake_common_cpp.Common.Dict
use ezbake_common_cpp.Common.Dict.{lookup, lookup-insert, first_some}
use ezbake_common_cpp.Common.Result.{Result, ok, throw, hang, crash, runtime_error}
use ezbake_common_cpp.Common.{
  ◌≡◌, ◌⊎◌, inl, inr, refl, Bool, true, false, none, some, List, [], ◌∷◌, ◌++◌, if◌then◌else◌, Text,
  codes, text_eq, text_eq_iff, arith, Option-cases, Bool-cases, is_blank,
}
use ezbake_common_cpp.Config.Parser.{Properties}
use ezbake_common_cpp.Config.Properties.{
  System, Outcome, property_file_extension, collision, insert_all, merge_properties,
  read_properties, merge_read, and_then, load_properties_from_file, load_files,
  load_properties_from_directory,
}

lookup-insert_all :
    (j : Text) (l m : Properties) → lookup j (insert_all l m) ≡ first_some (lookup j m) (lookup j l)
unfolding insert_all lookup
lookup-insert_all j [] m = ground arith
lookup-insert_all j ((k, v) ∷ l) m =
    ground (arith, lookup-insert_all j l (Dict.insert k v m), lookup-insert k j v m)

-- A merge that should override succeeds, and the property that was there before wins.
pub merge_properties-lookup :
    (m l : Properties) (j : Text)
    → ((merge_properties m l true).1 ≡ ok tt)
      × (lookup j (merge_properties m l true).0 ≡ first_some (lookup j m) (lookup j l))
unfolding merge_properties
merge_properties-lookup m l j = (refl, lookup-insert_all j l m)

-- A key that both containers define.
pub record IsCollision (m l : Properties) (j : Text) : Type 0 where
  pub old : Text
  pub new : Text
  pub in_old : lookup j m ≡ some old
  pub in_new : lookup j l ≡ some new

collision_hit : (m l : Properties) (j : Text) → collision m l ≡ some j → IsCollision m l j
unfolding collision lookup
collision_hit m [] j h = cc
collision_hit m ((k, v) ∷ l) j h = elim (Option-cases (lookup k m)) [
  | inl free ↦
      let c = collision_hit m l j (ground arith) in
      elim (Bool-cases (text_eq k j)) [
        | inl same ↦ record { old = c.old; new = v; in_old = c.in_old; in_new = rw same }
        | inr other ↦ record {
          old = c.old;
          new = c.new;
          in_old = c.in_old;
          in_new = rw other c.in_new;
        }
      ]
  | inr (w, taken) ↦
      let e : k ≡ j = ground arith in
      record { old = w; new = v; in_old = rw e at taken; in_new = ground (arith, text_eq_iff k j) }
]

collision_miss :
    (m l : Properties) (j : Text) → collision m l ≡ none → (lookup j m ≡ none) ⊎ (lookup j l ≡ none)
unfolding collision lookup
collision_miss m [] j h = inr refl
collision_miss m ((k, v) ∷ l) j h = ground (arith, collision_miss m l j, text_eq_iff k j)

-- A merge that should not override fails exactly if some key is in both containers, and then
-- changes nothing; else every property of both is there after it.
pub merge_properties_checked :
    (m l : Properties)
    → ((j : Text) × IsCollision m l j
        × (merge_properties m l false
            ≡ (m, throw (runtime_error (j ++ codes " has already been defined")))))
      ⊎ ((j : Text)
          → ((lookup j m ≡ none) ⊎ (lookup j l ≡ none))
            × ((merge_properties m l false).1 ≡ ok tt)
            × (lookup j (merge_properties m l false).0 ≡ first_some (lookup j m) (lookup j l)))
unfolding merge_properties
merge_properties_checked m l = elim (Option-cases (collision m l)) [
  | inl miss ↦ inr (λ j. (
    collision_miss m l j miss,
    rw (miss, merge_properties),
    rw (miss, merge_properties) (lookup-insert_all j l m),
  ))
  | inr (j, hit) ↦ inl (j, collision_hit m l j hit, rw (hit, merge_properties))
]

module _ (j v : Text) where
  insert_all_keeps : (l m : Properties) → lookup j m ≡ some v → lookup j (insert_all l m) ≡ some v
  insert_all_keeps l m h = ground (arith, lookup-insert_all j l m)

  merge_properties_keeps :
      (m l : Properties) (should_override : Bool)
      → lookup j m ≡ some v
      → lookup j (merge_properties m l should_override).0 ≡ some v
  unfolding merge_properties
  merge_properties_keeps m l should_override h = ground (arith, insert_all_keeps l m h)

  merge_read_keeps :
      (r : Result Properties) (m : Properties) (should_override : Bool)
      → lookup j m ≡ some v
      → lookup j (merge_read r m should_override).0 ≡ some v
  unfolding merge_read
  merge_read_keeps (ok props) m should_override h = merge_properties_keeps m props should_override h
  merge_read_keeps _ m should_override h = h

  pub and_then_keeps :
      (o : Outcome) (f : Properties → Outcome)
      → lookup j o.0 ≡ some v
      → ((m : Properties) → lookup j m ≡ some v → lookup j (f m).0 ≡ some v)
      → lookup j (and_then o f).0 ≡ some v
  unfolding and_then
  and_then_keeps (m, ok _) f h keeps = keeps m h
  and_then_keeps (m, throw e) f h keeps = h
  and_then_keeps (m, hang) f h keeps = h
  and_then_keeps (m, crash) f h keeps = h

  module _ (system : System) where
    load_properties_from_file_keeps :
        (filename : Text) (m : Properties) (should_override : Bool)
        → lookup j m ≡ some v
        → lookup j (load_properties_from_file system filename m should_override).0 ≡ some v
    unfolding load_properties_from_file
    load_properties_from_file_keeps filename m should_override h =
        elim (Bool-cases (is_blank filename)) [
          | inl blank ↦ rw (blank, load_properties_from_file) h
          | inr named ↦ elim (Option-cases (system.read_file filename)) [
            | inl gone ↦ rw (named, gone, load_properties_from_file) h
            | inr (contents, there) ↦
                rw (named, there, load_properties_from_file)
                  (merge_read_keeps (read_properties contents) m should_override h)
          ]
        ]

    load_files_keeps :
        (paths : List Text) (m : Properties) (should_override : Bool)
        → lookup j m ≡ some v
        → lookup j (load_files system paths m should_override).0 ≡ some v
    unfolding load_files
    load_files_keeps [] m should_override h = h
    load_files_keeps (path ∷ paths) m should_override h =
        and_then_keeps _ _ first_kept
          (λ loaded kept. load_files_keeps paths loaded should_override kept)
      where
        if_keeps :
            (b : Bool) (x y : Outcome)
            → lookup j x.0 ≡ some v
            → lookup j y.0 ≡ some v
            → lookup j (if b then x else y).0 ≡ some v
        if_keeps true x y p q = p
        if_keeps false x y p q = q

        first_kept :
            lookup j
              (if system.ends_with path property_file_extension
                then load_properties_from_file system path m should_override
                else (m, ok tt)).0
            ≡ some v
        first_kept = if_keeps _ _ _ (load_properties_from_file_keeps path m should_override h) h

    -- Loading a directory, whatever its files hold and however it ends, leaves every property
    -- that was defined before as it was, also where it should override.
    pub load_properties_from_directory_keeps :
        (directory : Text) (m : Properties) (should_override : Bool)
        → lookup j m ≡ some v
        → lookup j (load_properties_from_directory system directory m should_override).0 ≡ some v
    unfolding load_properties_from_directory
    load_properties_from_directory_keeps directory m should_override h =
        elim (Bool-cases (is_blank directory)) [
          | inl blank ↦ rw (blank, load_properties_from_directory) h
          | inr named ↦ elim (Option-cases (system.list_directory directory)) [
            | inl gone ↦ rw (named, gone, load_properties_from_directory) h
            | inr (paths, there) ↦
                rw (named, there, load_properties_from_directory)
                  (load_files_keeps paths m should_override h)
          ]
        ]
