-- ===== src/Config/Properties.antt =====
-- `PropertiesUtil` of configuration/src/main/cpp/util/PropertiesUtil.cpp. A method that changes a
-- property container in place returns the container beside its outcome, since an exception leaves
-- what was loaded before it. The file system and Boost's string algorithms are a parameter.
pub mod Merge
pub mod Prefix
use ezbake_common_cpp.Common.Dict
use ezbake_common_cpp.Common.Result.{
  Exception, Result, ok, throw, hang, crash, ◌>>=◌, runtime_error, out_of_range, filesystem_error,
}
use ezbake_common_cpp.Common.{
  ◌*◌, Bool, true, false, not, Option, none, some, List, [], ◌∷◌, ◌++◌, map, ◌==◌, if◌then◌else◌,
  Text, codes, is_blank, length,
}
use ezbake_common_cpp.Config.Parser.{Properties, parse}

-- What the code uses of the system and of Boost.
pub record System : Type 0 where
  -- `::std::getenv`; `none` is NULL
  pub getenv : Text → Option Text
  -- the contents of a file; `none` where the stream is not good
  pub read_file : Text → Option Text
  -- the paths in a directory; `none` where the iterator throws
  pub list_directory : Text → Option (List Text)
  -- `boost::algorithm::trim`, `boost::starts_with` and `boost::algorithm::ends_with`
  pub trim : Text → Text
  pub starts_with : Text → Text → Bool
  pub ends_with : Text → Text → Bool
  -- `e.what()`
  pub what : Exception → Text

abbrev pub property_file_extension : Text
property_file_extension = codes "properties"

abbrev pub Outcome : Type 0
Outcome = Properties × Result (Unit {0})

unfoldable pub string_property_names : Properties → List Text
string_property_names = map (λ entry. entry.0)

unfoldable pub is_empty : Properties → Bool
unfolding string_property_names
is_empty props = elim (string_property_names props) [ [] ↦ true | _ ∷ _ ↦ false ]

-- The first key of `to_check` that is defined already.
unfoldable pub collision : Properties → Properties → Option Text
collision against [] = none
collision against ((k, v) ∷ to_check) = elim (Dict.lookup k against) [
  | some _ ↦ some k
  | none ↦ collision against to_check
]

unfoldable pub check_for_collisions : Properties → Properties → Result (Unit {0})
unfolding collision
check_for_collisions against to_check = elim (collision against to_check) [
  | none ↦ ok tt
  | some k ↦ throw (runtime_error (k ++ codes " has already been defined"))
]

-- `mergeWith.insert(toMerge.begin(), toMerge.end())`
unfoldable pub insert_all : Properties → Properties → Properties
insert_all [] props = props
insert_all ((k, v) ∷ l) props = insert_all l (Dict.insert k v props)

unfoldable pub merge_properties : Properties → Properties → Bool → Outcome
unfolding check_for_collisions insert_all
merge_properties merge_with to_merge should_override =
    elim (if should_override then ok tt else check_for_collisions merge_with to_merge) [
      | ok _ ↦ (insert_all to_merge merge_with, ok tt)
      | throw e ↦ (merge_with, throw e)
      | hang ↦ (merge_with, hang)
      | crash ↦ (merge_with, crash)
    ]

-- The parser on the whole contents; with three rounds to a byte it has ended, or never does.
unfoldable pub read_properties : Text → Result Properties
unfolding parse
read_properties contents = elim (parse (3 * length contents) contents []) [
  | none ↦ hang
  | some props ↦ ok props
]

-- `mergeProperties(loadInto, readPropertiesFromFileStream(stream), shouldOverride)`
unfoldable pub merge_read : Result Properties → Properties → Bool → Outcome
unfolding merge_properties
merge_read (ok props) load_into should_override = merge_properties load_into props should_override
merge_read (throw e) load_into should_override = (load_into, throw e)
merge_read hang load_into should_override = (load_into, hang)
merge_read crash load_into should_override = (load_into, crash)

-- Two statements in a row: the second runs if the first ends normally.
unfoldable pub and_then : Outcome → (Properties → Outcome) → Outcome
and_then (p, ok _) f = f p
and_then (p, throw e) f = (p, throw e)
and_then (p, hang) f = (p, hang)
and_then (p, crash) f = (p, crash)

-- The prefix made to end with a dot.
unfoldable pub with_dot : Text → Text
with_dot [] = []
with_dot (c ∷ []) = if c == b'.' then c ∷ [] else c ∷ b'.' ∷ []
with_dot (c ∷ d ∷ s) = c ∷ with_dot (d ∷ s)

module _ (system : System) where
  unfoldable pub load_properties_from_file : Text → Properties → Bool → Outcome
  unfolding is_blank merge_read read_properties
  load_properties_from_file filename load_into should_override =
      if is_blank filename
      then (load_into, throw (runtime_error (codes "filename parameter cannot be empty")))
      else elim (system.read_file filename) [
        | none ↦ (
          load_into,
          throw (runtime_error (codes "Could not load properties from file: " ++ filename)),
        )
        | some contents ↦ merge_read (read_properties contents) load_into should_override
      ]

  -- The loop of `loadPropertiesFromDirectory`: an exception ends it, and keeps what was loaded.
  unfoldable pub load_files : List Text → Properties → Bool → Outcome
  unfolding load_properties_from_file and_then
  load_files [] load_into should_override = (load_into, ok tt)
  load_files (path ∷ paths) load_into should_override =
      and_then
        (if system.ends_with path property_file_extension
          then load_properties_from_file path load_into should_override
          else (load_into, ok tt))
        (λ loaded. load_files paths loaded should_override)

  unfoldable pub load_properties_from_directory : Text → Properties → Bool → Outcome
  unfolding is_blank load_files
  load_properties_from_directory directory load_into should_override =
      if is_blank directory
      then (load_into, throw (runtime_error (codes "directory parameter cannot be empty")))
      else elim (system.list_directory directory) [
        | none ↦ (load_into, throw filesystem_error)
        | some paths ↦ load_files paths load_into should_override
      ]

  -- The loop of `getPropertiesByPrefix`; `from.at` throws on a missing key.
  unfoldable pub collect : Properties → Text → List Text → Properties → Result Properties
  collect from prefix [] props = ok props
  collect from prefix (name ∷ names) props =
      let skipped = collect from prefix names props in
      if system.starts_with name prefix
      then elim (Dict.lookup name from) [
        | none ↦ throw (out_of_range (codes "at"))
        | some v ↦ collect from prefix names (Dict.assign name v props)
      ]
      else skipped

  unfoldable pub get_properties_by_prefix : Properties → Text → Result Properties
  unfolding with_dot collect string_property_names
  get_properties_by_prefix from prefix = elim (with_dot (system.trim prefix)) [
    | [] ↦ ok []
    | c ∷ s ↦ collect from (c ∷ s) (string_property_names from) []
  ]
