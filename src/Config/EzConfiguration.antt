-- ===== src/Config/EzConfiguration.antt =====
-- `EZConfiguration` of configuration/src/main/cpp/EZConfiguration.cpp. Its one field is its
-- properties, so a method that changes the object returns them beside its outcome.
pub mod Set
pub mod Defaults
use ezbake_common_cpp.Common.Dict
use ezbake_common_cpp.Common.Result.{
  Result, ok, throw, hang, crash, ◌>>=◌, runtime_error, invalid_argument,
}
use ezbake_common_cpp.Common.{
  Bool, true, false, not, ◌&&◌, Option, none, some, [], ◌++◌, if◌then◌else◌, Text, codes, is_blank,
}
use ezbake_common_cpp.Config.Convert.{convert_to_boolean, convert_to}
use ezbake_common_cpp.Config.OpenShift.{
  in_open_shift_container, get_repo_path, get_configuration_dir,
}
use ezbake_common_cpp.Config.Parser.{Properties}
use ezbake_common_cpp.Config.Properties.{
  System, Outcome, merge_properties, and_then, load_properties_from_directory,
}

abbrev pub default_ezconfiguration_dir : Text
default_ezconfiguration_dir = codes "/etc/sysconfig/ezbake"

abbrev pub ezconfiguration_dir_var : Text
ezconfiguration_dir_var = codes "EZCONFIGURATION_DIR"

unfoldable pub get : Properties → Text → Option Text
unfolding is_blank
get properties key = if is_blank key then none else Dict.lookup key properties

unfoldable pub is_defined : Option Text → Bool
is_defined none = false
is_defined (some _) = true

unfoldable pub set : Properties → Text → Text → Bool → Outcome
unfolding is_blank is_defined
set properties key value should_override =
    if is_blank key
    then (properties, throw (invalid_argument (codes "invalid key")))
    else if not should_override && is_defined (Dict.lookup key properties)
    then (
      properties,
      throw (runtime_error (codes "Key {" ++ (key ++ codes "} has already been set!"))),
    )
    else (Dict.insert key value properties, ok tt)

unfoldable pub get_boolean : Properties → Text → Bool → Bool
unfolding get
get_boolean properties key default_value = convert_to_boolean (get properties key) default_value

-- `getDouble`, `getFloat`, `getInt` and `getLong`.
unfoldable pub get_number {ℓ} : {A : Type ℓ} → (Text → Option A) → Properties → Text → A → Result A
unfolding get
get_number lexical_cast properties key default_value =
    convert_to lexical_cast (get properties key) default_value

unfoldable pub get_string : Properties → Text → Text → Text
unfolding get
get_string properties key default_value = elim (get properties key) [
  | none ↦ default_value
  | some v ↦ v
]

unfoldable pub merge_with_properties : Properties → Properties → Bool → Outcome
merge_with_properties properties to_merge_with override_defaults =
    merge_properties properties to_merge_with override_defaults

-- The handlers that log an exception and go on.
unfoldable pub caught : Properties × Result (Unit {0}) → Properties × Result Bool
caught (p, ok _) = (p, ok true)
caught (p, throw e) = (p, ok false)
caught (p, hang) = (p, hang)
caught (p, crash) = (p, crash)

module _ (system : System) where
  unfoldable pub get_path_string : Properties → Text → Text → Result Text
  unfolding get
  get_path_string properties key default_value = elim (get properties key) [
    | none ↦ ok default_value
    | some path ↦
        if not (in_open_shift_container system) then ok path else get_repo_path system path
  ]

  unfoldable pub load_from_directory : Properties → Text → Bool → Outcome
  load_from_directory properties directory should_override =
      load_properties_from_directory system directory properties should_override

  unfoldable pub load_from_ez_configuration_var : Properties → Properties × Result Bool
  unfolding caught is_blank
  load_from_ez_configuration_var properties = elim (system.getenv ezconfiguration_dir_var) [
    | none ↦ (properties, ok false)
    | some default_dir ↦
        if not (is_blank default_dir)
        then caught (load_properties_from_directory system default_dir properties true)
        else (properties, ok false)
  ]

  -- `catch (const std::exception& e)` round the load alone.
  unfoldable pub ignored : Properties × Result Bool → Outcome
  ignored (p, ok _) = (p, ok tt)
  ignored (p, throw e) = (p, throw e)
  ignored (p, hang) = (p, hang)
  ignored (p, crash) = (p, crash)

  unfoldable pub load_open_shift : Properties → Outcome
  unfolding caught ignored
  load_open_shift properties =
      if in_open_shift_container system
      then elim (get_configuration_dir system) [
        | ok dir ↦ ignored (caught (load_properties_from_directory system dir properties true))
        | throw e ↦ (properties, throw e)
        | hang ↦ (properties, hang)
        | crash ↦ (properties, crash)
      ]
      else (properties, ok tt)

  -- `if (!loadFromEZConfigurationVar()) loadFromDirectory();`
  unfoldable pub or_default : Properties × Result Bool → Outcome
  or_default (p, ok true) = (p, ok tt)
  or_default (p, ok false) =
      load_properties_from_directory system default_ezconfiguration_dir p true
  or_default (p, throw e) = (p, throw e)
  or_default (p, hang) = (p, hang)
  or_default (p, crash) = (p, crash)

  unfoldable pub load_default_configuration : Properties → Outcome
  unfolding load_from_ez_configuration_var or_default load_open_shift and_then
  load_default_configuration properties =
      and_then (or_default (load_from_ez_configuration_var properties)) load_open_shift

  -- The constructor `EZConfiguration(bool loadDefaults)`; on an exception there is no object.
  unfoldable pub init : Bool → Result Properties
  unfolding load_default_configuration
  init load_defaults =
      if load_defaults
      then elim (load_default_configuration []).1 [
        | ok _ ↦ ok (load_default_configuration []).0
        | throw e ↦
            throw
              (runtime_error (codes "Could not load EZConfiguration defaults: " ++ system.what e))
        | hang ↦ hang
        | crash ↦ crash
      ]
      else ok []
