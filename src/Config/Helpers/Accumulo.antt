-- ===== src/Config/Helpers/Accumulo.antt =====
-- `AccumuloConfiguration` of configuration/src/main/cpp/helpers/AccumuloConfiguration.cpp: its properties and
-- their defaults.
use ezbake_common_cpp.Common.{Bool, false, [], Text}
use ezbake_common_cpp.Config.EzConfiguration.{get_string, get_boolean}
use ezbake_common_cpp.Config.Helpers.Base.{BaseConfiguration, parse_key}
use ezbake_common_cpp.Config.Helpers.Constants.{Constants}

module _ (g : Constants) (b : BaseConfiguration) where
  unfoldable pub get_accumulo_instance : Text
  get_accumulo_instance = get_string b.ez_configuration (parse_key b g.accumulo_instance_name) []

  unfoldable pub get_zookeepers : Text
  get_zookeepers = get_string b.ez_configuration (parse_key b g.accumulo_zookeepers) []

  unfoldable pub use_mock : Bool
  use_mock = get_boolean b.ez_configuration (parse_key b g.accumulo_use_mock) false

  unfoldable pub get_username : Text
  get_username = get_string b.ez_configuration (parse_key b g.accumulo_username) []

  unfoldable pub get_password : Text
  get_password = get_string b.ez_configuration (parse_key b g.accumulo_password) []
