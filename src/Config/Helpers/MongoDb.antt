-- ===== src/Config/Helpers/MongoDb.antt =====
-- `MongoDBConfiguration` of configuration/src/main/cpp/helpers/MongoDBConfiguration.cpp: its properties and
-- their defaults.
use ezbake_common_cpp.Common.{Bool, false, [], Text}
use ezbake_common_cpp.Config.EzConfiguration.{get_string, get_boolean}
use ezbake_common_cpp.Config.Helpers.Base.{BaseConfiguration, parse_key}
use ezbake_common_cpp.Config.Helpers.Constants.{Constants}

module _ (g : Constants) (b : BaseConfiguration) where
  unfoldable pub get_mongo_db_host_name : Text
  get_mongo_db_host_name = get_string b.ez_configuration (parse_key b g.mongodb_host_name) []

  unfoldable pub get_mongo_db_database_name : Text
  get_mongo_db_database_name = get_string b.ez_configuration (parse_key b g.mongodb_db_name) []

  unfoldable pub get_mongo_db_user_name : Text
  get_mongo_db_user_name = get_string b.ez_configuration (parse_key b g.mongodb_user_name) []

  unfoldable pub get_mongo_db_password : Text
  get_mongo_db_password = get_string b.ez_configuration (parse_key b g.mongodb_password) []

  unfoldable pub use_mongo_db_ssl : Bool
  use_mongo_db_ssl = get_boolean b.ez_configuration (parse_key b g.mongodb_use_ssl) false
