-- ===== src/Config/Helpers/Zookeeper.antt =====
-- `ZookeeperConfiguration` of configuration/src/main/cpp/helpers/ZookeeperConfiguration.cpp: its properties and
-- their defaults.
use ezbake_common_cpp.Common.{[], Text}
use ezbake_common_cpp.Config.EzConfiguration.{get_string}
use ezbake_common_cpp.Config.Helpers.Base.{BaseConfiguration, parse_key}
use ezbake_common_cpp.Config.Helpers.Constants.{Constants}

module _ (g : Constants) (b : BaseConfiguration) where
  unfoldable pub get_zookeeper_connection_string : Text
  get_zookeeper_connection_string =
      get_string b.ez_configuration (parse_key b g.zookeeper_connection_string) []
