-- ===== src/Config/Helpers/Hdfs.antt =====
-- `HDFSConfiguration` of configuration/src/main/cpp/helpers/HDFSConfiguration.cpp: its properties and
-- their defaults.
use ezbake_common_cpp.Common.{Bool, false, Option, Text, codes}
use ezbake_common_cpp.Config.EzConfiguration.{get_string, get_boolean}
use ezbake_common_cpp.Config.Helpers.Base.{BaseConfiguration, parse_key}
use ezbake_common_cpp.Config.Helpers.Base
use ezbake_common_cpp.Config.Helpers.Constants.{Constants}

module _ (g : Constants) (b : BaseConfiguration) where
  unfoldable pub get_file_system_name : Option Text
  get_file_system_name = Base.get b g.hadoop_filesystem_name

  unfoldable pub get_file_system_name_with_default : Text
  get_file_system_name_with_default =
      get_string b.ez_configuration (parse_key b g.hadoop_filesystem_name)
        (codes "hdfs://127.0.0.1:8020")

  unfoldable pub get_use_local : Bool
  get_use_local = get_boolean b.ez_configuration (parse_key b g.hadoop_filesystem_use_local) false

  unfoldable pub get_file_system_impl : Text
  get_file_system_impl =
      get_string b.ez_configuration (parse_key b g.hadoop_filesystem_impl)
        (codes "org.apache.hadoop.hdfs.DistributedFileSystem")
