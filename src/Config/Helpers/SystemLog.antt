-- ===== src/Config/Helpers/SystemLog.antt =====
-- `SystemConfiguration` of configuration/src/main/cpp/helpers/SystemConfiguration.cpp: where the
-- log files are.
use ezbake_common_cpp.Common.Result.{Result, ok, throw, invalid_argument}
use ezbake_common_cpp.Common.{
  ℕ, Bool, false, none, some, ◌∷◌, ◌++◌, if◌then◌else◌, Text, codes, is_blank,
}
use ezbake_common_cpp.Config.EzConfiguration.{get_boolean}
use ezbake_common_cpp.Config.Helpers.Application.{get_application_service_name}
use ezbake_common_cpp.Config.Helpers.Base
use ezbake_common_cpp.Config.Helpers.Base.{BaseConfiguration, parse_key}
use ezbake_common_cpp.Config.Helpers.Constants.{Constants}

abbrev pub file_separator : ℕ
file_separator = b'/'

module _ (g : Constants) (b : BaseConfiguration) where
  unfoldable pub get_log_directory : Text
  get_log_directory = elim (Base.get b g.ezbake_log_directory) [
    | none ↦ codes "/tmp"
    | some dir ↦ dir
  ]

  unfoldable pub get_log_file_path : Text → Text → Result Text
  unfolding is_blank
  get_log_file_path application_name service_name =
      if is_blank service_name
      then throw (invalid_argument (codes "serviceName must not be blank!!"))
      else if is_blank application_name
      then ok (
          (get_log_directory ++ (file_separator ∷ service_name))
          ++ (file_separator ∷ (service_name ++ codes ".log")))
      else ok (
          (get_log_directory ++ (file_separator ∷ application_name))
          ++ (file_separator
              ∷ (get_application_service_name application_name service_name ++ codes ".log")))

  unfoldable pub should_log_to_std_out : Bool
  should_log_to_std_out = get_boolean b.ez_configuration (parse_key b g.ezbake_log_to_stdout) false

  unfoldable pub is_admin_application_deployment : Bool
  is_admin_application_deployment =
      get_boolean b.ez_configuration (parse_key b g.ezbake_admin_application_deployment) false
