-- ===== src/Config/Helpers/Application.antt =====
-- `ApplicationConfiguration` of configuration/src/main/cpp/helpers/ApplicationConfiguration.cpp: its properties and
-- their defaults.
use ezbake_common_cpp.Common.{[], ◌∷◌, ◌++◌, Text}
use ezbake_common_cpp.Config.EzConfiguration.{get_string}
use ezbake_common_cpp.Config.Helpers.Base.{BaseConfiguration, parse_key}
use ezbake_common_cpp.Config.Helpers.Constants.{Constants}

-- `applicationName + APPLICATION_SERVICE_SEPARATOR + serviceName`
unfoldable pub get_application_service_name : Text → Text → Text
get_application_service_name application_name service_name =
    application_name ++ (b'_' ∷ service_name)

module _ (g : Constants) (b : BaseConfiguration) where
  unfoldable pub get_application_name : Text
  get_application_name = get_string b.ez_configuration (parse_key b g.ezbake_application_name) []

  unfoldable pub get_application_version : Text
  get_application_version =
      get_string b.ez_configuration (parse_key b g.ezbake_application_version) []

  unfoldable pub get_service_name : Text
  get_service_name = get_string b.ez_configuration (parse_key b g.ezbake_service_name) []

  unfoldable pub get_security_id : Text
  get_security_id = get_string b.ez_configuration (parse_key b g.ezbake_security_id) []

  unfoldable pub get_certificates_dir : Text
  get_certificates_dir =
      get_string b.ez_configuration (parse_key b g.ezbake_certificates_directory) []
