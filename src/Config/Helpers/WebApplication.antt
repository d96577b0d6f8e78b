-- ===== src/Config/Helpers/WebApplication.antt =====
-- `WebApplicationConfiguration` of configuration/src/main/cpp/helpers/WebApplicationConfiguration.cpp: its properties and
-- their defaults.
use ezbake_common_cpp.Common.{[], Text}
use ezbake_common_cpp.Config.EzConfiguration.{get_string}
use ezbake_common_cpp.Config.Helpers.Base.{BaseConfiguration, parse_key}
use ezbake_common_cpp.Config.Helpers.Constants.{Constants}

module _ (g : Constants) (b : BaseConfiguration) where
  unfoldable pub get_external_facing_domain : Text
  get_external_facing_domain =
      get_string b.ez_configuration (parse_key b g.ezbake_web_application_external_domain) []

  unfoldable pub get_metrics_rest_endpoint : Text
  get_metrics_rest_endpoint =
      get_string b.ez_configuration (parse_key b g.ezbake_web_application_metrics_endpoint) []

  unfoldable pub get_metrics_site_id : Text
  get_metrics_site_id =
      get_string b.ez_configuration (parse_key b g.ezbake_web_application_metrics_siteid) []
