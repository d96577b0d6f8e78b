-- ===== src/Config/Helpers/Elasticsearch.antt =====
-- `ElasticsearchConfiguration` of configuration/src/main/cpp/helpers/ElasticsearchConfiguration.cpp: its properties and
-- their defaults.
use ezbake_common_cpp.Common.{ℕ, Bool, false, Option, [], Text}
use ezbake_common_cpp.Common.Result.{Result}
use ezbake_common_cpp.Config.EzConfiguration.{get_string, get_boolean, get_number}
use ezbake_common_cpp.Config.Helpers.Base.{BaseConfiguration, parse_key}
use ezbake_common_cpp.Config.Helpers.Constants.{Constants}

module _ (g : Constants) (b : BaseConfiguration) where
  unfoldable pub get_elasticsearch_host : Text
  get_elasticsearch_host = get_string b.ez_configuration (parse_key b g.elasticsearch_host) []

  unfoldable pub get_elasticsearch_cluster_name : Text
  get_elasticsearch_cluster_name =
      get_string b.ez_configuration (parse_key b g.elasticsearch_cluster_name) []

  unfoldable pub get_force_refresh : Bool
  get_force_refresh =
      get_boolean b.ez_configuration (parse_key b g.elasticsearch_force_refresh_on_put) false

-- `Number` is the integer type, `number` its literals and `lexical_cast` Boost's reader of it.
module _ (g : Constants) (b : BaseConfiguration) {Number : Type 0} (number : ℕ → Number)
    (lexical_cast : Text → Option Number) where
  unfoldable pub get_elasticsearch_port : Result Number
  get_elasticsearch_port =
      get_number lexical_cast b.ez_configuration (parse_key b g.elasticsearch_port) (number 9200)

  unfoldable pub get_elasticsearch_thrift_port : Result Number
  get_elasticsearch_thrift_port =
      get_number lexical_cast b.ez_configuration (parse_key b g.elasticsearch_thrift_port)
        (number 9500)
