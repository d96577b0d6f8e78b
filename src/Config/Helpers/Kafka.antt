-- ===== src/Config/Helpers/Kafka.antt =====
-- `KafkaConfiguration` of configuration/src/main/cpp/helpers/KafkaConfiguration.cpp: its properties and
-- their defaults.
use ezbake_common_cpp.Common.{[], Text}
use ezbake_common_cpp.Config.EzConfiguration.{get_string}
use ezbake_common_cpp.Config.Helpers.Base.{BaseConfiguration, parse_key}
use ezbake_common_cpp.Config.Helpers.Constants.{Constants}

module _ (g : Constants) (b : BaseConfiguration) where
  unfoldable pub get_zookeepers : Text
  get_zookeepers = get_string b.ez_configuration (parse_key b g.kafka_zookeeper) []

  unfoldable pub get_broker_list : Text
  get_broker_list = get_string b.ez_configuration (parse_key b g.kafka_broker_list) []

  unfoldable pub get_consumer_timeout : Text
  get_consumer_timeout =
      get_string b.ez_configuration (parse_key b g.kafka_zookeeper_session_timeout) []
