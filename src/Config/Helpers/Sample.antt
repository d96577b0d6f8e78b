-- ===== src/Config/Helpers/Sample.antt =====
-- Names for the properties, for the tests.
use ezbake_common_cpp.Common.{codes}
use ezbake_common_cpp.Config.Helpers.Constants.{Constants}

abbrev pub names : Constants
names = record {
  accumulo_instance_name = codes "accumulo_instance_name";
  accumulo_zookeepers = codes "accumulo_zookeepers";
  accumulo_use_mock = codes "accumulo_use_mock";
  accumulo_username = codes "accumulo_username";
  accumulo_password = codes "accumulo_password";
  ezbake_application_name = codes "ezbake_application_name";
  ezbake_application_version = codes "ezbake_application_version";
  ezbake_service_name = codes "ezbake_service_name";
  ezbake_security_id = codes "ezbake_security_id";
  ezbake_certificates_directory = codes "ezbake_certificates_directory";
  elasticsearch_host = codes "elasticsearch_host";
  elasticsearch_port = codes "elasticsearch_port";
  elasticsearch_thrift_port = codes "elasticsearch_thrift_port";
  elasticsearch_cluster_name = codes "elasticsearch_cluster_name";
  elasticsearch_force_refresh_on_put = codes "elasticsearch_force_refresh_on_put";
  flume_batch_size = codes "flume_batch_size";
  flume_max_events = codes "flume_max_events";
  flume_max_attempts = codes "flume_max_attempts";
  flume_connect_attempts = codes "flume_connect_attempts";
  flume_run_interval = codes "flume_run_interval";
  flume_sleep_interval = codes "flume_sleep_interval";
  flume_connect_timeout = codes "flume_connect_timeout";
  flume_request_timeout = codes "flume_request_timeout";
  flume_max_backoff = codes "flume_max_backoff";
  flume_headers = codes "flume_headers";
  flume_agent_type = codes "flume_agent_type";
  flume_hosts = codes "flume_hosts";
  flume_host_selector = codes "flume_host_selector";
  flume_back_off = codes "flume_back_off";
  hadoop_filesystem_name = codes "hadoop_filesystem_name";
  hadoop_filesystem_use_local = codes "hadoop_filesystem_use_local";
  hadoop_filesystem_impl = codes "hadoop_filesystem_impl";
  kafka_zookeeper = codes "kafka_zookeeper";
  kafka_broker_list = codes "kafka_broker_list";
  kafka_zookeeper_session_timeout = codes "kafka_zookeeper_session_timeout";
  mongodb_host_name = codes "mongodb_host_name";
  mongodb_db_name = codes "mongodb_db_name";
  mongodb_user_name = codes "mongodb_user_name";
  mongodb_password = codes "mongodb_password";
  mongodb_use_ssl = codes "mongodb_use_ssl";
  redis_host = codes "redis_host";
  redis_port = codes "redis_port";
  ezbake_ssl_peer_auth_required = codes "ezbake_ssl_peer_auth_required";
  ezbake_use_forward_proxy = codes "ezbake_use_forward_proxy";
  ezbake_user_cache_ttl = codes "ezbake_user_cache_ttl";
  ezbake_user_cache_size = codes "ezbake_user_cache_size";
  ezbake_ssl_ciphers_key = codes "ezbake_ssl_ciphers_key";
  ezbake_ssl_protocol_key = codes "ezbake_ssl_protocol_key";
  ezbake_log_to_stdout = codes "ezbake_log_to_stdout";
  ezbake_admin_application_deployment = codes "ezbake_admin_application_deployment";
  thrift_use_ssl = codes "thrift_use_ssl";
  thrift_max_idle_clients = codes "thrift_max_idle_clients";
  thrift_millis_between_client_eviction_checks =
      codes "thrift_millis_between_client_eviction_checks";
  thrift_millis_idle_before_eviction = codes "thrift_millis_idle_before_eviction";
  thrift_max_pool_clients = codes "thrift_max_pool_clients";
  thrift_test_on_borrow = codes "thrift_test_on_borrow";
  thrift_test_while_idle = codes "thrift_test_while_idle";
  ezbake_web_application_external_domain = codes "ezbake_web_application_external_domain";
  ezbake_web_application_metrics_endpoint = codes "ezbake_web_application_metrics_endpoint";
  ezbake_web_application_metrics_siteid = codes "ezbake_web_application_metrics_siteid";
  zookeeper_connection_string = codes "zookeeper_connection_string";
  ezbake_log_directory = codes "ezbake_log_directory";
  ezbake_user_cache_type = codes "ezbake_user_cache_type";
  ezbake_application_trusted_cert = codes "ezbake_application_trusted_cert";
  ezbake_application_private_key_file = codes "ezbake_application_private_key_file";
  ezbake_application_cert_file = codes "ezbake_application_cert_file";
  ezbake_application_public_key_file = codes "ezbake_application_public_key_file";
  thrift_server_mode = codes "thrift_server_mode";
  postgres_host = codes "postgres_host";
  postgres_port = codes "postgres_port";
  postgres_username = codes "postgres_username";
  postgres_password = codes "postgres_password";
  postgres_db = codes "postgres_db";
}
