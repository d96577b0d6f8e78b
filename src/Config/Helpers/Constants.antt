-- ===== src/Config/Helpers/Constants.antt =====
-- The names of the properties: `g_EzBakeProperty_constants`, which the build generates from the
-- Thrift definitions. Nothing is assumed of them.
use ezbake_common_cpp.Common.{Text}

pub record Constants : Type 0 where
  pub accumulo_instance_name : Text
  pub accumulo_zookeepers : Text
  pub accumulo_use_mock : Text
  pub accumulo_username : Text
  pub accumulo_password : Text
  pub ezbake_application_name : Text
  pub ezbake_application_version : Text
  pub ezbake_service_name : Text
  pub ezbake_security_id : Text
  pub ezbake_certificates_directory : Text
  pub elasticsearch_host : Text
  pub elasticsearch_port : Text
  pub elasticsearch_thrift_port : Text
  pub elasticsearch_cluster_name : Text
  pub elasticsearch_force_refresh_on_put : Text
  pub flume_batch_size : Text
  pub flume_max_events : Text
  pub flume_max_attempts : Text
  pub flume_connect_attempts : Text
  pub flume_run_interval : Text
  pub flume_sleep_interval : Text
  pub flume_connect_timeout : Text
  pub flume_request_timeout : Text
  pub flume_max_backoff : Text
  pub flume_headers : Text
  pub flume_agent_type : Text
  pub flume_hosts : Text
  pub flume_host_selector : Text
  pub flume_back_off : Text
  pub hadoop_filesystem_name : Text
  pub hadoop_filesystem_use_local : Text
  pub hadoop_filesystem_impl : Text
  pub kafka_zookeeper : Text
  pub kafka_broker_list : Text
  pub kafka_zookeeper_session_timeout : Text
  pub mongodb_host_name : Text
  pub mongodb_db_name : Text
  pub mongodb_user_name : Text
  pub mongodb_password : Text
  pub mongodb_use_ssl : Text
  pub redis_host : Text
  pub redis_port : Text
  pub ezbake_ssl_peer_auth_required : Text
  pub ezbake_use_forward_proxy : Text
  pub ezbake_user_cache_ttl : Text
  pub ezbake_user_cache_size : Text
  pub ezbake_ssl_ciphers_key : Text
  pub ezbake_ssl_protocol_key : Text
  pub ezbake_log_to_stdout : Text
  pub ezbake_admin_application_deployment : Text
  pub thrift_use_ssl : Text
  pub thrift_max_idle_clients : Text
  pub thrift_millis_between_client_eviction_checks : Text
  pub thrift_millis_idle_before_eviction : Text
  pub thrift_max_pool_clients : Text
  pub thrift_test_on_borrow : Text
  pub thrift_test_while_idle : Text
  pub ezbake_web_application_external_domain : Text
  pub ezbake_web_application_metrics_endpoint : Text
  pub ezbake_web_application_metrics_siteid : Text
  pub zookeeper_connection_string : Text
  pub ezbake_log_directory : Text
  pub ezbake_user_cache_type : Text
  pub ezbake_application_trusted_cert : Text
  pub ezbake_application_private_key_file : Text
  pub ezbake_application_cert_file : Text
  pub ezbake_application_public_key_file : Text
  pub thrift_server_mode : Text
  pub postgres_host : Text
  pub postgres_port : Text
  pub postgres_username : Text
  pub postgres_password : Text
  pub postgres_db : Text
