-- ===== src/Config/Helpers.antt =====
-- The typed views of a configuration: configuration/src/main/cpp/helpers.
pub mod Constants
pub mod Base
pub mod Accumulo
pub mod Application
pub mod Elasticsearch
pub mod Flume
pub mod Hdfs
pub mod Kafka
pub mod MongoDb
pub mod Postgres
pub mod Redis
pub mod Security
pub mod SystemLog
pub mod Thrift
pub mod WebApplication
pub mod Zookeeper
pub mod Sample
mod Tests
