-- ===== src/ThriftUtils.antt =====
-- The pool of Thrift clients: thrift-utils.
pub mod ClientPool
pub mod Channel
pub mod AsyncPool
