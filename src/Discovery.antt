-- ===== src/Discovery.antt =====
-- Service discovery: discovery/src/main/cpp.
pub mod Paths
pub mod Registry
pub mod Async
