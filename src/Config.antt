-- ===== src/Config.antt =====
-- The configuration library: configuration/src/main.
pub mod Parser
pub mod Convert
pub mod CryptoUtil
pub mod Properties
pub mod OpenShift
pub mod EzConfiguration
pub mod Helpers
mod Tests
