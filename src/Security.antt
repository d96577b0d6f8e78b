-- ===== src/Security.antt =====
-- The security libraries: security/permission-utils and security/client.
pub mod Visibility
pub mod Permissions
pub mod Tokens
pub mod Client
mod Sample
mod Tests
pub mod AsyncClient
