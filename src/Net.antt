-- ===== src/Net.antt =====
-- Network addresses: `HostAndPort`.
pub mod HostAndPort
mod Tests
