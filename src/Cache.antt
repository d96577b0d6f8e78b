-- ===== src/Cache.antt =====
-- The in-memory caches of common/src/main/include/ezbake/common/lrucache.
pub mod Lru
pub mod Timed
