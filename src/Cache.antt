-- ===== src/Cache.antt =====
-- internal/cache: the response cache.
pub mod Memory
pub mod Admission
pub mod Flight
pub mod Stage
