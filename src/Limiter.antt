-- ===== src/Limiter.antt =====
-- internal/limiter: per-tenant ceilings.
pub mod Concurrency
pub mod Memory
mod Tests
