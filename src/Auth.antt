-- ===== src/Auth.antt =====
-- internal/auth: who a request comes from, and what it may do.
pub mod Lru
pub mod Limits
