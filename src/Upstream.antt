-- ===== src/Upstream.antt =====
-- internal/upstream: the adapters of the providers.
pub mod Credential
