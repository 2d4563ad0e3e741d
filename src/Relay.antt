-- ===== src/Relay.antt =====
-- internal/relay: one client request against its candidate upstreams.
pub mod Plan
pub mod Request
pub mod Fatal
pub mod Exchange
pub mod Attempt
pub mod Executor
