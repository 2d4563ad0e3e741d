-- ===== src/Circuit.antt =====
-- internal/circuit: the breakers that guard calls to an upstream.
pub mod Types
pub mod Machine
pub mod Breaker
pub mod SlowWindow
pub mod Slow
pub mod Ratio
pub mod Port
pub mod Prober
