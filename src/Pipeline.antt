-- ===== src/Pipeline.antt =====
-- internal/pipeline: what a request is expected to cost.
pub mod Estimate
mod Tests
