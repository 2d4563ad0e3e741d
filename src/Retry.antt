-- ===== src/Retry.antt =====
-- internal/retry: how one client request decomposes into bounded attempts.
pub mod Budget
pub mod Policy
pub mod Classifier
pub mod Loop
mod Tests
