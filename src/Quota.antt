-- ===== src/Quota.antt =====
-- internal/quota: the balance ledger and its stage.
pub mod Ledger
pub mod Stage
