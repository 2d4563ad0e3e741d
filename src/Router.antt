-- ===== src/Router.antt =====
-- internal/router: the runtime switches and the selection of candidates.
pub mod Control
pub mod Priority
