-- ===== src/Admin.antt =====
-- contract/admin/proposals.go: the timelock of admin actions.
pub mod Proposals
pub mod Lifecycle
