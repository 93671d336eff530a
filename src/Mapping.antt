-- ===== src/Mapping.antt =====
-- contract/mapping: the ledger, deposits, withdrawals and their lifecycle.
pub mod Balance
pub mod Supply
pub mod Observed
pub mod Gas
pub mod Transaction
pub mod Proof
pub mod Registry
pub mod Withdrawal
pub mod Transfers
pub mod Deposits
pub mod Unmap
pub mod UnmapFrom
pub mod Confirm
pub mod Lifecycle
pub mod Solvency
pub mod Queue
pub mod Drop
pub mod Refund
