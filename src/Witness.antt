-- ===== src/Witness.antt =====
-- The theorems at concrete runs of the contract.
pub mod World
mod Codec
mod Ledger
mod Transfers
mod Chain
mod Proposals
mod Deposit
mod Refund
mod ByOwner
mod Rlp
mod Exports
mod Monitor
