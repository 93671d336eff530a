-- ===== src/Exports.antt =====
-- contract/main.go: the exported functions of the contract.
pub mod Payloads
pub mod Access
pub mod AdminPayloads
pub mod Dispatch
pub mod Calls
pub mod Config
pub mod Authority
pub mod Timelocks
pub mod Refusals
pub mod Emergency
pub mod History
