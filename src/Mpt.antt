-- ===== src/Mpt.antt =====
-- contract/mpt/verify.go: the proof verifier of Merkle-Patricia tries.
pub mod Node
pub mod Verify
pub mod Agree
