-- ===== src/Monitor.antt =====
-- monitor/: the encoders and the proof builder of the off-chain relay.
pub mod Hex
pub mod Trie
pub mod Build
pub mod Tx
pub mod Receipt
pub mod Compact
pub mod Accept
