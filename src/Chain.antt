-- ===== src/Chain.antt =====
-- contract/blocklist/blocks.go: the relayed block headers.
pub mod Header
pub mod Blocks
pub mod Ingest
pub mod Entry
pub mod Retention
