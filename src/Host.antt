-- ===== src/Host.antt =====
-- The contract's storage, the host that calls it (sdk/), and the monad of its handlers.
pub mod State
pub mod Action
