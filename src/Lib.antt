-- ===== src/Lib.antt =====
-- The EVM mapping contract (evm-mapping-contract/contract/), a WebAssembly contract of the VSC chain
-- that holds Ethereum money and ERC-20 tokens for accounts: it checks deposits against the headers
-- of Ethereum blocks, keeps a ledger, and has its withdrawals signed by a threshold key.
--
-- The parts, with the files of evm-mapping-contract/contract/ that they model:
--
-- - Prelude: lists, tests, integers and byte strings; no code. Byte strings are lists of numbers
--   below 256, and big.Int is ℤ.
-- - Result: contracterrors/errors.go. A handler that returns an error is an `err`; a trap or
--   `sdk.Abort` is an `err` with the symbol `aborted`.
-- - Codec.Hex, Codec.Decimal: the texts of addresses (crypto/crypto.go) and of numbers.
-- - Rlp: rlp/encode.go and rlp/decode.go. `int` has 32 bits, as on the wasm target, and wraps. The
--   decoder recurses on the levels that its depth limit leaves, and its loop over the items of a
--   list on the length of the list, since each round takes at least a byte.
--   Bounds, RoundTrip and Inverse are about the decoder, Digits about the bytes of numbers.
-- - Mpt: mpt/verify.go. The walk has 22 rounds, the number after which the code's bound stops it.
--   Agree is about the proofs that are accepted.
-- - Host.State, Host.Action: the contract's key-value storage (constants/constants.go), a field for
--   each prefix of a key, and what the host gives a call (sdk/): the caller, the height, Keccak, the
--   recovery of a signer, the state of the signing key, a call of another contract, and the storage
--   of the verifier contract. These are parameters. A handler takes the storage and gives a result
--   and a storage, after an error too; main.go aborts on every error (`exported`).
-- - Chain.Header, Chain.Blocks: blocklist/blocks.go, the headers of Ethereum. Ingest, Entry and
--   Retention are about accepted batches.
-- - Admin.Proposals, Admin.Lifecycle: admin/proposals.go, the timelock of admin actions.
-- - Mapping: mapping/. Balance, Supply, Observed and Gas are the ledger (balance.go, supply.go,
--   observed.go, withdrawal.go); Transaction and Proof check deposits (proof.go); Withdrawal has the
--   nonces, the spends and the transactions that are signed (withdrawal.go, abi/erc20.go); Transfers,
--   Deposits, Unmap, UnmapFrom, Confirm and Lifecycle are the handlers (handlers.go), each split into
--   its checks and its writes. Drop is about the proofs that a withdrawal was dropped, Deposits.Once
--   about any sequence of deposits. Solvency, Refund and Queue are about several handlers: Queue is
--   the abstract queue of withdrawals and Queue.Trace any sequence of calls.
-- - Exports: main.go, the exported functions. Payloads has the requests and the decoders of JSON,
--   which are parameters; Access the checks of the caller, Dispatch and AdminPayloads the switch of
--   the admin actions, Calls the exported functions. Config, Authority, Refusals, Emergency, History
--   and Timelocks are about all of them.
-- - Monitor: evm-mapping-contract/monitor/, the off-chain relay: Hex and Tx are tx_encode.go, Trie and
--   Build trie.go, Receipt receipt.go. Compact and Accept are about the proofs and the contract. A trie
--   is built on fuel, one unit for a level; a level takes a nibble of the longest key at least.
-- - Witness: the theorems at concrete runs.
--
-- Balances, allowances, the gas reserve, the last height and the tokens are stored as texts, as in
-- the code; supplies, spends, proposals and counters as the values that their JSON or pipe-separated
-- texts stand for. Unsigned 64-bit arithmetic wraps, by `% 2 ^ 64`.
--
-- Not modelled: the JSON of the payloads, logs and events, the bindings of
-- the host (sdk/), the allocator (runtime/), and the scanner of the monitor (monitor/scanner.go), which
-- talks to an Ethereum node.
pub mod Prelude
pub mod Result
pub mod Rlp
pub mod Codec
pub mod Exports
pub mod Monitor
pub mod Mpt
pub mod Host
pub mod Mapping
pub mod Chain
pub mod Admin
mod Witness
