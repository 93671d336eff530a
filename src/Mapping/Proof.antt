-- ===== src/Mapping/Proof.antt =====
-- contract/mapping/proof.go: `VerifyETHDeposit` and `VerifyERC20Deposit`.
use account_mapping.Prelude.{
  ℕ, ◌+◌, ◌%◌, ◌^◌, ◌||◌, not, none, some, [], ◌++◌, Bytes, bytes, ltb, leb, ◌==◌, eqb, length,
  drop, get_or, replicate,
}
use account_mapping.Codec.Hex.{decode_string, zero_address}
use account_mapping.Result.{
  Result, ok, ◌>>=◌, ◌>>◌, reject_if, present, or_else, input, transaction, state_access,
  invalid_hex,
}
use account_mapping.Host.State.{State, Env}
use account_mapping.Chain.Header.{get_header}
use account_mapping.Mpt.Verify.{verify_proof, rlp_encode_key}
use account_mapping.Mapping.Observed.{is_observed}
use account_mapping.Mapping.Transaction.{
  ParsedTx, ParsedLog, parse_transaction, parse_receipt_logs, split_proof_nodes, pad_to_32,
  ecrecover_dispatch, compute_tx_sighash,
}

pub record VerificationRequest : Type 0 where
  pub block_height : ℕ
  pub tx_index : ℕ
  pub raw_hex : Bytes
  pub merkle_proof_hex : Bytes
  pub log_index : ℕ
  pub token_address : Bytes
  pub deposit_type : Bytes

-- What a verified deposit gives: the sender, the amount in big-endian bytes, and the hash.
pub record Deposit : Type 0 where
  pub sender : Bytes
  pub amount_bytes : Bytes
  pub tx_hash : Bytes

-- `uint16(index)`
abbrev pub uint16 : ℕ → ℕ
uint16 n = n % 2 ^ 16

-- The Keccak-256 of "Transfer(address,address,uint256)".
unfoldable pub transfer_event_sig : Bytes
unfolding decode_string
transfer_event_sig =
    elim (decode_string
      (bytes "ddf252ad1be2c89b69c2b068fc378daa952ba7f163c4a11628f55a4df523b3ef")) [
        | some b ↦ b
        | none ↦ []
      ]

abbrev pub no_log : ParsedLog
no_log = record { address = []; topics = []; log_data = [] }

-- The checks on one log, and its sender.
unfoldable pub check_transfer_log : ParsedLog → (token vault : Bytes) → Result Bytes
unfolding transfer_event_sig
check_transfer_log log token vault = do
  reject_if (not (eqb log.address token)) input "token not registered"
  reject_if (ltb (length log.topics) 3) input "insufficient topics for Transfer event"
  reject_if (not (eqb (get_or log.topics 0 []) transfer_event_sig)) input "not a Transfer event"
  reject_if (not (eqb (get_or log.topics 2 []) (replicate 12 0 ++ vault))) input
      "transaction is not a deposit to vault"
  let sender = drop 12 (get_or log.topics 1 [])
  reject_if (eqb sender zero_address) transaction "zero-address sender (mint event, not a deposit)"
  ok sender

module _ (env : Env) where
  -- The proven value under `root` at `tx_index` is the submitted one.
  unfoldable pub check_inclusion :
      (root : Bytes) → (tx_index : ℕ) → (raw proof_bytes : Bytes) → Result (Unit {0})
  check_inclusion root tx_index raw proof_bytes = do
    value ←
        or_else
          (verify_proof env.keccak256 root (rlp_encode_key tx_index)
            (split_proof_nodes proof_bytes))
          transaction "proof verification failed"
    reject_if (not (eqb value raw)) transaction "proof verification failed"

  unfoldable pub recover_sender : Bytes → ParsedTx → Result Bytes
  recover_sender raw tx = do
    sender ←
        present
          (ecrecover_dispatch env.ecrecover_canonical (compute_tx_sighash env.keccak256 raw tx)
            ((27 + tx.sig_v) % 256) (pad_to_32 tx.sig_r) (pad_to_32 tx.sig_s))
          transaction "ecrecover failed"
    reject_if (eqb sender zero_address) transaction "ecrecover returned zero address"
    ok sender

  unfoldable pub verify_eth_deposit :
      State → VerificationRequest → (vault : Bytes) → (chain_id : ℕ) → Result Deposit
  verify_eth_deposit st req vault chain_id = do
    header ← present (get_header env st req.block_height) state_access "block header not found"
    raw ← present (decode_string req.raw_hex) invalid_hex "raw_hex"
    proof_bytes ← present (decode_string req.merkle_proof_hex) invalid_hex "merkle_proof_hex"
    check_inclusion header.transactions_root req.tx_index raw proof_bytes
    let tx_hash = env.keccak256 raw
    reject_if (is_observed st req.block_height tx_hash (uint16 req.tx_index)) input
        "deposit already processed"
    tx ← parse_transaction raw
    reject_if (not (tx.chain_id == chain_id)) input "tx chain id does not match contract chain id"
    reject_if (not (eqb tx.to_address vault)) input "transaction is not a deposit to vault"
    sender ← recover_sender raw tx
    ok (record { sender = sender; amount_bytes = tx.value; tx_hash = tx_hash })

  unfoldable pub verify_erc20_deposit :
      State → VerificationRequest → (vault token : Bytes) → (chain_id : ℕ) → Result Deposit
  verify_erc20_deposit st req vault token chain_id = do
    header ← present (get_header env st req.block_height) state_access "block header not found"
    reject_if (not (header.chain_id == chain_id)) input
        "tx chain id does not match contract chain id"
    raw ← present (decode_string req.raw_hex) invalid_hex "raw_hex"
    proof_bytes ← present (decode_string req.merkle_proof_hex) invalid_hex "merkle_proof_hex"
    check_inclusion header.receipts_root req.tx_index raw proof_bytes
    let tx_hash = env.keccak256 raw
    reject_if (is_observed st req.block_height tx_hash (uint16 req.log_index)) input
        "deposit already processed"
    logs ← parse_receipt_logs raw
    reject_if (ltb 10000 req.log_index || leb (length logs) req.log_index) input
        "log_index out of range"
    let log = get_or logs req.log_index no_log
    sender ← check_transfer_log log token vault
    ok (record { sender = sender; amount_bytes = log.log_data; tx_hash = tx_hash })
