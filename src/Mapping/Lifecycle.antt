-- ===== src/Mapping/Lifecycle.antt =====
-- contract/mapping/handlers.go: the proofs that a withdrawal was dropped, and the handlers that
-- replace, clear, expire or cancel the pending withdrawal. Their logs (`sdk.Log`) are left out.
use account_mapping.Prelude.{
  ℕ, zero, suc, ◌+◌, ◌-◌, ◌*◌, Bool, true, false, ◌||◌, ◌&&◌, not, Option, none, some, Bytes, bytes,
  leb, ◌==◌, if◌then◌else◌, eqb, pos,
}
use account_mapping.Codec.Hex.{decode_string, hex_to_address, encode_to_string}
use account_mapping.Result
use account_mapping.Result.{
  Result, ok, err, reject_if, present, or_else, contract_error, intent, transaction, plain,
  arithmetic, initialization,
}
use account_mapping.Mpt.Verify.{verify_proof, rlp_encode_key}
use account_mapping.Host.State.{State, Env, PendingSpend, add64, delete_num}
use account_mapping.Host.Action.{Action, lift, gets, modify, fail_if, ◌>>=◌, ◌>>◌}
use account_mapping.Chain.Header.{EthBlockHeader, get_header, get_last_height}
use account_mapping.Chain.Blocks.{max_block_retention}
use account_mapping.Mapping.Balance.{inc_balance}
use account_mapping.Mapping.Supply.{restore_supply}
use account_mapping.Mapping.Gas.{safe_gas_fee}
use account_mapping.Mapping.Registry.{is_paused, tss_sign}
use account_mapping.Mapping.Withdrawal.{
  get_confirmed_nonce, get_pending_nonce, set_pending_nonce, get_pending_spend, store_pending_spend,
  delete_pending_spend, nonce_advance, build_eth_withdrawal_tx, build_erc20_withdrawal_tx,
  compute_sighash,
}
use account_mapping.Mapping.Transaction.{parse_transaction, split_proof_nodes}
use account_mapping.Mapping.Unmap.{tip_header}
use account_mapping.Mapping.Confirm.{receipt_status, vault_missing}

-- `Type` of the proof: the two strings of types.go, or another one.
pub data ProofType : Type 0 where
  reverted_receipt block_inclusion absent unknown : ProofType

pub record L1ProofOfDrop : Type 0 where
  pub proof_type : ProofType
  pub block_height : ℕ
  pub tx_index : ℕ
  pub tx_nonce : ℕ
  pub receipt_hex : Bytes
  pub receipt_proof_hex : Bytes
  pub tx_at_index_hex : Bytes
  pub tx_proof_hex : Bytes

abbrev pub withdrawal_expiry_window : ℕ
withdrawal_expiry_window = 5000

abbrev pub is_absent : ProofType → Bool
is_absent absent = true
is_absent _ = false

-- The refund of a withdrawal, and the end of it: credit, restore the supply, advance the nonce,
-- set the pending nonce to it, delete the spend.
unfoldable pub refund_and_close : PendingSpend → (nonce : ℕ) → State → State
refund_and_close ps nonce st =
    let refunded =
      restore_supply ps.asset ps.amount (inc_balance ps.from_account ps.asset ps.amount st) in
    let advanced = (nonce_advance ps 1 refunded).1 in
    delete_pending_spend nonce (set_pending_nonce (get_confirmed_nonce advanced) advanced)

-- The loops of `HandleClearTestnetState`: `rounds` keys from `from` on.
unfoldable pub delete_spends : (rounds from : ℕ) → State → State
delete_spends zero from st = st
delete_spends (suc rounds) from st = delete_spends rounds (suc from) (delete_pending_spend from st)

unfoldable pub delete_observed : (rounds from : ℕ) → State → State
delete_observed zero from st = st
delete_observed (suc rounds) from st =
    delete_observed rounds (suc from) (record st { observed = delete_num from st.observed })

unfoldable pub is_true_text : Option Bytes → Bool
is_true_text none = false
is_true_text (some b) = eqb b (bytes "true")

module _ (env : Env) where
  -- The bytes that are proved for a slot of a trie are the submitted ones.
  unfoldable pub proven_slot :
      (root : Bytes) → (tx_index : ℕ) → (hex_text proof_hex : Bytes) → Result Bytes
  proven_slot root tx_index hex_text proof_hex =
      Result.◌>>=◌ (present (decode_string hex_text) plain "invalid hex") λ raw.
        Result.◌>>=◌ (present (decode_string proof_hex) plain "invalid proof hex") λ proof.
          Result.◌>>=◌
            (or_else
              (verify_proof env.keccak256 root (rlp_encode_key tx_index) (split_proof_nodes proof))
              plain "proof verification failed")
            λ proven.
              if eqb proven raw
              then ok raw
              else err (contract_error plain "bytes do not match proof")

  -- Type A: the receipt of the slot says that its transaction was reverted.
  unfoldable pub check_reverted : L1ProofOfDrop → EthBlockHeader → Result (Unit {0})
  unfolding proven_slot receipt_status
  check_reverted proof header =
      Result.◌>>=◌
        (proven_slot header.receipts_root proof.tx_index proof.receipt_hex proof.receipt_proof_hex)
        λ receipt.
          Result.◌>>=◌ (or_else (receipt_status receipt) plain "malformed receipt")
            λ status. reject_if (not (status == 0)) plain "receipt status != 0 — tx not reverted"

  -- Type B: the transaction of the slot has a higher nonce.
  unfoldable pub check_inclusion_without :
      L1ProofOfDrop → EthBlockHeader → (chain_id : ℕ) → Result (Unit {0})
  unfolding proven_slot
  check_inclusion_without proof header chain_id =
      Result.◌>>=◌
        (proven_slot header.transactions_root proof.tx_index proof.tx_at_index_hex
          proof.tx_proof_hex)
        λ raw.
          Result.◌>>=◌ (or_else (parse_transaction raw) plain "failed to parse proven tx") λ tx.
            Result.◌>>◌
              (reject_if (not (chain_id == 0) && not (tx.chain_id == chain_id)) plain
                "proof tx chain id mismatch")
              (reject_if (leb tx.nonce proof.tx_nonce) plain
                "proof tx nonce does not exceed cleared nonce — vault has not advanced")

  unfoldable pub check_drop : L1ProofOfDrop → EthBlockHeader → (chain_id : ℕ) → Result (Unit {0})
  unfolding check_reverted check_inclusion_without
  check_drop proof header chain_id = elim proof.proof_type [
    | reverted_receipt ↦ check_reverted proof header
    | block_inclusion ↦ check_inclusion_without proof header chain_id
    | _ ↦ err (contract_error plain "unknown L1ProofOfDrop type")
  ]

  unfoldable pub verify_l1_proof_of_drop :
      L1ProofOfDrop → PendingSpend → (chain_id : ℕ) → State → Result (Unit {0})
  unfolding check_drop
  verify_l1_proof_of_drop proof ps chain_id st =
      if not (proof.tx_nonce == ps.nonce)
      then err (contract_error plain "proof tx_nonce does not match pending spend nonce")
      else Result.◌>>=◌
          (present (get_header env st proof.block_height) plain "proof block not anchored")
          λ header. check_drop proof header chain_id

  -- `if isPaused() { return errors.New }`
  unfoldable pub require_unpaused : Action (Unit {0})
  require_unpaused st =
      (if is_paused st then err (contract_error plain "contract is paused") else ok tt, st)

  unfoldable pub require_drop : L1ProofOfDrop → PendingSpend → (chain_id : ℕ) → Action (Unit {0})
  require_drop proof ps chain_id st = (
    or_else (verify_l1_proof_of_drop proof ps chain_id st) transaction
        "L1ProofOfDrop verify failed",
    st,
  )

  -- The spend under a nonce.
  unfoldable pub spend_at : ℕ → Action PendingSpend
  spend_at nonce st = (present (get_pending_spend st nonce) intent "no pending spend at nonce", st)

  unfoldable pub replacement_tx :
      PendingSpend → (chain_id nonce fee_cap : ℕ) → (to_address : Bytes) → Result Bytes
  replacement_tx ps chain_id nonce fee_cap to_address =
      if eqb ps.asset (bytes "eth")
      then ok (build_eth_withdrawal_tx chain_id nonce 4_000_000_000 fee_cap to_address ps.amount)
      else Result.◌>>=◌
          (or_else (hex_to_address ps.token_address) plain
            "pending spend token address parse failed")
          λ token.
            build_erc20_withdrawal_tx chain_id nonce 4_000_000_000 fee_cap token to_address
              ps.amount

  unfoldable pub handle_replace_withdrawal : (chain_id : ℕ) → Action (Unit {0})
  unfolding require_unpaused spend_at
  handle_replace_withdrawal chain_id = do
    require_unpaused
    confirmed ← gets get_confirmed_nonce
    ps ← spend_at confirmed
    found ← gets (tip_header env)
    header ← lift found
    capped ← lift (
        or_else (safe_gas_fee 0 header.base_fee_per_gas 3 4_000_000_000) arithmetic
          "gas fee cap overflow")
    to_address ←
        lift (or_else (hex_to_address ps.to_address) plain "pending spend destination parse failed")
    unsigned ← lift (replacement_tx ps chain_id confirmed capped.0 to_address)
    modify (tss_sign (compute_sighash env unsigned))
    modify (store_pending_spend (record ps { unsigned_tx_hex = encode_to_string unsigned }))

  -- The transfer of nothing from the vault to itself that takes the nonce.
  unfoldable pub sign_self_transfer : (vault : Bytes) → (chain_id nonce : ℕ) → State → State
  sign_self_transfer vault chain_id nonce st =
      tss_sign
        (compute_sighash env
          (build_eth_withdrawal_tx chain_id nonce 4_000_000_000 100_000_000_000 vault (pos 0)))
        st

  unfoldable pub handle_clear_nonce :
      (vault : Bytes) → (chain_id : ℕ) → L1ProofOfDrop → Action (Unit {0})
  unfolding require_unpaused spend_at require_drop
  handle_clear_nonce vault chain_id proof = do
    require_unpaused
    confirmed ← gets get_confirmed_nonce
    ps ← spend_at confirmed
    require_drop proof ps chain_id
    modify (sign_self_transfer vault chain_id confirmed)
    modify (refund_and_close ps confirmed)

  -- Who may expire the head: anyone after the window, the withdrawer before.
  unfoldable pub may_expire : PendingSpend → Bool
  may_expire ps =
      leb (add64 ps.block_height withdrawal_expiry_window) env.block_height
      || eqb env.caller ps.from_account

  unfoldable pub handle_expire_withdrawal :
      (nonce : ℕ) → L1ProofOfDrop → (chain_id : ℕ) → Action (Unit {0})
  unfolding require_unpaused spend_at require_drop
  handle_expire_withdrawal nonce proof chain_id = do
    require_unpaused
    confirmed ← gets get_confirmed_nonce
    fail_if (not (nonce == confirmed)) plain
        "expireWithdrawal: target nonce is not the confirmed-nonce head"
    ps ← spend_at confirmed
    fail_if (vault_missing ps) plain "legacy PendingSpend entry"
    fail_if (not (may_expire ps)) plain
        "expireWithdrawal: window not elapsed and caller is not original withdrawer"
    fail_if (is_absent proof.proof_type) plain "expireWithdrawal: L1-proof-of-drop is mandatory"
    require_drop proof ps chain_id
    modify (refund_and_close ps nonce)

  unfoldable pub handle_cancel_my_withdrawal :
      (nonce : ℕ) → L1ProofOfDrop → (vault : Bytes) → (chain_id : ℕ) → Action (Unit {0})
  unfolding require_unpaused spend_at require_drop
  handle_cancel_my_withdrawal nonce proof vault chain_id = do
    require_unpaused
    ps ← spend_at nonce
    fail_if (not (eqb env.caller ps.from_account)) plain
        "cancelMyWithdrawal: only the original withdrawer can cancel"
    fail_if (is_absent proof.proof_type) plain "cancelMyWithdrawal: proof MANDATORY"
    require_drop proof ps chain_id
    modify (sign_self_transfer vault chain_id nonce)
    modify (refund_and_close ps nonce)

  -- The observed lists of the last 2 * 101 heights are deleted, and the spends up to the pending
  -- nonce.
  unfoldable pub clear_testnet : State → State
  clear_testnet st =
      let confirmed = get_confirmed_nonce st in
      let last = get_last_height env st in
      let start = last - max_block_retention * 2 in
      let without = delete_spends (get_pending_nonce st + 1 - confirmed) confirmed st in
      delete_observed (last + 1 - start) start
        (record without { confirmed_nonce = none; pending_nonce = none })

  unfoldable pub handle_clear_testnet_state : Action (Unit {0})
  unfolding is_true_text
  handle_clear_testnet_state = do
    marked ← gets (λ st. is_true_text st.is_testnet)
    fail_if (not marked) plain "clearTestnetState: not a testnet contract"
    modify clear_testnet
