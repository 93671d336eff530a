-- ===== src/Mapping/Confirm.antt =====
-- contract/mapping/handlers.go: `HandleConfirmSpend`.
use account_mapping.Prelude.{
  ℕ, ◌+◌, ◌%◌, Bool, false, ◌||◌, not, Option, none, some, [], Bytes, bytes, leb, ◌==◌,
  if◌then◌else◌, eqb, length, slice, get_or, replicate, ℤ, pos, ltb_ℤ, ◌==ℤ◌,
}
use account_mapping.Codec.Decimal.{set_string}
use account_mapping.Codec.Hex.{decode_string, hex_to_address, zero_address}
use account_mapping.Result
use account_mapping.Result.{
  Result, ok, err, reject_if, present, contract_error, input, intent, transaction, plain,
  invalid_hex, state_access,
}
use account_mapping.Rlp.Item.{be_from, as_uint64}
use account_mapping.Rlp.Decode.{decode_list}
use account_mapping.Rlp.Encode.{encode_uint64}
use account_mapping.Mpt.Verify.{verify_proof}
use account_mapping.Host.State.{State, Env, PendingSpend, add64}
use account_mapping.Host.Action.{Action, pure, lift, gets, modify, fail_if, ◌>>=◌, ◌>>◌}
use account_mapping.Chain.Header.{get_header}
use account_mapping.Mapping.Balance.{inc_balance}
use account_mapping.Mapping.Supply.{restore_supply}
use account_mapping.Mapping.Gas.{add_gas_reserve}
use account_mapping.Mapping.Withdrawal.{
  get_confirmed_nonce, set_confirmed_nonce, get_pending_spend, delete_pending_spend,
  transfer_selector,
}
use account_mapping.Mapping.Transaction.{
  ParsedTx, parse_transaction, split_proof_nodes, pad_to_32, ecrecover_dispatch, compute_tx_sighash,
  strip_type, no_item,
}
use account_mapping.Mapping.Transfers.{require_running}

pub record ConfirmSpendRequest : Type 0 where
  pub block_height : ℕ
  pub tx_index : ℕ
  pub tx_hex : Bytes
  pub tx_proof_hex : Bytes
  pub receipt_hex : Bytes
  pub receipt_proof_hex : Bytes
  pub intent_nonce : ℕ
  pub intent_to : Bytes
  pub intent_amount : Bytes
  pub intent_asset : Bytes

-- The intent's amount is a number, and that of the spend.
unfoldable pub same_amount : Bytes → ℤ → Bool
unfolding set_string
same_amount text amount = elim (set_string text) [ none ↦ false | some v ↦ v ==ℤ amount ]

-- The four intent fields against the spend at the confirmed nonce.
unfoldable pub check_intent :
    ConfirmSpendRequest → PendingSpend → (confirmed : ℕ) → Result (Unit {0})
unfolding same_amount
check_intent req ps confirmed =
    Result.◌>>◌
      (reject_if (not (req.intent_nonce == confirmed)) plain
        "intent fields do not match pending spend: nonce")
      (Result.◌>>◌
        (reject_if (not (eqb req.intent_to ps.to_address)) plain
          "intent fields do not match pending spend: to")
        (Result.◌>>◌
          (reject_if (not (same_amount req.intent_amount ps.amount)) plain
            "intent fields do not match pending spend: amount")
          (reject_if (not (eqb req.intent_asset ps.asset)) plain
            "intent fields do not match pending spend: asset")))

abbrev pub zero_vault_text : Bytes
zero_vault_text = bytes "0x0000000000000000000000000000000000000000"

-- The spend has no vault: it is empty or the zero address.
unfoldable pub vault_missing : PendingSpend → Bool
vault_missing ps = eqb ps.vault_at_queue [] || eqb ps.vault_at_queue zero_vault_text

-- The native payment is the one of the spend.
unfoldable pub check_native_payment : ParsedTx → PendingSpend → (ps_to : Bytes) → Result (Unit {0})
check_native_payment tx ps ps_to =
    Result.◌>>◌
      (reject_if (not (eqb tx.to_address ps_to)) transaction
        "tx destination does not match pending spend")
      (reject_if (not (pos (be_from 0 tx.value) ==ℤ ps.amount)) transaction
        "tx amount does not match pending spend")

-- The call of the token is `transfer(recipient, amount)` of the spend, with no value.
unfoldable pub check_token_payment : ParsedTx → PendingSpend → (ps_to : Bytes) → Result (Unit {0})
check_token_payment tx ps ps_to = Result.◌>>=◌ (hex_to_address ps.token_address) λ token.
    Result.◌>>◌
      (reject_if (not (eqb tx.to_address token)) transaction
        "tx token contract does not match pending spend")
      (Result.◌>>◌
        (reject_if (not (be_from 0 tx.value == 0)) transaction "erc20 tx must have zero value")
        (Result.◌>>◌
          (reject_if (not (length tx.tx_data == 68)) transaction "erc20 calldata must be 68 bytes")
          (Result.◌>>◌
            (reject_if (not (eqb (slice tx.tx_data 0 4) transfer_selector)) transaction
              "erc20 calldata selector mismatch")
            (Result.◌>>◌
              (reject_if (not (eqb (slice tx.tx_data 4 16) (replicate 12 0))) transaction
                "erc20 recipient padding non-zero")
              (Result.◌>>◌
                (reject_if (not (eqb (slice tx.tx_data 16 36) ps_to)) transaction
                  "erc20 recipient does not match pending spend")
                (reject_if (not (pos (be_from 0 (slice tx.tx_data 36 68)) ==ℤ ps.amount))
                  transaction "erc20 amount does not match pending spend"))))))

-- The status of a receipt.
unfoldable pub receipt_status : Bytes → Result ℕ
unfolding strip_type decode_list as_uint64
receipt_status receipt = elim (decode_list (strip_type receipt)) [
  | err e ↦ err (contract_error input "invalid receipt RLP")
  | ok items ↦
      if length items == 0
      then err (contract_error input "invalid receipt RLP")
      else ok (as_uint64 (get_or items 0 no_item))
]

-- `if ps.GasCost != nil && ps.GasCost.Sign() > 0 { addGasReserve }`
unfoldable pub refund_gas : Option ℤ → State → State
refund_gas none st = st
refund_gas (some cost) st = if ltb_ℤ (pos 0) cost then add_gas_reserve cost st else st

-- The spend succeeded (status 1) and is closed, or failed and is refunded and closed.
unfoldable pub settle : PendingSpend → (confirmed status : ℕ) → State → State
unfolding refund_gas
settle ps confirmed status st =
    if status == 1
    then set_confirmed_nonce (add64 confirmed 1) (delete_pending_spend confirmed st)
    else set_confirmed_nonce (add64 confirmed 1) (
        delete_pending_spend confirmed (
          refund_gas ps.gas_cost (
            restore_supply ps.asset ps.amount (inc_balance ps.from_account ps.asset ps.amount st))))

module _ (env : Env) where
  -- The submitted bytes are those proven under `root` at `tx_index`.
  unfoldable pub proven_bytes :
      (root : Bytes) → (tx_index : ℕ) → (hex_text proof_hex : Bytes) → Result Bytes
  proven_bytes root tx_index hex_text proof_hex =
      Result.◌>>=◌ (present (decode_string hex_text) invalid_hex "hex") λ raw.
        Result.◌>>=◌ (present (decode_string proof_hex) invalid_hex "proof_hex") λ proof.
          Result.◌>>=◌
            (verify_proof env.keccak256 root (encode_uint64 tx_index) (split_proof_nodes proof))
            λ proven.
              if eqb proven raw
              then ok raw
              else err (contract_error transaction "bytes do not match proof")

  -- The signature is the vault's of the time when the spend was queued.
  unfoldable pub check_signer : Bytes → ParsedTx → PendingSpend → Result (Unit {0})
  unfolding vault_missing
  check_signer raw tx ps =
      if vault_missing ps
      then err (contract_error plain "VaultAtQueue is zero")
      else Result.◌>>=◌ (hex_to_address ps.vault_at_queue) λ vault.
        Result.◌>>=◌
          (present
            (ecrecover_dispatch env.ecrecover_strict (compute_tx_sighash env.keccak256 raw tx)
              ((27 + tx.sig_v) % 256) (pad_to_32 tx.sig_r) (pad_to_32 tx.sig_s))
            transaction "ecrecover")
          λ sender.
            if eqb sender zero_address
            then err (contract_error transaction "ecrecover returned zero address")
            else if eqb sender vault
            then ok tt
            else err (contract_error transaction "tx not signed by vault at queue time")

  -- The transaction that is proved is the payment of the spend.
  unfoldable pub check_spend_tx : Bytes → PendingSpend → (chain_id : ℕ) → Result (Unit {0})
  unfolding check_signer check_native_payment check_token_payment
  check_spend_tx raw ps chain_id = Result.◌>>=◌ (parse_transaction raw) λ tx.
      Result.◌>>◌
        (reject_if (not (tx.nonce == ps.nonce)) transaction "tx nonce does not match pending spend")
        (Result.◌>>◌
          (reject_if (not (tx.chain_id == chain_id)) transaction
            "tx chain id does not match contract chain id")
          (Result.◌>>◌ (check_signer raw tx ps) (
            Result.◌>>=◌ (hex_to_address ps.to_address) λ ps_to.
              if eqb ps.asset (bytes "eth")
              then check_native_payment tx ps ps_to
              else check_token_payment tx ps ps_to)))

  -- All checks of `HandleConfirmSpend`; the result is the spend and the status of its receipt.
  unfoldable pub check_confirm : ConfirmSpendRequest → (chain_id : ℕ) → Action (PendingSpend × ℕ)
  unfolding require_running
  check_confirm req chain_id = do
    require_running
    confirmed ← gets get_confirmed_nonce
    stored ← gets (λ st. get_pending_spend st confirmed)
    ps ← lift (present stored intent "no pending spend at confirmed nonce")
    lift (check_intent req ps confirmed)
    fail_if (leb req.block_height ps.block_height) intent
        "confirmation block must be after withdrawal block"
    found ← gets (λ st. get_header env st req.block_height)
    header ← lift (present found state_access "block header not found")
    raw ← lift (proven_bytes header.transactions_root req.tx_index req.tx_hex req.tx_proof_hex)
    lift (check_spend_tx raw ps chain_id)
    receipt ←
        lift (proven_bytes header.receipts_root req.tx_index req.receipt_hex req.receipt_proof_hex)
    status ← lift (receipt_status receipt)
    pure (ps, status)

  unfoldable pub handle_confirm_spend : ConfirmSpendRequest → (chain_id : ℕ) → Action (Unit {0})
  handle_confirm_spend req chain_id = do
    checked ← check_confirm req chain_id
    confirmed ← gets get_confirmed_nonce
    modify (settle checked.0 confirmed checked.1)
