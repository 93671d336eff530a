-- ===== src/Mapping/Unmap.antt =====
-- contract/mapping/handlers.go: `HandleUnmapETH` and `HandleUnmapERC20`.
pub mod Laws
pub mod Native
pub mod Effect
use account_mapping.Prelude.{
  ℕ, String, Bool, true, false, ◌||◌, not, Option, none, some, List, [], ◌∷◌, ◌++◌, Bytes, bytes,
  ltb, ◌==◌, if◌then◌else◌, eqb, ℤ, pos, ◌+ℤ◌, ltb_ℤ,
}
use account_mapping.Codec.Decimal.{set_string}
use account_mapping.Codec.Hex.{hex_to_address, zero_address, address_to_hex, encode_to_string}
use account_mapping.Result
use account_mapping.Result.{
  Result, Symbol, ok, err, reject_if, present, or_else, contract_error, input, intent, auth,
  balance, arithmetic, initialization,
}
use account_mapping.Host.State.{State, Env, PendingSpend, add64}
use account_mapping.Host.Action.{Action, pure, lift, gets, modify, fail_if, ◌>>=◌, ◌>>◌}
use account_mapping.Chain.Header.{EthBlockHeader, get_header, get_last_height}
use account_mapping.Mapping.Balance.{get_balance}
use account_mapping.Mapping.Supply.{
  get_supply, set_supply, book_native_withdrawal, track_withdrawal,
}
use account_mapping.Mapping.Gas.{safe_gas_fee, get_gas_reserve, deduct_gas_reserve}
use account_mapping.Mapping.Registry.{
  TokenInfo, is_paused, get_token_info, tss_key_missing, tss_sign,
}
use account_mapping.Mapping.Withdrawal.{
  get_pending_nonce, set_pending_nonce, has_pending_withdrawal, store_pending_spend,
  eth_transfer_gas, erc20_transfer_gas, build_eth_withdrawal_tx, build_erc20_withdrawal_tx,
  compute_sighash,
}
use account_mapping.Mapping.Transfers.{TransferParams, positive_amount, debit}

abbrev pub min_eth_withdrawal : ℤ
min_eth_withdrawal = pos 10_000_000_000_000_000

abbrev pub min_gas_reserve : ℤ
min_gas_reserve = pos 50_000_000_000_000_000

abbrev pub gas_tip_cap : ℕ
gas_tip_cap = 2_000_000_000

-- A cap on the fee: none is the empty text.
unfoldable pub check_max_fee : Symbol → (max_fee : Bytes) → (fee : ℤ) → Result (Unit {0})
unfolding set_string
check_max_fee symbol max_fee fee = if eqb max_fee [] then ok tt else elim (set_string max_fee) [
  | none ↦ err (contract_error input "invalid max_fee")
  | some cap ↦
      if ltb_ℤ cap (pos 0)
      then err (contract_error input "max_fee must be non-negative")
      else if ltb_ℤ cap fee
      then err (contract_error symbol "fee exceeds max_fee")
      else ok tt
]

-- The destination of a withdrawal: a well-formed address that is not zero.
unfoldable pub destination : Bytes → Result Bytes
destination text = Result.◌>>=◌ (hex_to_address text) λ addr.
    if eqb addr zero_address
    then err (contract_error input "refusing withdrawal to zero address")
    else ok addr

-- `HasPendingWithdrawal` and the pause switch, which stand in front of each unmap.
unfoldable pub require_idle : Action (Unit {0})
require_idle st = (
  if is_paused st
      then err (contract_error intent "contract is paused")
      else if has_pending_withdrawal st
      then err (contract_error intent "withdrawal pending: wait for confirmation")
      else ok tt,
  st,
)

-- The reserve is at its floor or above.
unfoldable pub require_gas_reserve : Symbol → String → Action (Unit {0})
require_gas_reserve symbol message st = (
  if ltb_ℤ (get_gas_reserve st) min_gas_reserve then err (contract_error symbol message) else ok tt,
  st,
)

-- What the checks of `HandleUnmapETH` hand to the part that writes.
pub record EthPlan : Type 0 where
  pub amount : ℤ
  pub to_address : Bytes
  pub fee_cap : ℕ
  pub total_deduct : ℤ

-- What the checks of `HandleUnmapERC20` hand on.
pub record TokenPlan : Type 0 where
  pub amount : ℤ
  pub token : Bytes
  pub info : TokenInfo
  pub recipient : Bytes
  pub fee_cap : ℕ
  pub gas_cost : ℤ

module _ (env : Env) where
  -- The header at the tip.
  unfoldable pub tip_header : State → Result EthBlockHeader
  tip_header st =
      present (get_header env st (get_last_height env st)) initialization
        "no block headers available"

  unfoldable pub require_tss_key : Action (Unit {0})
  require_tss_key = fail_if (tss_key_missing env) auth "TSS key not available"

  -- `HandleUnmapETH` down to the check of the balance; nothing is written.
  unfoldable pub check_unmap_eth : TransferParams → Action EthPlan
  unfolding require_idle require_gas_reserve
  check_unmap_eth p = do
    require_idle
    amount ← lift (positive_amount p.amount_text)
    fail_if (ltb_ℤ amount min_eth_withdrawal) intent "below minimum ETH withdrawal"
    to_address ← lift (destination p.to_address)
    found ← gets tip_header
    header ← lift found
    require_gas_reserve balance "insufficient gas reserve"
    priced ← lift (
        or_else (safe_gas_fee eth_transfer_gas header.base_fee_per_gas 2 gas_tip_cap) arithmetic
          "gas fee computation overflow")
    lift (check_max_fee input p.max_fee priced.1)
    let total_deduct = if p.deduct_fee then amount else amount +ℤ priced.1
    held ← gets (λ st. get_balance st env.caller (bytes "eth"))
    fail_if (ltb_ℤ held total_deduct) balance "insufficient balance"
    pure (record {
      amount = amount;
      to_address = to_address;
      fee_cap = priced.0;
      total_deduct = total_deduct;
    })

  -- The rest of `HandleUnmapETH`: sign, debit, book, store.
  unfoldable pub commit_unmap_eth :
      TransferParams → EthPlan → (vault : Bytes) → (chain_id : ℕ) → Action Bytes
  unfolding require_tss_key debit book_native_withdrawal
  commit_unmap_eth p plan vault chain_id = do
    nonce ← gets get_pending_nonce
    let unsigned =
        build_eth_withdrawal_tx chain_id nonce gas_tip_cap plan.fee_cap plan.to_address plan.amount
    require_tss_key
    modify (tss_sign (compute_sighash env unsigned))
    debit env.caller (bytes "eth") plan.total_deduct
    modify (λ st.
        set_supply (bytes "eth")
          (book_native_withdrawal plan.amount plan.total_deduct (get_supply st (bytes "eth"))) st)
    height ← gets (get_last_height env)
    modify (
        store_pending_spend (record {
          nonce = nonce;
          amount = plan.amount;
          from_account = env.caller;
          to_address = p.to_address;
          asset = bytes "eth";
          unsigned_tx_hex = encode_to_string unsigned;
          block_height = height;
          vault_at_queue = address_to_hex vault;
          token_address = [];
          gas_cost = none;
        }))
    modify (set_pending_nonce (add64 nonce 1))
    pure (encode_to_string unsigned)

  unfoldable pub handle_unmap_eth : TransferParams → (vault : Bytes) → (chain_id : ℕ) → Action Bytes
  handle_unmap_eth p vault chain_id = do
    plan ← check_unmap_eth p
    commit_unmap_eth p plan vault chain_id

  -- `HandleUnmapERC20` down to the gas price; the balance is not looked at yet.
  unfoldable pub check_unmap_erc20 : TransferParams → (chain_id : ℕ) → Action TokenPlan
  unfolding require_idle require_gas_reserve
  check_unmap_erc20 p chain_id = do
    require_idle
    amount ← lift (positive_amount p.amount_text)
    fail_if (eqb p.token_address []) input "token_address required for ERC-20 withdrawal"
    token ← lift (hex_to_address p.token_address)
    registered ← gets (λ st. get_token_info st chain_id token)
    info ← lift (present registered input "token not registered")
    fail_if (ltb_ℤ amount info.min_withdrawal) intent "below minimum withdrawal for this token"
    recipient ← lift (destination p.to_address)
    found ← gets tip_header
    header ← lift found
    require_gas_reserve balance "insufficient gas reserve for ERC-20 withdrawal"
    priced ← lift (
        or_else (safe_gas_fee erc20_transfer_gas header.base_fee_per_gas 2 gas_tip_cap) arithmetic
          "gas fee computation overflow")
    pure (record {
      amount = amount;
      token = token;
      info = info;
      recipient = recipient;
      fee_cap = priced.0;
      gas_cost = priced.1;
    })

  unfoldable pub commit_unmap_erc20 :
      TransferParams → TokenPlan → (vault : Bytes) → (chain_id : ℕ) → Action Bytes
  unfolding require_tss_key debit
  commit_unmap_erc20 p plan vault chain_id = do
    nonce ← gets get_pending_nonce
    unsigned ← lift (
        build_erc20_withdrawal_tx chain_id nonce gas_tip_cap plan.fee_cap plan.token plan.recipient
          plan.amount)
    require_tss_key
    modify (tss_sign (compute_sighash env unsigned))
    debit env.caller plan.info.symbol plan.amount
    track_withdrawal plan.info.symbol plan.amount
    modify (deduct_gas_reserve plan.gas_cost)
    height ← gets (get_last_height env)
    modify (
        store_pending_spend (record {
          nonce = nonce;
          amount = plan.amount;
          from_account = env.caller;
          to_address = p.to_address;
          asset = plan.info.symbol;
          unsigned_tx_hex = encode_to_string unsigned;
          block_height = height;
          vault_at_queue = address_to_hex vault;
          token_address = p.token_address;
          gas_cost = some plan.gas_cost;
        }))
    modify (set_pending_nonce (add64 nonce 1))
    pure (encode_to_string unsigned)

  unfoldable pub handle_unmap_erc20 :
      TransferParams → (vault : Bytes) → (chain_id : ℕ) → Action Bytes
  handle_unmap_erc20 p vault chain_id = do
    plan ← check_unmap_erc20 p chain_id
    commit_unmap_erc20 p plan vault chain_id
