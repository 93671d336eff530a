-- ===== src/Mapping/UnmapFrom.antt =====
-- contract/mapping/handlers.go: `HandleUnmapFrom`.
pub mod Laws
pub mod Effect
use account_mapping.Prelude.{
  ℕ, Bool, true, false, ◌&&◌, not, Option, none, some, List, [], ◌∷◌, ◌++◌, Bytes, bytes,
  if◌then◌else◌, eqb, ℤ, pos, ◌+ℤ◌, ◌-ℤ◌, ltb_ℤ,
}
use account_mapping.Codec.Hex.{hex_to_address, zero_address, address_to_hex, encode_to_string}
use account_mapping.Result.{
  Result, ok, err, present, or_else, contract_error, input, intent, balance, arithmetic,
  transaction,
}
use account_mapping.Host.State.{State, Env, PendingSpend, add64}
use account_mapping.Host.Action.{Action, pure, lift, gets, modify, fail_if, ◌>>=◌, ◌>>◌}
use account_mapping.Chain.Header.{get_last_height}
use account_mapping.Mapping.Balance.{get_balance, get_allowance, set_allowance}
use account_mapping.Mapping.Supply.{track_withdrawal}
use account_mapping.Mapping.Gas.{safe_gas_fee, deduct_gas_reserve}
use account_mapping.Mapping.Registry.{get_token_info, tss_sign}
use account_mapping.Mapping.Withdrawal.{
  get_pending_nonce, set_pending_nonce, store_pending_spend, eth_transfer_gas, erc20_transfer_gas,
  build_eth_withdrawal_tx, build_erc20_withdrawal_tx, compute_sighash,
}
use account_mapping.Mapping.Transfers.{TransferParams, positive_amount, debit}
use account_mapping.Mapping.Unmap.{
  min_eth_withdrawal, gas_tip_cap, check_max_fee, destination, require_idle, tip_header,
  require_gas_reserve, require_tss_key,
}

-- What the checks hand to the part that writes; the token is zero on the native path.
pub record FromPlan : Type 0 where
  pub amount : ℤ
  pub to_address : Bytes
  pub base_fee : ℕ
  pub fee_cap : ℕ
  pub token : Bytes
  pub allowance : ℤ
  pub total_deduct : ℤ

-- `params.Asset == "eth"`
abbrev pub is_native : TransferParams → Bool
is_native p = eqb p.asset (bytes "eth")

module _ (env : Env) where
  -- The token at `token_address`: registered, above its minimum. Its symbol is not compared.
  unfoldable pub check_token : TransferParams → (chain_id : ℕ) → ℤ → Action Bytes
  check_token p chain_id amount = do
    fail_if (eqb p.token_address []) input "token_address required"
    token ← lift (hex_to_address p.token_address)
    registered ← gets (λ st. get_token_info st chain_id token)
    info ← lift (present registered input "token not registered")
    fail_if (ltb_ℤ amount info.min_withdrawal) intent "below minimum withdrawal for this token"
    require_gas_reserve balance "insufficient gas reserve for ERC-20 withdrawal"
    pure token

  unfoldable pub check_native : Action Bytes
  check_native = do require_gas_reserve transaction "insufficient gas reserve"; pure zero_address

  -- The debit of the native path: the amount with the fee, which the owner must hold.
  unfoldable pub native_total : TransferParams → (base_fee : ℕ) → ℤ → Action ℤ
  native_total p base_fee amount = do
    priced ← lift (
        or_else (safe_gas_fee eth_transfer_gas base_fee 2 gas_tip_cap) arithmetic
          "gas fee computation overflow")
    lift (check_max_fee transaction p.max_fee priced.1)
    let total = if p.deduct_fee then amount else amount +ℤ priced.1
    held ← gets (λ st. get_balance st p.from_account (bytes "eth"))
    fail_if (ltb_ℤ held total) transaction "insufficient balance in owner account"
    pure total

  -- The two paths of the handler: the token, and the debit.
  unfoldable pub from_token : TransferParams → (chain_id : ℕ) → ℤ → Action Bytes
  from_token p chain_id amount st =
      if is_native p then check_native st else check_token p chain_id amount st

  unfoldable pub from_total : TransferParams → (base_fee : ℕ) → ℤ → Action ℤ
  from_total p base_fee amount st =
      if is_native p then native_total p base_fee amount st else (ok amount, st)

  -- `HandleUnmapFrom` down to "All validation passed"; nothing is written.
  unfoldable pub check_unmap_from : TransferParams → (chain_id : ℕ) → Action FromPlan
  unfolding require_idle require_tss_key
  check_unmap_from p chain_id = do
    require_idle
    amount ← lift (positive_amount p.amount_text)
    fail_if (is_native p && ltb_ℤ amount min_eth_withdrawal) intent "below minimum ETH withdrawal"
    require_tss_key env
    to_address ← lift (destination p.to_address)
    found ← gets (tip_header env)
    header ← lift found
    capped ← lift (
        or_else (safe_gas_fee 0 header.base_fee_per_gas 2 gas_tip_cap) arithmetic
          "gas fee computation overflow")
    token ← from_token p chain_id amount
    allowance ← gets (λ st. get_allowance st p.from_account env.caller p.asset)
    fail_if (ltb_ℤ allowance amount) balance "insufficient allowance"
    total ← from_total p header.base_fee_per_gas amount
    pure (record {
      amount = amount;
      to_address = to_address;
      base_fee = header.base_fee_per_gas;
      fee_cap = capped.0;
      token = token;
      allowance = allowance;
      total_deduct = total;
    })

  -- The transaction, and the gas that is taken from the reserve for it.
  unfoldable pub build_unmap_from :
      TransferParams → FromPlan → (chain_id nonce : ℕ) → Action (Bytes × Option ℤ)
  build_unmap_from p plan chain_id nonce =
      if is_native p
      then pure (
        build_eth_withdrawal_tx chain_id nonce gas_tip_cap plan.fee_cap plan.to_address plan.amount,
        none,
      )
      else (do
        unsigned ← lift (
            build_erc20_withdrawal_tx chain_id nonce gas_tip_cap plan.fee_cap plan.token
              plan.to_address plan.amount)
        priced ← lift (
            or_else (safe_gas_fee erc20_transfer_gas plan.base_fee 2 gas_tip_cap) arithmetic
              "gas fee computation overflow")
        modify (deduct_gas_reserve priced.1)
        pure (unsigned, some priced.1))

  unfoldable pub commit_unmap_from :
      TransferParams → FromPlan → (vault : Bytes) → (chain_id : ℕ) → Action (Unit {0})
  unfolding debit
  commit_unmap_from p plan vault chain_id = do
    debit p.from_account p.asset plan.total_deduct
    modify (set_allowance p.from_account env.caller p.asset (plan.allowance -ℤ plan.amount))
    track_withdrawal p.asset plan.amount
    nonce ← gets get_pending_nonce
    built ← build_unmap_from p plan chain_id nonce
    modify (tss_sign (compute_sighash env built.0))
    height ← gets (get_last_height env)
    modify (
        store_pending_spend (record {
          nonce = nonce;
          amount = plan.amount;
          from_account = p.from_account;
          to_address = p.to_address;
          asset = p.asset;
          unsigned_tx_hex = encode_to_string built.0;
          block_height = height;
          vault_at_queue = address_to_hex vault;
          token_address = if is_native p then [] else p.token_address;
          gas_cost = built.1;
        }))
    modify (set_pending_nonce (add64 nonce 1))

  unfoldable pub handle_unmap_from :
      TransferParams → (vault : Bytes) → (chain_id : ℕ) → Action (Unit {0})
  handle_unmap_from p vault chain_id = do
    plan ← check_unmap_from p chain_id
    commit_unmap_from p plan vault chain_id
