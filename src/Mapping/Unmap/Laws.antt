-- ===== src/Mapping/Unmap/Laws.antt =====
-- `HandleUnmapETH` and `HandleUnmapERC20`, part by part.
use account_mapping.Prelude.{
  ℕ, ◌≡◌, inl, inr, true, false, none, [], Bytes, bytes, if◌then◌else◌, arith, ℤ, ◌+ℤ◌, ◌≤ℤ◌,
}
use account_mapping.Codec.Hex.{address_to_hex, encode_to_string}
use account_mapping.Result.{ok}
use account_mapping.Host.State.{State, Env, PendingSpend, add64}
use account_mapping.Host.Action.Laws.{Result-cases}
use account_mapping.Chain.Header.{EthBlockHeader, get_last_height}
use account_mapping.Mapping.Balance.{get_balance, set_balance, dec_balance}
use account_mapping.Mapping.Supply.{get_supply, set_supply, book_native_withdrawal}
use account_mapping.Mapping.Gas.{safe_gas_fee}
use account_mapping.Mapping.Registry.{is_paused, tss_key_missing, tss_sign}
use account_mapping.Mapping.Withdrawal.{
  has_pending_withdrawal, get_pending_nonce, set_pending_nonce, store_pending_spend,
  eth_transfer_gas, build_eth_withdrawal_tx, compute_sighash,
}
use account_mapping.Mapping.Transfers.{TransferParams, positive_amount}
use account_mapping.Mapping.Unmap.{
  EthPlan, min_eth_withdrawal, gas_tip_cap, check_unmap_eth, commit_unmap_eth, check_unmap_erc20,
  destination, tip_header,
}

-- The checks write nothing.
pub check_unmap_eth-reads :
    (env : Env) (p : TransferParams) (st : State) → (check_unmap_eth env p st).1 ≡ st
unfolding check_unmap_eth
check_unmap_eth-reads env p st = ground arith

pub check_unmap_erc20-reads :
    (env : Env) (p : TransferParams) (chain_id : ℕ) (st : State)
    → (check_unmap_erc20 env p chain_id st).1 ≡ st
unfolding check_unmap_erc20
check_unmap_erc20-reads env p chain_id st = ground arith

-- What the checks of a native withdrawal establish.
pub record EthChecked (env : Env) (p : TransferParams) (st : State) (plan : EthPlan) : Type 0 where
  pub running : is_paused st ≡ false
  pub idle : has_pending_withdrawal st ≡ false
  pub parsed : positive_amount p.amount_text ≡ ok plan.amount
  pub above_minimum : min_eth_withdrawal ≤ℤ plan.amount
  pub to_valid : destination p.to_address ≡ ok plan.to_address
  pub covered : plan.total_deduct ≤ℤ get_balance st env.caller (bytes "eth")
  pub header : EthBlockHeader
  pub fee : ℤ
  pub tip : tip_header env st ≡ ok header
  pub priced :
      safe_gas_fee eth_transfer_gas header.base_fee_per_gas 2 gas_tip_cap ≡ ok (plan.fee_cap, fee)
  pub total_is : plan.total_deduct ≡ (if p.deduct_fee then plan.amount else plan.amount +ℤ fee)

pub check_unmap_eth-ok :
    (env : Env) (p : TransferParams) (st : State) (plan : EthPlan)
    → (check_unmap_eth env p st).0 ≡ ok plan
    → EthChecked env p st plan
unfolding check_unmap_eth
check_unmap_eth-ok env p st plan h = elim (Result-cases (tip_header env st)) [
  | inl (header, e) ↦
      elim (Result-cases (safe_gas_fee eth_transfer_gas header.base_fee_per_gas 2 gas_tip_cap)) [
        | inl (priced, f) ↦ record {
          running = ground arith;
          idle = ground arith;
          parsed = ground arith;
          above_minimum = ground arith;
          to_valid = ground arith;
          covered = ground arith;
          header = header;
          fee = priced.1;
          tip = e;
          priced = ground arith;
          total_is = ground arith;
        }
        | inr (x, f) ↦ absurd (ground arith)
      ]
  | inr (x, e) ↦ absurd (ground arith)
]

-- The transaction that a native withdrawal signs.
abbrev pub eth_tx : State → EthPlan → (chain_id : ℕ) → Bytes
eth_tx st plan chain_id =
    build_eth_withdrawal_tx chain_id (get_pending_nonce st) gas_tip_cap plan.fee_cap plan.to_address
      plan.amount

-- The spend that it stores.
abbrev pub eth_spend :
    Env → TransferParams → State → EthPlan → (vault : Bytes) → (chain_id : ℕ) → PendingSpend
eth_spend env p st plan vault chain_id = record {
  nonce = get_pending_nonce st;
  amount = plan.amount;
  from_account = env.caller;
  to_address = p.to_address;
  asset = bytes "eth";
  unsigned_tx_hex = encode_to_string (eth_tx st plan chain_id);
  block_height = get_last_height env st;
  vault_at_queue = address_to_hex vault;
  token_address = [];
  gas_cost = none;
}

-- The storage after the debit and the booking.
abbrev pub eth_booked : Env → State → EthPlan → (chain_id : ℕ) → State
eth_booked env st plan chain_id =
    let signed = tss_sign (compute_sighash env (eth_tx st plan chain_id)) st in
    let debited = (dec_balance env.caller (bytes "eth") plan.total_deduct signed).1 in
    set_supply (bytes "eth")
      (book_native_withdrawal plan.amount plan.total_deduct (get_supply debited (bytes "eth")))
      debited

-- Neither the signature, nor the debit, nor the booking moves the last height.
get_last_height-eth_booked :
    (env : Env) (st : State) (plan : EthPlan) (chain_id : ℕ)
    → get_last_height env (eth_booked env st plan chain_id) ≡ get_last_height env st
unfolding get_last_height set_supply dec_balance set_balance tss_sign
get_last_height-eth_booked env st plan chain_id = ground arith

-- The writes of a native withdrawal, once there is a key and the debit goes through.
pub commit_unmap_eth-ok :
    (env : Env) (p : TransferParams) (plan : EthPlan) (vault : Bytes) (chain_id : ℕ) (st : State)
    {tx : Bytes} {st' : State}
    → commit_unmap_eth env p plan vault chain_id st ≡ (ok tx, st')
    → (tss_key_missing env ≡ false)
      × ((dec_balance env.caller
            (bytes "eth")
            plan.total_deduct
            (tss_sign (compute_sighash env (eth_tx st plan chain_id)) st)).0
          ≡ true)
      × (tx ≡ encode_to_string (eth_tx st plan chain_id))
      × (st'
          ≡ set_pending_nonce (add64 (get_pending_nonce st) 1) (
              store_pending_spend
                (eth_spend env p st plan vault chain_id)
                (eth_booked env st plan chain_id)))
unfolding commit_unmap_eth
commit_unmap_eth-ok env p plan vault chain_id st h =
    ground (arith, get_last_height-eth_booked env st plan chain_id)
