-- ===== src/Mapping/Unmap/Native.antt =====
-- What a native withdrawal does (`HandleUnmapETH`), on success and on failure.
use account_mapping.Prelude.{
  ℕ, ◌≡◌, refl, inl, inr, true, Bytes, bytes, arith, ℤ, pos, ◌≤ℤ◌, ◌<ℤ◌, int_laws,
}
use account_mapping.Result.{Error, ok, err}
use account_mapping.Host.State.{State, Env}
use account_mapping.Host.Action.Laws.{Result-cases}
use account_mapping.Mapping.Balance.{get_balance, dec_balance}
use account_mapping.Mapping.Gas.{safe_gas_fee}
use account_mapping.Mapping.Registry.{tss_sign}
use account_mapping.Mapping.Withdrawal.{compute_sighash, eth_transfer_gas}
use account_mapping.Mapping.Transfers.{TransferParams}
use account_mapping.Mapping.Transfers.Laws.{positive_amount-pos}
use account_mapping.Mapping.Unmap.{
  EthPlan, check_unmap_eth, commit_unmap_eth, handle_unmap_eth, gas_tip_cap,
}
use account_mapping.Mapping.Unmap.Laws.{
  EthChecked, check_unmap_eth-reads, check_unmap_eth-ok, eth_tx,
}

-- A debit that is positive and covered goes through.
pub dec_balance-covered :
    (a s : Bytes) (v : ℤ) (st : State)
    → pos 0 <ℤ v
    → v ≤ℤ get_balance st a s
    → (dec_balance a s v st).0 ≡ true
unfolding dec_balance
dec_balance-covered a s v st h k = ground arith

fee_nonneg :
    (units b m tip cap : ℕ) (fee : ℤ) → safe_gas_fee units b m tip ≡ ok (cap, fee) → pos 0 ≤ℤ fee
unfolding safe_gas_fee
fee_nonneg units b m tip cap fee h = ground arith

-- The amount that leaves the user is positive and no less than the amount that leaves the bridge.
pub total_deduct-bounds :
    (env : Env) (p : TransferParams) (st : State) (plan : EthPlan)
    → EthChecked env p st plan
    → (pos 0 <ℤ plan.amount) × (plan.amount ≤ℤ plan.total_deduct)
total_deduct-bounds env p st plan c = grind (
  int_laws,
  positive_amount-pos p.amount_text c.parsed,
  fee_nonneg eth_transfer_gas c.header.base_fee_per_gas 2 gas_tip_cap plan.fee_cap c.fee c.priced,
  c.total_is,
)

get_balance-tss_sign :
    (h a s : Bytes) (st : State) → get_balance (tss_sign h st) a s ≡ get_balance st a s
unfolding get_balance tss_sign
get_balance-tss_sign h a s st = refl

-- The two parts of a native withdrawal that succeeds.
pub handle_unmap_eth-ok :
    (env : Env) (p : TransferParams) (vault : Bytes) (chain_id : ℕ) (st : State) {tx : Bytes}
    {st' : State}
    → handle_unmap_eth env p vault chain_id st ≡ (ok tx, st')
    → (plan : EthPlan) × EthChecked env p st plan
      × (commit_unmap_eth env p plan vault chain_id st ≡ (ok tx, st'))
unfolding handle_unmap_eth
handle_unmap_eth-ok env p vault chain_id st h = elim (Result-cases (check_unmap_eth env p st).0) [
  | inl (plan, e) ↦
      (plan, check_unmap_eth-ok env p st plan e, ground (arith, check_unmap_eth-reads env p st))
  | inr (x, e) ↦ absurd (ground arith)
]

-- After the checks only a missing key stops a native withdrawal, and that before it writes.
commit_unmap_eth-err :
    (env : Env) (p : TransferParams) (plan : EthPlan) (vault : Bytes) (chain_id : ℕ) (st : State)
    (e : Error)
    → EthChecked env p st plan
    → (commit_unmap_eth env p plan vault chain_id st).0 ≡ err e
    → (commit_unmap_eth env p plan vault chain_id st).1 ≡ st
unfolding commit_unmap_eth
commit_unmap_eth-err env p plan vault chain_id st e c h =
    let hash = compute_sighash env (eth_tx st plan chain_id) in
    let (positive, larger) = total_deduct-bounds env p st plan c in
    ground (
      arith,
      dec_balance-covered env.caller (bytes "eth") plan.total_deduct (tss_sign hash st)
          (omega arith) (rw (get_balance-tss_sign hash env.caller (bytes "eth") st) c.covered),
    )

-- A native withdrawal that fails, on whatever check, has written nothing and asked for no
-- signature.
pub unmap_eth_atomic :
    (env : Env) (p : TransferParams) (vault : Bytes) (chain_id : ℕ) (st : State) {e : Error}
    → (handle_unmap_eth env p vault chain_id st).0 ≡ err e
    → (handle_unmap_eth env p vault chain_id st).1 ≡ st
unfolding handle_unmap_eth
unmap_eth_atomic env p vault chain_id st {e} h = elim (Result-cases (check_unmap_eth env p st).0) [
  | inl (plan, f) ↦ ground (
    arith,
    check_unmap_eth-reads env p st,
    commit_unmap_eth-err env p plan vault chain_id st e (check_unmap_eth-ok env p st plan f),
  )
  | inr (x, f) ↦ ground (arith, check_unmap_eth-reads env p st)
]
