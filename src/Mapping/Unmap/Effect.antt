-- ===== src/Mapping/Unmap/Effect.antt =====
-- What a native withdrawal that succeeds has written (`HandleUnmapETH`).
use account_mapping.Prelude.{
  ℕ, ◌≡◌, refl, ◌∙◌, true, List, ◌∷◌, Bytes, bytes, eqb_refl, arith, ℤ, ◌-ℤ◌, ◌≤ℤ◌, int_laws,
}
use account_mapping.Codec.Hex.{encode_to_string}
use account_mapping.Result.{ok}
use account_mapping.Host.State.{State, Env, PendingSpend, Supply, add64, set_num}
use account_mapping.Mapping.Balance.{get_balance, set_balance, dec_balance}
use account_mapping.Mapping.Balance.Laws.{get_balance-set_balance_asset, contains, IsDistinct}
use account_mapping.Mapping.Supply.{get_supply, set_supply, book_native_withdrawal}
use account_mapping.Mapping.Registry.{tss_sign}
use account_mapping.Mapping.Withdrawal.{
  get_pending_nonce, get_confirmed_nonce, set_pending_nonce, store_pending_spend, compute_sighash,
}
use account_mapping.Mapping.Transfers.{TransferParams}
use account_mapping.Mapping.Transfers.Laws.{dec_balance_lem}
use account_mapping.Mapping.Solvency.{IsSolvent, get_balance-le-total, IsSolvent-debit}
use account_mapping.Mapping.Unmap.{EthPlan, handle_unmap_eth}
use account_mapping.Mapping.Unmap.Laws.{
  EthChecked, eth_tx, eth_spend, eth_booked, commit_unmap_eth-ok,
}
use account_mapping.Mapping.Unmap.Native.{
  handle_unmap_eth-ok, dec_balance-covered, total_deduct-bounds,
}

-- The supply after `set_supply`.
pub get_supply-set_supply :
    (s : Bytes) (v : Supply) (st : State) → get_supply (set_supply s v st) s ≡ v
unfolding get_supply set_supply
get_supply-set_supply s v st = rw (eqb_refl s)

-- The queue, the booking and the spend do not touch balances.
balances-end :
    (n : ℕ) (ps : PendingSpend) (v : Supply) (st : State)
    → (set_pending_nonce n (store_pending_spend ps (set_supply (bytes "eth") v st))).balances
      ≡ st.balances
unfolding set_pending_nonce store_pending_spend set_supply
balances-end n ps v st = refl

supply-end :
    (n : ℕ) (ps : PendingSpend) (st : State) (s : Bytes)
    → get_supply (set_pending_nonce n (store_pending_spend ps st)) s ≡ get_supply st s
unfolding set_pending_nonce store_pending_spend get_supply
supply-end n ps st s = refl

supply-debit :
    (a s t hash : Bytes) (v : ℤ) (st : State)
    → get_supply (dec_balance a s v (tss_sign hash st)).1 t ≡ get_supply st t
unfolding dec_balance set_balance tss_sign get_supply
supply-debit a s t hash v st = ground arith

-- What the writes of a native withdrawal are.
pub record EthUnmapped (env : Env) (p : TransferParams) (vault : Bytes) (chain_id : ℕ) (st : State)
    (plan : EthPlan) (st' : State) : Type 0 where
  pub queued :
      st'.spends ≡ set_num (get_pending_nonce st) (eth_spend env p st plan vault chain_id) st.spends
  pub next : get_pending_nonce st' ≡ add64 (get_pending_nonce st) 1
  pub same_head : get_confirmed_nonce st' ≡ get_confirmed_nonce st
  pub signed : st'.signed ≡ compute_sighash env (eth_tx st plan chain_id) ∷ st.signed
  pub debited :
      get_balance st' env.caller (bytes "eth")
      ≡ get_balance st env.caller (bytes "eth") -ℤ plan.total_deduct
  pub ledger :
      st'.balances
      ≡ (set_balance env.caller
          (bytes "eth")
          (get_balance st env.caller (bytes "eth") -ℤ plan.total_deduct)
          st).balances
  pub booked :
      get_supply st' (bytes "eth")
      ≡ book_native_withdrawal plan.amount plan.total_deduct (get_supply st (bytes "eth"))

-- The state after the debit, booking and queueing, field by field.
eth_written :
    (env : Env) (p : TransferParams) (vault : Bytes) (chain_id : ℕ) (st : State) (plan : EthPlan)
    → (dec_balance env.caller
        (bytes "eth")
        plan.total_deduct
        (tss_sign (compute_sighash env (eth_tx st plan chain_id)) st)).0
      ≡ true
    → EthUnmapped env p vault chain_id st plan (
        set_pending_nonce (add64 (get_pending_nonce st) 1) (
          store_pending_spend
            (eth_spend env p st plan vault chain_id)
            (eth_booked env st plan chain_id)))
unfolding set_pending_nonce get_pending_nonce get_confirmed_nonce store_pending_spend set_supply
    get_supply set_balance get_balance tss_sign
eth_written env p vault chain_id st plan done =
    let hash = compute_sighash env (eth_tx st plan chain_id) in
    let e =
      (dec_balance_lem env.caller (bytes "eth") plan.total_deduct (tss_sign hash st) done).2 in
    record {
      queued = rw e;
      next = refl;
      same_head = rw e;
      signed = rw e;
      debited = rw e (
          get_balance-set_balance_asset env.caller env.caller (bytes "eth")
            (get_balance st env.caller (bytes "eth") -ℤ plan.total_deduct) (tss_sign hash st)
          ∙ rw (eqb_refl env.caller));
      ledger = rw e;
      booked = rw (e, eqb_refl (bytes "eth"));
    }

pub unmap_eth_effect :
    (env : Env) (p : TransferParams) (vault : Bytes) (chain_id : ℕ) (st : State) {tx : Bytes}
    {st' : State}
    → handle_unmap_eth env p vault chain_id st ≡ (ok tx, st')
    → (plan : EthPlan) × EthChecked env p st plan
      × EthUnmapped env p vault chain_id st plan st'
      × (tx ≡ encode_to_string (eth_tx st plan chain_id))
unmap_eth_effect env p vault chain_id st {tx} {st'} h =
    let (plan, checked, committed) = handle_unmap_eth-ok env p vault chain_id st h in
    let (_, debited, out, written) = commit_unmap_eth-ok env p plan vault chain_id st committed in
    (plan, checked, rw written (eth_written env p vault chain_id st plan debited), out)

-- Where the total covers the debit, the clamp at zero has nothing to do.
booked-user :
    (amount total_deduct : ℤ) (s : Supply)
    → total_deduct ≤ℤ s.user
    → (book_native_withdrawal amount total_deduct s).user ≡ s.user -ℤ total_deduct
unfolding book_native_withdrawal
booked-user amount total_deduct s h = grind (int_laws, arith)

-- A native withdrawal keeps the ledger of native money: where the user total is what a
-- duplicate-free list of accounts with the caller holds, none of them less than zero, that is still
-- so after it, the booking's clamps at zero included.
pub unmap_eth-IsSolvent :
    (env : Env) (p : TransferParams) (vault : Bytes) (chain_id : ℕ) (st : State) {tx : Bytes}
    {st' : State} (accounts : List Bytes)
    → handle_unmap_eth env p vault chain_id st ≡ (ok tx, st')
    → IsDistinct accounts
    → contains env.caller accounts ≡ true
    → IsSolvent (bytes "eth") accounts st
    → IsSolvent (bytes "eth") accounts st'
unmap_eth-IsSolvent env p vault chain_id st {tx} {st'} accounts h d m solvent =
    let (plan, checked, effect, _) = unmap_eth_effect env p vault chain_id st h in
    let (positive, larger) = total_deduct-bounds env p st plan checked in
    let (bound, _) = get_balance-le-total st env.caller (bytes "eth") accounts solvent.nonneg m in
    let done =
      dec_balance-covered env.caller (bytes "eth") plan.total_deduct st (omega arith)
        checked.covered in
    let after = (dec_balance_lem env.caller (bytes "eth") plan.total_deduct st done).2 in
    let total_fits : plan.total_deduct ≤ℤ (get_supply st (bytes "eth")).user =
      rw solvent.backed (omega (arith, bound, checked.covered)) in
    IsSolvent-debit env.caller (bytes "eth") plan.total_deduct accounts st st' d m done
      (rw after effect.ledger)
      (rw effect.booked
        (booked-user plan.amount plan.total_deduct (get_supply st (bytes "eth")) total_fits))
      solvent
