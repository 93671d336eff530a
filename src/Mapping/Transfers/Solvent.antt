-- ===== src/Mapping/Transfers/Solvent.antt =====
-- Transfers between the accounts that back a user total (contract/mapping/handlers.go, `HandleTransfer`).
use account_mapping.Prelude.{◌≡◌, refl, ◌∙◌, true, List, Bytes, ℤ, pos, ◌+ℤ◌, ◌-ℤ◌, ◌≤ℤ◌, int_laws}
use account_mapping.Result.{ok}
use account_mapping.Host.State.{State, Env}
use account_mapping.Mapping.Balance.{get_balance, set_balance, inc_balance}
use account_mapping.Mapping.Balance.Laws.{contains, IsDistinct}
use account_mapping.Mapping.Supply.{get_supply}
use account_mapping.Mapping.Transfers.{TransferParams, handle_transfer}
use account_mapping.Mapping.Transfers.Laws.{dec_balance_lem, handle_transfer-ok}
use account_mapping.Mapping.Transfers.Conserve.{transfer_conserves}
use account_mapping.Mapping.Solvency.{
  AllNonneg, AllNonneg-set_balance, IsSolvent, get_balance-le-total,
}

get_supply-set_balance :
    (a s t : Bytes) (v : ℤ) (st : State) → get_supply (set_balance a s v st) t ≡ get_supply st t
unfolding get_supply set_balance
get_supply-set_balance a s t v st = refl

get_supply-inc_balance :
    (a s t : Bytes) (v : ℤ) (st : State) → get_supply (inc_balance a s v st) t ≡ get_supply st t
unfolding inc_balance
get_supply-inc_balance a s t v st = get_supply-set_balance a s t (get_balance st a s +ℤ v) st

AllNonneg-inc_balance :
    (a s : Bytes) (v : ℤ) (st : State) (accounts : List Bytes)
    → contains a accounts ≡ true
    → pos 0 ≤ℤ v
    → AllNonneg st s accounts
    → AllNonneg (inc_balance a s v st) s accounts
unfolding inc_balance
AllNonneg-inc_balance a s v st accounts m p h =
    let (_, low) = get_balance-le-total st a s accounts h m in
    AllNonneg-set_balance a s (get_balance st a s +ℤ v) st accounts (omega (int_laws, low)) h

-- A transfer that succeeds keeps its asset backed: where the user total is what a duplicate-free list
-- of accounts with the caller and the recipient holds, none of them less than zero, that is still so
-- after it.
pub transfer-IsSolvent :
    (env : Env) (p : TransferParams) (st : State) {st' : State} (accounts : List Bytes)
    → handle_transfer env p st ≡ (ok tt, st')
    → IsDistinct accounts
    → contains env.caller accounts ≡ true
    → contains p.to_address accounts ≡ true
    → IsSolvent p.asset accounts st
    → IsSolvent p.asset accounts st'
transfer-IsSolvent env p st {st'} accounts h d ha hb solvent =
    let (v, _, _, debited, written) = handle_transfer-ok env p st h in
    let (positive, covered, after) = dec_balance_lem env.caller p.asset v st debited in
    let debit_st = set_balance env.caller p.asset (get_balance st env.caller p.asset -ℤ v) st in
    let kept = transfer_conserves env p st accounts h d ha hb in
    let low =
      AllNonneg-set_balance env.caller p.asset (get_balance st env.caller p.asset -ℤ v) st accounts
        (omega (int_laws, covered)) solvent.nonneg in
    let low_end =
      AllNonneg-inc_balance p.to_address p.asset v debit_st accounts hb (omega (int_laws, positive))
        low in
    let same : get_supply st' p.asset ≡ get_supply st p.asset =
      rw (written, after)
        (get_supply-inc_balance p.to_address p.asset p.asset v debit_st
          ∙ get_supply-set_balance env.caller p.asset p.asset
              (get_balance st env.caller p.asset -ℤ v) st) in
    record { backed = cc (solvent.backed, kept, same); nonneg = rw (written, after) low_end }
