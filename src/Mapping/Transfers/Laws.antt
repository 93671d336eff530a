-- ===== src/Mapping/Transfers/Laws.antt =====
-- What the transfers do to the ledger (contract/mapping/handlers.go, balance.go).
use account_mapping.Prelude.{
  ◌≡◌, refl, inl, inr, true, false, List, [], ◌∷◌, Bytes, eqb, arith, ℤ, pos, ◌+ℤ◌, ◌-ℤ◌, ◌≤ℤ◌,
  ◌<ℤ◌, int_laws,
}
use account_mapping.Result.{ok}
use account_mapping.Host.State.{State, Env}
use account_mapping.Host.Action.Laws.{Result-cases}
use account_mapping.Mapping.Balance.{
  get_balance, set_balance, inc_balance, dec_balance, get_allowance, set_allowance,
}
use account_mapping.Mapping.Balance.Laws.{
  get_balance-set_allowance, contains, IsDistinct, total, total-set_balance,
}
use account_mapping.Mapping.Transfers.{
  TransferParams, positive_amount, handle_transfer, handle_transfer_from,
}

pub positive_amount-pos : (text : Bytes) {v : ℤ} → positive_amount text ≡ ok v → pos 0 <ℤ v
unfolding positive_amount
positive_amount-pos text h = ground arith

-- A debit that goes through.
pub dec_balance_lem :
    (a s : Bytes) (v : ℤ) (st : State)
    → (dec_balance a s v st).0 ≡ true
    → (pos 0 <ℤ v)
      × (v ≤ℤ get_balance st a s)
      × ((dec_balance a s v st).1 ≡ set_balance a s (get_balance st a s -ℤ v) st)
unfolding dec_balance
dec_balance_lem a s v st h = ground arith

-- A debit that is refused writes nothing.
pub dec_balance_refused :
    (a s : Bytes) (v : ℤ) (st : State)
    → (dec_balance a s v st).0 ≡ false
    → (dec_balance a s v st).1 ≡ st
unfolding dec_balance
dec_balance_refused a s v st h = ground arith

-- A credit raises what a list of accounts holds, and a debit lowers it.
pub total-inc_balance :
    (a s : Bytes) (v : ℤ) (st : State) (accounts : List Bytes)
    → IsDistinct accounts
    → contains a accounts ≡ true
    → total (inc_balance a s v st) s accounts ≡ total st s accounts +ℤ v
unfolding inc_balance
total-inc_balance a s v st accounts d h =
    grind (int_laws, total-set_balance a s (get_balance st a s +ℤ v) st accounts d h)

pub total-dec_balance :
    (a s : Bytes) (v : ℤ) (st : State) (accounts : List Bytes)
    → (dec_balance a s v st).0 ≡ true
    → IsDistinct accounts
    → contains a accounts ≡ true
    → total (dec_balance a s v st).1 s accounts ≡ total st s accounts -ℤ v
total-dec_balance a s v st accounts debited d h =
    let (_, _, written) = dec_balance_lem a s v st debited in
    rw written (grind (int_laws, total-set_balance a s (get_balance st a s -ℤ v) st accounts d h))

-- Allowances are no balances.
pub total-set_allowance :
    (o q t s : Bytes) (v : ℤ) (st : State) (accounts : List Bytes)
    → total (set_allowance o q t v st) s accounts ≡ total st s accounts
unfolding total
total-set_allowance o q t s v st [] = refl
total-set_allowance o q t s v st (a ∷ as₁) =
    cc (get_balance-set_allowance o q t a s v st, total-set_allowance o q t s v st as₁)

-- The allowances after a debit or a credit are those before.
pub get_allowance-inc_balance :
    (a s o q t : Bytes) (v : ℤ) (st : State)
    → get_allowance (inc_balance a s v st) o q t ≡ get_allowance st o q t
unfolding get_allowance inc_balance set_balance
get_allowance-inc_balance a s o q t v st = refl

-- A transfer that succeeds: the amount is positive, the recipient is not empty, the debit goes
-- through and the credit follows.
pub handle_transfer-ok :
    (env : Env) (p : TransferParams) (st : State) {st' : State}
    → handle_transfer env p st ≡ (ok tt, st')
    → (v : ℤ) × (positive_amount p.amount_text ≡ ok v)
      × (eqb p.to_address [] ≡ false)
      × ((dec_balance env.caller p.asset v st).0 ≡ true)
      × (st' ≡ inc_balance p.to_address p.asset v (dec_balance env.caller p.asset v st).1)
unfolding handle_transfer
handle_transfer-ok env p st h = elim (Result-cases (positive_amount p.amount_text)) [
  | inl (v, e) ↦ (v, e, ground arith, ground arith, ground arith)
  | inr (x, e) ↦ absurd (ground arith)
]

-- A transfer on behalf of an owner that succeeds.
pub handle_transfer_from-ok :
    (env : Env) (p : TransferParams) (st : State) {st' : State}
    → handle_transfer_from env p st ≡ (ok tt, st')
    → (v : ℤ) × (positive_amount p.amount_text ≡ ok v)
      × (v ≤ℤ get_allowance st p.from_account env.caller p.asset)
      × ((dec_balance p.from_account p.asset v st).0 ≡ true)
      × (st'
          ≡ inc_balance p.to_address p.asset v (
              set_allowance p.from_account env.caller p.asset
                (get_allowance st p.from_account env.caller p.asset -ℤ v)
                (dec_balance p.from_account p.asset v st).1))
unfolding handle_transfer_from
handle_transfer_from-ok env p st h = elim (Result-cases (positive_amount p.amount_text)) [
  | inl (v, e) ↦ (v, e, ground arith, ground arith, ground arith)
  | inr (x, e) ↦ absurd (ground arith)
]
