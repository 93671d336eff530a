-- ===== src/Mapping/Transfers/Conserve.antt =====
-- Transfers move money and make none; a refused one changes nothing.
use account_mapping.Prelude.{
  ◌≡◌, ◌∙◌, ap, true, false, List, ◌++◌, append_assoc, Bytes, bytes, eqb, eqb_iff, inl, inr, arith,
  ℤ, pos, ◌+ℤ◌, ◌-ℤ◌, ◌≤ℤ◌, ◌<ℤ◌, int_laws,
}
use account_mapping.Result.{Error, ok, err}
use account_mapping.Host.State.{State, Env}
use account_mapping.Host.Action.Laws.{Result-cases}
use account_mapping.Mapping.Balance.{
  balance_key, stored_amount, get_balance, set_balance, inc_balance, dec_balance, get_allowance,
  set_allowance,
}
use account_mapping.Mapping.Balance.Laws.{
  get_balance-set_balance_asset, get_allowance-set_allowance, contains, IsDistinct, total,
}
use account_mapping.Mapping.Transfers.{
  TransferParams, positive_amount, handle_transfer, handle_transfer_from,
}
use account_mapping.Mapping.Transfers.Laws.{
  dec_balance_lem, dec_balance_refused, total-inc_balance, total-dec_balance, total-set_allowance,
  get_allowance-inc_balance, handle_transfer-ok, handle_transfer_from-ok,
}

-- A transfer that succeeds keeps what any duplicate-free list of accounts that has the caller and
-- the recipient holds of the asset, also where the two are one.
pub transfer_conserves :
    (env : Env) (p : TransferParams) (st : State) {st' : State} (accounts : List Bytes)
    → handle_transfer env p st ≡ (ok tt, st')
    → IsDistinct accounts
    → contains env.caller accounts ≡ true
    → contains p.to_address accounts ≡ true
    → total st' p.asset accounts ≡ total st p.asset accounts
transfer_conserves env p st accounts h d ha hb =
    let (v, _, _, debited, written) = handle_transfer-ok env p st h in
    rw written (
      grind (
        int_laws,
        total-inc_balance p.to_address p.asset v (dec_balance env.caller p.asset v st).1 accounts d
            hb,
        total-dec_balance env.caller p.asset v st accounts debited d ha,
      ))

-- A transfer that succeeds between two accounts: the amount of the request is positive and covered,
-- it leaves the caller's balance and reaches the recipient's.
pub transfer_moves :
    (env : Env) (p : TransferParams) (st : State) {st' : State}
    → handle_transfer env p st ≡ (ok tt, st')
    → eqb env.caller p.to_address ≡ false
    → (v : ℤ) × (positive_amount p.amount_text ≡ ok v)
      × (pos 0 <ℤ v)
      × (v ≤ℤ get_balance st env.caller p.asset)
      × (get_balance st' env.caller p.asset ≡ get_balance st env.caller p.asset -ℤ v)
      × (get_balance st' p.to_address p.asset ≡ get_balance st p.to_address p.asset +ℤ v)
unfolding inc_balance
transfer_moves env p st {st'} h ne =
    let (v, amount, _, debited, written) = handle_transfer-ok env p st h in
    let (positive, covered, after) = dec_balance_lem env.caller p.asset v st debited in
    let debit_st = set_balance env.caller p.asset (get_balance st env.caller p.asset -ℤ v) st in
    let at_to : get_balance debit_st p.to_address p.asset ≡ get_balance st p.to_address p.asset =
      get_balance-set_balance_asset env.caller p.to_address p.asset _ st ∙ rw ne in
    (
      v,
      amount,
      positive,
      covered,
      rw (written, after)
          (ground (
            arith,
            ne,
            eqb_iff env.caller p.to_address,
            eqb_iff p.to_address env.caller,
            get_balance-set_balance_asset p.to_address env.caller p.asset
                (get_balance debit_st p.to_address p.asset +ℤ v) debit_st,
            get_balance-set_balance_asset env.caller env.caller p.asset
                (get_balance st env.caller p.asset -ℤ v) st,
            eqb_iff env.caller env.caller,
          )),
      rw (written, after)
          (get_balance-set_balance_asset p.to_address p.to_address p.asset
              (get_balance debit_st p.to_address p.asset +ℤ v) debit_st
            ∙ ground (arith, at_to, eqb_iff p.to_address p.to_address)),
    )

-- A transfer that is refused, on any of its checks, leaves the storage as it was.
pub transfer_atomic :
    (env : Env) (p : TransferParams) (st : State) {e : Error}
    → (handle_transfer env p st).0 ≡ err e
    → (handle_transfer env p st).1 ≡ st
unfolding handle_transfer
transfer_atomic env p st h = elim (Result-cases (positive_amount p.amount_text)) [
  | inl (v, e) ↦ ground (arith, dec_balance_refused env.caller p.asset v st)
  | inr (x, e) ↦ ground arith
]

-- A transfer on behalf of an owner that succeeds: the amount was covered by the caller's allowance,
-- which falls by it, and the accounts of any list with owner and recipient keep their total.
pub transfer_from_conserves :
    (env : Env) (p : TransferParams) (st : State) {st' : State} (accounts : List Bytes)
    → handle_transfer_from env p st ≡ (ok tt, st')
    → IsDistinct accounts
    → contains p.from_account accounts ≡ true
    → contains p.to_address accounts ≡ true
    → (v : ℤ) × (positive_amount p.amount_text ≡ ok v)
      × (v ≤ℤ get_allowance st p.from_account env.caller p.asset)
      × (get_allowance st' p.from_account env.caller p.asset
          ≡ get_allowance st p.from_account env.caller p.asset -ℤ v)
      × (total st' p.asset accounts ≡ total st p.asset accounts)
transfer_from_conserves env p st accounts h d ha hb =
    let (v, amount, allowed, debited, written) = handle_transfer_from-ok env p st h in
    let left = get_allowance st p.from_account env.caller p.asset -ℤ v in
    let debit_st = (dec_balance p.from_account p.asset v st).1 in
    let spent = set_allowance p.from_account env.caller p.asset left debit_st in
    (
      v,
      amount,
      allowed,
      rw written (
          get_allowance-inc_balance p.to_address p.asset p.from_account env.caller p.asset v spent
          ∙ get_allowance-set_allowance p.from_account env.caller p.asset left debit_st),
      rw written (
          grind (
            int_laws,
            total-inc_balance p.to_address p.asset v spent accounts d hb,
            total-set_allowance p.from_account env.caller p.asset p.asset left debit_st accounts,
            total-dec_balance p.from_account p.asset v st accounts debited d ha,
          )),
    )

-- The key of an account's balance does not show where the account ends: with a dash in its name,
-- an account shares the balances of another one.
pub get_balance_shared :
    (st : State) (a x s : Bytes)
    → get_balance st a (x ++ (bytes "-" ++ s)) ≡ get_balance st (a ++ (bytes "-" ++ x)) s
unfolding get_balance balance_key
get_balance_shared st a x s = ap (λ k. stored_amount (st.balances k)) (regroup a x s)
  where
    regroup :
        (a x s : Bytes)
        → a ++ (bytes "-" ++ (x ++ (bytes "-" ++ s))) ≡ (a ++ (bytes "-" ++ x)) ++ (bytes "-" ++ s)
    regroup a x s = simp append_assoc

-- Whoever calls `transfer` for the asset "x-s" spends, from any state in which that succeeds, the
-- balance that another account, the caller's name with "-x" behind it, holds of the asset "s".
pub transfer_debits_dashed_account :
    (env : Env) (p : TransferParams) (st : State) {st' : State} (x s : Bytes)
    → p.asset ≡ x ++ (bytes "-" ++ s)
    → handle_transfer env p st ≡ (ok tt, st')
    → eqb env.caller p.to_address ≡ false
    → (v : ℤ) × (positive_amount p.amount_text ≡ ok v)
      × (pos 0 <ℤ v)
      × (get_balance st' (env.caller ++ (bytes "-" ++ x)) s
          ≡ get_balance st (env.caller ++ (bytes "-" ++ x)) s -ℤ v)
transfer_debits_dashed_account env p st {st'} x s same h ne =
    let (v, amount, positive, _, left, _) = transfer_moves env p st h ne in
    let left' : get_balance st' env.caller (x ++ (bytes "-" ++ s))
        ≡ get_balance st env.caller (x ++ (bytes "-" ++ s)) -ℤ v =
      rw same at left in
    (
      v,
      amount,
      positive,
      cc (left', get_balance_shared st env.caller x s, get_balance_shared st' env.caller x s),
    )
