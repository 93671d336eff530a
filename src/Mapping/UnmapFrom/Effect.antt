-- ===== src/Mapping/UnmapFrom/Effect.antt =====
-- What a withdrawal on behalf of an owner (`HandleUnmapFrom`) does to the ledger.
use account_mapping.Prelude.{
  ℕ, ◌≡◌, refl, ◌∙◌, ap, inl, inr, true, Bytes, eqb_refl, arith, ℤ, ◌-ℤ◌, ◌≤ℤ◌,
}
use account_mapping.Result.{ok}
use account_mapping.Host.State.{State, Env}
use account_mapping.Host.Action.Laws.{Result-cases}
use account_mapping.Mapping.Balance.{
  get_balance, set_balance, dec_balance, get_allowance, set_allowance,
}
use account_mapping.Mapping.Balance.Laws.{
  get_balance-set_balance_asset, get_allowance-set_allowance,
}
use account_mapping.Mapping.Supply.{get_supply, set_supply, track_withdrawal}
use account_mapping.Mapping.Gas.{deduct_gas_reserve, set_gas_reserve}
use account_mapping.Mapping.Registry.{tss_sign}
use account_mapping.Mapping.Withdrawal.{get_pending_nonce, set_pending_nonce, store_pending_spend}
use account_mapping.Mapping.Transfers.{TransferParams, positive_amount}
use account_mapping.Mapping.Transfers.Laws.{dec_balance_lem}
use account_mapping.Mapping.Solvency.{get_balance-frame}
use account_mapping.Mapping.UnmapFrom.{
  FromPlan, check_unmap_from, commit_unmap_from, handle_unmap_from, build_unmap_from,
}
use account_mapping.Mapping.UnmapFrom.Laws.{
  check_unmap_from-reads, FromDebit, check_unmap_from-FromDebit,
}

-- The ledger before and after a part that leaves it alone.
record SameLedger (st st' : State) : Type 0 where
  pub balances : st'.balances ≡ st.balances
  pub supplies : st'.supplies ≡ st.supplies
  pub allowances : st'.allowances ≡ st.allowances

build-SameLedger :
    (env : Env) (p : TransferParams) (plan : FromPlan) (chain_id nonce : ℕ) (st : State)
    → SameLedger st (build_unmap_from env p plan chain_id nonce st).1
unfolding build_unmap_from deduct_gas_reserve set_gas_reserve
build-SameLedger env p plan chain_id nonce st = record {
  balances = ground arith;
  supplies = ground arith;
  allowances = ground arith;
}

tracked-user :
    (s : Bytes) (v : ℤ) (st : State)
    → (track_withdrawal s v st).0 ≡ ok tt
    → ((get_supply (track_withdrawal s v st).1 s).user ≡ (get_supply st s).user -ℤ v)
      × ((track_withdrawal s v st).1.balances ≡ st.balances)
      × ((track_withdrawal s v st).1.allowances ≡ st.allowances)
unfolding track_withdrawal get_supply set_supply
tracked-user s v st h = (ground (arith, eqb_refl s), ground arith, ground arith)

allowance-frame :
    (st st' : State) (o q s : Bytes)
    → st'.allowances ≡ st.allowances
    → get_allowance st' o q s ≡ get_allowance st o q s
unfolding get_allowance
allowance-frame st st' o q s e = rw e

user-frame :
    (st st' : State) (s : Bytes)
    → st'.supplies ≡ st.supplies
    → (get_supply st' s).user ≡ (get_supply st s).user
unfolding get_supply
user-frame st st' s e = rw e

allowed-balances :
    (o q s : Bytes) (v : ℤ) (st : State) → (set_allowance o q s v st).balances ≡ st.balances
unfolding set_allowance
allowed-balances o q s v st = refl

allowed-supplies :
    (o q s : Bytes) (v t : ℤ) (st : State)
    → (set_allowance o q s v (dec_balance o s t st).1).supplies ≡ st.supplies
unfolding set_allowance dec_balance set_balance
allowed-supplies o q s v t st = ground arith

commit_unmap_from-ledger :
    (env : Env) (p : TransferParams) (plan : FromPlan) (vault : Bytes) (chain_id : ℕ) (st : State)
    {st' : State}
    → commit_unmap_from env p plan vault chain_id st ≡ (ok tt, st')
    → (get_balance st' p.from_account p.asset
        ≡ get_balance st p.from_account p.asset -ℤ plan.total_deduct)
      × ((get_supply st' p.asset).user ≡ (get_supply st p.asset).user -ℤ plan.amount)
      × (get_allowance st' p.from_account env.caller p.asset ≡ plan.allowance -ℤ plan.amount)
unfolding commit_unmap_from store_pending_spend set_pending_nonce tss_sign
commit_unmap_from-ledger env p plan vault chain_id st {st'} h =
    let debited = (dec_balance p.from_account p.asset plan.total_deduct st).1 in
    let allowed =
      set_allowance p.from_account env.caller p.asset (plan.allowance -ℤ plan.amount) debited in
    let tracked = (track_withdrawal p.asset plan.amount allowed).1 in
    let built = build_unmap_from env p plan chain_id (get_pending_nonce tracked) tracked in
    let same = build-SameLedger env p plan chain_id (get_pending_nonce tracked) tracked in
    elim (Result-cases built.0) [
      | inl (made, e) ↦
          let balances : st'.balances ≡ built.1.balances = ground arith in
          let supplies : st'.supplies ≡ built.1.supplies = ground arith in
          let done : (dec_balance p.from_account p.asset plan.total_deduct st).0 ≡ true =
            ground arith in
          let counted : (track_withdrawal p.asset plan.amount allowed).0 ≡ ok tt = ground arith in
          let allowances : st'.allowances ≡ built.1.allowances = ground arith in
          let (user, kept, kept_allowances) = tracked-user p.asset plan.amount allowed counted in
          let after =
            set_balance p.from_account p.asset
              (get_balance st p.from_account p.asset -ℤ plan.total_deduct) st in
          let written = (dec_balance_lem p.from_account p.asset plan.total_deduct st done).2 in
          let all_balances : st'.balances ≡ after.balances =
            balances
            ∙ same.balances
            ∙ kept
            ∙ allowed-balances p.from_account env.caller p.asset (plan.allowance -ℤ plan.amount)
                debited
            ∙ ap (λ (s : State). s.balances) written in
          (
            get_balance-frame after st' p.from_account p.asset all_balances
                ∙ get_balance-set_balance_asset p.from_account p.from_account p.asset _ st
                ∙ rw (eqb_refl p.from_account),
            user-frame tracked st' p.asset (supplies ∙ same.supplies)
                ∙ user
                ∙ ap (λ (v : ℤ). v -ℤ plan.amount)
                    (user-frame st allowed p.asset (
                      allowed-supplies p.from_account env.caller p.asset
                        (plan.allowance -ℤ plan.amount) plan.total_deduct st)),
            allowance-frame allowed st' p.from_account env.caller p.asset
                  (allowances ∙ same.allowances ∙ kept_allowances)
                ∙ get_allowance-set_allowance p.from_account env.caller p.asset
                    (plan.allowance -ℤ plan.amount) debited,
          )
      | inr (x, e) ↦ absurd (ground arith)
    ]

-- A withdrawal on behalf of an owner that succeeds, native or of a token. The owner's balance of the asset
-- that the request names falls by the debit: on the native path the amount of the request, with the fee
-- of the transaction on top unless it is taken out of the amount; for a token the amount. The user total
-- of the asset falls by the amount alone, on both paths. The amount is covered by the caller's allowance
-- of the asset, which falls by it.
pub unmap_from_ledger :
    (env : Env) (p : TransferParams) (vault : Bytes) (chain_id : ℕ) (st : State) {st' : State}
    → handle_unmap_from env p vault chain_id st ≡ (ok tt, st')
    → (plan : FromPlan) × (positive_amount p.amount_text ≡ ok plan.amount)
      × FromDebit env p st plan
      × (get_balance st' p.from_account p.asset
          ≡ get_balance st p.from_account p.asset -ℤ plan.total_deduct)
      × ((get_supply st' p.asset).user ≡ (get_supply st p.asset).user -ℤ plan.amount)
      × (plan.amount ≤ℤ get_allowance st p.from_account env.caller p.asset)
      × (get_allowance st' p.from_account env.caller p.asset
          ≡ get_allowance st p.from_account env.caller p.asset -ℤ plan.amount)
unfolding handle_unmap_from
unmap_from_ledger env p vault chain_id st {st'} h =
    elim (Result-cases (check_unmap_from env p chain_id st).0) [
      | inl (plan, e) ↦
          let (debit, booked, spent) =
            commit_unmap_from-ledger env p plan vault chain_id st
              (ground (arith, check_unmap_from-reads env p chain_id st)) in
          let (amount, allowance, allowed, debit_is) =
            check_unmap_from-FromDebit env p chain_id st plan e in
          (
            plan,
            amount,
            debit_is,
            debit,
            booked,
            rw allowance at allowed,
            spent ∙ ap (λ (v : ℤ). v -ℤ plan.amount) allowance,
          )
      | inr (x, e) ↦ absurd (ground arith)
    ]
