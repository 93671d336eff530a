-- ===== src/Mapping/Refund.antt =====
-- The refunds: a cancelled, expired or cleared withdrawal (`HandleCancelMyWithdrawal`,
-- `HandleExpireWithdrawal`, `HandleClearNonce`), and a confirmed one that was reverted.
use account_mapping.Prelude.{
  ℕ, ◌≡◌, refl, ◌∙◌, inl, inr, true, Option-cases, none, some, List, Bytes, eqb_refl, eqb_iff,
  arith, pos, ◌+ℤ◌, ◌≤ℤ◌,
}
use account_mapping.Result.{ok}
use account_mapping.Host.State.{State, Env, PendingSpend}
use account_mapping.Host.Action.Laws.{Result-cases}
use account_mapping.Mapping.Balance.{get_balance, set_balance, inc_balance}
use account_mapping.Mapping.Balance.Laws.{get_balance-set_balance_asset, contains, IsDistinct}
use account_mapping.Mapping.Supply.{get_supply, set_supply, restore_supply}
use account_mapping.Mapping.Withdrawal.{
  set_confirmed_nonce, set_pending_nonce, get_pending_spend, delete_pending_spend, nonce_advance,
}
use account_mapping.Mapping.Registry.{tss_sign}
use account_mapping.Mapping.Drop.{IsAccepted, verify_l1_proof_of_drop-ok}
use account_mapping.Mapping.Lifecycle.{
  L1ProofOfDrop, refund_and_close, sign_self_transfer, verify_l1_proof_of_drop,
  handle_cancel_my_withdrawal,
}
use account_mapping.Mapping.Solvency.{
  IsSolvent, IsSolvent-credit, IsSolvent-frame, get_balance-frame,
}

-- The credit and the restored totals are all that a refund does to the ledger.
refund-ledger :
    (ps : PendingSpend) (n : ℕ) (st : State)
    → ((refund_and_close ps n st).balances
        ≡ (inc_balance ps.from_account ps.asset ps.amount st).balances)
      × ((refund_and_close ps n st).supplies
          ≡ (restore_supply ps.asset ps.amount
              (inc_balance ps.from_account ps.asset ps.amount st)).supplies)
unfolding refund_and_close nonce_advance set_confirmed_nonce set_pending_nonce delete_pending_spend
    restore_supply set_supply
refund-ledger ps n st = (ground arith, ground arith)

-- A refund raises the user total of the asset by the amount of the spend.
refund-user :
    (ps : PendingSpend) (n : ℕ) (st : State)
    → (get_supply (refund_and_close ps n st) ps.asset).user
      ≡ (get_supply st ps.asset).user +ℤ ps.amount
unfolding get_supply restore_supply set_supply inc_balance set_balance
refund-user ps n st = rw ((refund-ledger ps n st).1, eqb_refl ps.asset)

refund-balance :
    (ps : PendingSpend) (n : ℕ) (st : State)
    → get_balance (refund_and_close ps n st) ps.from_account ps.asset
      ≡ get_balance st ps.from_account ps.asset +ℤ ps.amount
unfolding inc_balance
refund-balance ps n st =
    get_balance-frame (inc_balance ps.from_account ps.asset ps.amount st) (refund_and_close ps n st)
      ps.from_account ps.asset (refund-ledger ps n st).0
    ∙ get_balance-set_balance_asset ps.from_account ps.from_account ps.asset
        (get_balance st ps.from_account ps.asset +ℤ ps.amount) st
    ∙ rw (eqb_refl ps.from_account)

refund-deleted :
    (ps : PendingSpend) (n : ℕ) (st : State) → get_pending_spend (refund_and_close ps n st) n ≡ none
unfolding refund_and_close get_pending_spend delete_pending_spend
refund-deleted ps n st = ground arith

refund-IsSolvent :
    (ps : PendingSpend) (n : ℕ) (st : State) (accounts : List Bytes)
    → IsDistinct accounts
    → contains ps.from_account accounts ≡ true
    → pos 0 ≤ℤ ps.amount
    → IsSolvent ps.asset accounts st
    → IsSolvent ps.asset accounts (refund_and_close ps n st)
refund-IsSolvent ps n st accounts d m positive solvent =
    IsSolvent-credit ps.from_account ps.asset ps.amount accounts st (refund_and_close ps n st) d m
      positive (refund-ledger ps n st).0 (refund-user ps n st) solvent

-- What a refund of a spend from one storage to another does: the withdrawer gets the amount of the
-- spend back, the spend is gone, and the user total of the asset stays what the accounts hold.
pub record Refunded (ps : PendingSpend) (nonce : ℕ) (st st' : State) : Type 0 where
  pub credited :
      get_balance st' ps.from_account ps.asset
      ≡ get_balance st ps.from_account ps.asset +ℤ ps.amount
  pub gone : get_pending_spend st' nonce ≡ none
  pub solvent :
      (accounts : List Bytes)
      → IsDistinct accounts
      → contains ps.from_account accounts ≡ true
      → pos 0 ≤ℤ ps.amount
      → IsSolvent ps.asset accounts st
      → IsSolvent ps.asset accounts st'

refund-Refunded :
    (ps : PendingSpend) (n : ℕ) (st : State) → Refunded ps n st (refund_and_close ps n st)
refund-Refunded ps n st = record {
  credited = refund-balance ps n st;
  gone = refund-deleted ps n st;
  solvent = refund-IsSolvent ps n st;
}

signed-Refunded :
    (env : Env) (vault : Bytes) (chain_id : ℕ) (ps : PendingSpend) (n : ℕ) (st st' : State)
    → Refunded ps n (sign_self_transfer env vault chain_id n st) st'
    → Refunded ps n st st'
unfolding sign_self_transfer tss_sign get_balance get_supply
signed-Refunded env vault chain_id ps n st st' w = record {
  credited = w.credited;
  gone = w.gone;
  solvent = λ accounts d m positive h. w.solvent accounts d m positive (
      IsSolvent-frame ps.asset accounts st (sign_self_transfer env vault chain_id n st) refl refl
        h);
}

-- A cancellation that succeeds: a spend is stored under the nonce, the caller is the one who
-- withdrew, the proof of drop has the nonce of the spend and proves, in a block that the contract has
-- the header of, a receipt with status 0 or a transaction with a higher nonce, and the spend is
-- refunded: the withdrawer is credited with its amount, it is gone, and the user total stays what a
-- duplicate-free list of accounts with the withdrawer holds, where it was so before and neither a
-- balance of the list nor the amount is negative.
pub cancel_refunds :
    (env : Env) (nonce : ℕ) (proof : L1ProofOfDrop) (vault : Bytes) (chain_id : ℕ) (st : State)
    {st' : State}
    → handle_cancel_my_withdrawal env nonce proof vault chain_id st ≡ (ok tt, st')
    → (ps : PendingSpend) × (get_pending_spend st nonce ≡ some ps)
      × (env.caller ≡ ps.from_account)
      × IsAccepted env proof ps chain_id st
      × Refunded ps nonce st st'
unfolding handle_cancel_my_withdrawal
cancel_refunds env nonce proof vault chain_id st {st'} h =
    elim (Option-cases (get_pending_spend st nonce)) [
      | inl none_there ↦ absurd (ground arith)
      | inr (ps, e) ↦ elim (Result-cases (verify_l1_proof_of_drop env proof ps chain_id st)) [
        | inl (done, f) ↦
            let signed = sign_self_transfer env vault chain_id nonce st in
            let written : st' ≡ refund_and_close ps nonce signed = ground arith in
            (
              ps,
              e,
              (eqb_iff env.caller ps.from_account).0 (ground arith),
              verify_l1_proof_of_drop-ok env proof ps chain_id st f,
              signed-Refunded env vault chain_id ps nonce st st'
                  (rw written (refund-Refunded ps nonce signed)),
            )
        | inr (x, f) ↦ absurd (ground arith)
      ]
    ]
