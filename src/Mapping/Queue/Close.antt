-- ===== src/Mapping/Queue/Close.antt =====
-- The ends of a withdrawal as steps of the queue: `HandleConfirmSpend`, `HandleClearNonce`,
-- `HandleExpireWithdrawal`, `HandleCancelMyWithdrawal`; and `HandleReplaceWithdrawal`.
use account_mapping.Prelude.{
  ℕ, ◌+◌, ◌<◌, ◌^◌, ◌≡◌, refl, ◌∙◌, ◌⊎◌, inl, inr, Option-cases, Option, none, some, Bytes, arith,
  ℤ,
}
use account_mapping.Result.{ok}
use account_mapping.Host.State.{State, Env, PendingSpend, add64, delete_num}
use account_mapping.Host.Action.Laws.{Result-cases}
use account_mapping.Mapping.Balance.{inc_balance, set_balance}
use account_mapping.Mapping.Supply.{restore_supply, set_supply}
use account_mapping.Mapping.Gas.{add_gas_reserve, set_gas_reserve}
use account_mapping.Mapping.Registry.{tss_sign}
use account_mapping.Mapping.Withdrawal.{
  get_confirmed_nonce, set_confirmed_nonce, get_pending_nonce, set_pending_nonce, get_pending_spend,
  with_nonce, delete_pending_spend, nonce_advance,
}
use account_mapping.Mapping.Confirm.{
  ConfirmSpendRequest, check_confirm, handle_confirm_spend, settle, refund_gas,
}
use account_mapping.Mapping.Lifecycle.{
  L1ProofOfDrop, refund_and_close, handle_clear_nonce, handle_expire_withdrawal,
  handle_cancel_my_withdrawal, sign_self_transfer,
}
use account_mapping.Mapping.Queue.{
  Queue, idle, busy, close, Represents, Steps, HasRoom, stored-busy, stored-head, close-Represents,
}
use account_mapping.Mapping.Queue.Same.{SameQueue, SameQueue-trans, SameQueue-refl}

-- What a handler that ends the withdrawal under a nonce does to the queue.
record Closed (st st' : State) (n : ℕ) : Type 0 where
  pub spend : PendingSpend
  pub stored : get_pending_spend st n ≡ some spend
  pub deleted : st'.spends ≡ delete_num n st.spends
  pub advanced : get_confirmed_nonce st' ≡ add64 n 1
  pub pending : (get_pending_nonce st' ≡ get_pending_nonce st) ⊎ (get_pending_nonce st' ≡ add64 n 1)

Closed-Steps :
    (st st' : State) (n : ℕ) (q : Queue)
    → Represents st q
    → HasRoom q
    → Closed st st' n
    → Steps q st'
Closed-Steps st st' n q r room c =
    let e = stored-busy st q n c.spend r c.stored in
    let at_busy : Represents st (busy n c.spend) = rw e at r in
    let fits : n + 1 < 2 ^ 64 = rw e at room in
    let pending : get_pending_nonce st' ≡ n + 1 = elim c.pending [
      | inl same ↦ same ∙ at_busy.1
      | inr head ↦ head ∙ ground arith
    ] in
    (
      idle (n + 1),
      rw e (close n c.spend),
      close-Represents st st' n c.spend at_busy fits c.deleted c.advanced pending,
    )

check_confirm-stored :
    (env : Env) (req : ConfirmSpendRequest) (chain_id : ℕ) (st : State) {ps : PendingSpend}
    {status : ℕ}
    → (check_confirm env req chain_id st).0 ≡ ok (ps, status)
    → get_pending_spend st (get_confirmed_nonce st) ≡ some ps
unfolding check_confirm
check_confirm-stored env req chain_id st h = ground arith

check_confirm-reads :
    (env : Env) (req : ConfirmSpendRequest) (chain_id : ℕ) (st : State)
    → (check_confirm env req chain_id st).1 ≡ st
unfolding check_confirm
check_confirm-reads env req chain_id st = ground arith

SameQueue-refund : (cost : Option ℤ) (st : State) → SameQueue st (refund_gas cost st)
unfolding refund_gas add_gas_reserve set_gas_reserve
SameQueue-refund none st = record { spends = refl; confirmed = refl; pending = refl }
SameQueue-refund (some cost) st = record {
  spends = ground arith;
  confirmed = ground arith;
  pending = ground arith;
}

SameQueue-credit :
    (a s : Bytes) (v : ℤ) (st : State) → SameQueue st (restore_supply s v (inc_balance a s v st))
unfolding restore_supply set_supply inc_balance set_balance
SameQueue-credit a s v st = record { spends = refl; confirmed = refl; pending = refl }

-- A spend is closed whatever the status of its receipt is.
settle-Closed :
    (ps : PendingSpend) (status : ℕ) (st : State)
    → get_pending_spend st (get_confirmed_nonce st) ≡ some ps
    → Closed st (settle ps (get_confirmed_nonce st) status st) (get_confirmed_nonce st)
unfolding settle set_confirmed_nonce get_confirmed_nonce get_pending_nonce delete_pending_spend
settle-Closed ps status st h =
    let credited =
      restore_supply ps.asset ps.amount (inc_balance ps.from_account ps.asset ps.amount st) in
    let a = SameQueue-credit ps.from_account ps.asset ps.amount st in
    let b = SameQueue-refund ps.gas_cost credited in
    record {
      spend = ps;
      stored = h;
      deleted = ground (arith, a.spends, b.spends);
      advanced = ground arith;
      pending = inl (ground (arith, a.pending, b.pending));
    }

-- A confirmation that succeeds, of a payment or of a revert, closes the spend at the head.
pub confirm_closes :
    (env : Env) (req : ConfirmSpendRequest) (chain_id : ℕ) (st : State) {st' : State} (q : Queue)
    → handle_confirm_spend env req chain_id st ≡ (ok tt, st')
    → Represents st q
    → HasRoom q
    → Steps q st'
unfolding handle_confirm_spend
confirm_closes env req chain_id st {st'} q h r room =
    elim (Result-cases (check_confirm env req chain_id st).0) [
      | inl ((ps, status), e) ↦
          let written : st' ≡ settle ps (get_confirmed_nonce st) status st =
            ground (arith, check_confirm-reads env req chain_id st) in
          Closed-Steps st st' (get_confirmed_nonce st) q r room
            (rw written (settle-Closed ps status st (check_confirm-stored env req chain_id st e)))
      | inr (x, e) ↦ absurd (ground arith)
    ]

-- The nonce of a spend that is read is its key.
pub read-named :
    (st : State) (n : ℕ) (ps : PendingSpend) → get_pending_spend st n ≡ some ps → ps.nonce ≡ n
unfolding get_pending_spend with_nonce
read-named st n ps h = ground arith

-- The advance goes through for the spend at the head.
pub nonce_advance-head :
    (ps : PendingSpend) (st : State) (n : ℕ)
    → get_pending_spend st n ≡ some ps
    → get_confirmed_nonce st ≡ n
    → (nonce_advance ps 1 st).1 ≡ set_confirmed_nonce (add64 n 1) st
unfolding nonce_advance
nonce_advance-head ps st n h head = ground (arith, read-named st n ps h)

SameQueue-spend :
    {st st' : State} (n : ℕ) → SameQueue st st' → get_pending_spend st' n ≡ get_pending_spend st n
unfolding get_pending_spend
SameQueue-spend n same = rw same.spends

refund_and_close-Closed :
    (ps : PendingSpend) (n : ℕ) (st mid : State)
    → get_pending_spend st n ≡ some ps
    → get_confirmed_nonce st ≡ n
    → SameQueue st mid
    → Closed st (refund_and_close ps n mid) n
unfolding refund_and_close set_confirmed_nonce get_confirmed_nonce get_pending_nonce
    set_pending_nonce delete_pending_spend
refund_and_close-Closed ps n st mid h head same =
    let refunded =
      restore_supply ps.asset ps.amount (inc_balance ps.from_account ps.asset ps.amount mid) in
    let all = SameQueue-trans same (SameQueue-credit ps.from_account ps.asset ps.amount mid) in
    let advanced =
      nonce_advance-head ps refunded n (SameQueue-spend n all ∙ h)
        (ground (arith, all.confirmed)) in
    record {
      spend = ps;
      stored = h;
      deleted = rw (advanced, all.spends);
      advanced = rw advanced;
      pending = inr (rw advanced);
    }

SameQueue-self :
    (env : Env) (vault : Bytes) (chain_id n : ℕ) (st : State)
    → SameQueue st (sign_self_transfer env vault chain_id n st)
unfolding sign_self_transfer tss_sign
SameQueue-self env vault chain_id n st = record { spends = refl; confirmed = refl; pending = refl }

-- Clearing the nonce of the head closes its spend.
pub clear_nonce_closes :
    (env : Env) (vault : Bytes) (chain_id : ℕ) (proof : L1ProofOfDrop) (st : State) {st' : State}
    (q : Queue)
    → handle_clear_nonce env vault chain_id proof st ≡ (ok tt, st')
    → Represents st q
    → HasRoom q
    → Steps q st'
unfolding handle_clear_nonce
clear_nonce_closes env vault chain_id proof st {st'} q h r room =
    let n = get_confirmed_nonce st in
    elim (Option-cases (get_pending_spend st n)) [
      | inl none_there ↦ absurd (ground arith)
      | inr (ps, e) ↦
          let signed = sign_self_transfer env vault chain_id n st in
          let written : st' ≡ refund_and_close ps n signed = ground arith in
          Closed-Steps st st' n q r room (
            rw written (
              refund_and_close-Closed ps n st signed e refl
                (SameQueue-self env vault chain_id n st)))
    ]

-- So does the expiry of the head.
pub expire_closes :
    (env : Env) (nonce : ℕ) (proof : L1ProofOfDrop) (chain_id : ℕ) (st : State) {st' : State}
    (q : Queue)
    → handle_expire_withdrawal env nonce proof chain_id st ≡ (ok tt, st')
    → Represents st q
    → HasRoom q
    → Steps q st'
unfolding handle_expire_withdrawal
expire_closes env nonce proof chain_id st {st'} q h r room =
    let n = get_confirmed_nonce st in
    elim (Option-cases (get_pending_spend st n)) [
      | inl none_there ↦ absurd (ground arith)
      | inr (ps, e) ↦
          let written : st' ≡ refund_and_close ps n st = ground arith in
          Closed-Steps st st' n q r room
            (rw written (refund_and_close-Closed ps n st st e refl (SameQueue-refl st)))
    ]

-- A cancellation names any nonce; one that succeeds has named the head, and closes its spend.
pub cancel_closes :
    (env : Env) (nonce : ℕ) (proof : L1ProofOfDrop) (vault : Bytes) (chain_id : ℕ) (st : State)
    {st' : State} (q : Queue)
    → handle_cancel_my_withdrawal env nonce proof vault chain_id st ≡ (ok tt, st')
    → Represents st q
    → HasRoom q
    → (get_confirmed_nonce st ≡ nonce) × Steps q st'
unfolding handle_cancel_my_withdrawal
cancel_closes env nonce proof vault chain_id st {st'} q h r room =
    elim (Option-cases (get_pending_spend st nonce)) [
      | inl none_there ↦ absurd (ground arith)
      | inr (ps, e) ↦
          let signed = sign_self_transfer env vault chain_id nonce st in
          let head : get_confirmed_nonce st ≡ nonce = stored-head st q nonce ps r e in
          let written : st' ≡ refund_and_close ps nonce signed = ground arith in
          (
            head,
            Closed-Steps st st' nonce q r room (
                rw written (
                  refund_and_close-Closed ps nonce st signed e head
                    (SameQueue-self env vault chain_id nonce st))),
          )
    ]
