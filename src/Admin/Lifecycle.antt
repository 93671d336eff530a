-- ===== src/Admin/Lifecycle.antt =====
-- What the lifecycle of a proposal (contract/admin/proposals.go) guarantees.
use account_mapping.Prelude.{
  ℕ, ◌+◌, ◌≤◌, ◌<◌, ◌^◌, ◌≡◌, inl, inr, true, Option-cases, some, Bytes, eqb, arith,
}
use account_mapping.Result.{Error, ok, err}
use account_mapping.Host.State.{State, Env, PendingProposal, accepted, cancelled, expired, add64}
use account_mapping.Host.Action.Laws.{Result-cases}
use account_mapping.Admin.Proposals.{
  timelock_for, timelock_long, expire_window_blocks, next_id, new_proposal, hash_payload,
  load_proposal, store_proposal, bump_counter, is_pending, set_status, propose, execute_validated,
  cancel, expire_proposal,
}

-- A proposal that is executed was pending, its timelock had elapsed, it had not expired, and its
-- payload is the one that was proposed; after it the proposal is accepted.
pub execute-ok :
    (env : Env) (id height : ℕ) (st : State) {pp : PendingProposal} {st' : State}
    → execute_validated env id height st ≡ (ok pp, st')
    → (old : PendingProposal) × (load_proposal st id ≡ some old)
      × (is_pending old.status ≡ true)
      × (old.exec_height ≤ height)
      × (height < old.expire_height)
      × (eqb (hash_payload env old.payload) old.payload_hash ≡ true)
      × (pp ≡ set_status accepted old)
      × (st' ≡ store_proposal pp st)
unfolding execute_validated
execute-ok env id height st {pp} {st'} h = elim (Option-cases (load_proposal st id)) [
  | inl none_there ↦ absurd (ground arith)
  | inr (old, e) ↦
      (old, e, ground arith, ground arith, ground arith, ground arith, ground arith, ground arith)
]

pub cancel-ok :
    (env : Env) (id : ℕ) (st : State) {st' : State}
    → cancel env id st ≡ (ok tt, st')
    → (old : PendingProposal) × (load_proposal st id ≡ some old)
      × (is_pending old.status ≡ true)
      × (st' ≡ store_proposal (set_status cancelled old) st)
unfolding cancel
cancel-ok env id st {st'} h = elim (Option-cases (load_proposal st id)) [
  | inl none_there ↦ absurd (ground arith)
  | inr (old, e) ↦ (old, e, ground arith, ground arith)
]

pub expire-ok :
    (env : Env) (id height : ℕ) (st : State) {st' : State}
    → expire_proposal env id height st ≡ (ok tt, st')
    → (old : PendingProposal) × (load_proposal st id ≡ some old)
      × (is_pending old.status ≡ true)
      × (old.expire_height ≤ height)
      × (st' ≡ store_proposal (set_status expired old) st)
unfolding expire_proposal
expire-ok env id height st {st'} h = elim (Option-cases (load_proposal st id)) [
  | inl none_there ↦ absurd (ground arith)
  | inr (old, e) ↦ (old, e, ground arith, ground arith, ground arith)
]

-- Every proposal is stored under its id.
abbrev pub IsKeyed : State → Type 0
IsKeyed st = (id : ℕ) (pp : PendingProposal) → load_proposal st id ≡ some pp → pp.proposal_id ≡ id

-- A proposal that is not pending stays as it is: the three calls refuse it.
abbrev pub IsFinal : State → ℕ → Type 0
IsFinal st id =
    (env : Env) (height : ℕ)
    → ((e : Error) × (execute_validated env id height st ≡ (err e, st)))
      × ((e : Error) × (cancel env id st ≡ (err e, st)))
      × ((e : Error) × (expire_proposal env id height st ≡ (err e, st)))

timelock-bound : (action : Bytes) {t : ℕ} → timelock_for action ≡ ok t → t ≤ timelock_long
unfolding timelock_for
timelock-bound action h = ground arith

propose-ok :
    (env : Env) (action payload proposer : Bytes) (height : ℕ) (st : State) {id : ℕ} {st' : State}
    → propose env action payload proposer height st ≡ (ok id, st')
    → (t : ℕ) × (timelock_for action ≡ ok t)
      × (load_proposal st' id ≡ some (new_proposal env id t action payload proposer height))
unfolding propose load_proposal store_proposal new_proposal
propose-ok env action payload proposer height st {id} {st'} h =
    elim (Result-cases (timelock_for action)) [
      | inl (t, e) ↦ (t, e, ground arith)
      | inr (x, e) ↦ absurd (ground arith)
    ]

-- An action that was proposed at one height and is executed at another, from a storage that holds
-- the proposal as it was stored: the action is a known one, its timelock lies between the two
-- heights, the window after it is not over, and the payload that is executed is the one proposed.
-- The heights are so small that the sums fit a uint64.
pub executed_after_timelock :
    (env env' : Env) (action payload proposer : Bytes) (proposed height id : ℕ) (st mid : State)
    {st' st'' : State} {pp : PendingProposal}
    → proposed + timelock_long + expire_window_blocks < 2 ^ 64
    → propose env action payload proposer proposed st ≡ (ok id, st')
    → load_proposal mid id ≡ load_proposal st' id
    → execute_validated env' id height mid ≡ (ok pp, st'')
    → (t : ℕ) × (timelock_for action ≡ ok t)
      × (proposed + t ≤ height)
      × (height < proposed + t + expire_window_blocks)
      × (pp.payload ≡ payload)
      × (pp.action ≡ action)
      × (pp.status ≡ accepted)
unfolding new_proposal set_status
executed_after_timelock env env' action payload proposer proposed height id st mid {pp = pp} fits
      made kept done =
    let (t, known, there) = propose-ok env action payload proposer proposed st made in
    let (old, e, _, late, early, _, named, _) = execute-ok env' id height mid done in
    let bound = timelock-bound action known in
    let same : old ≡ new_proposal env id t action payload proposer proposed =
      ground (arith, e, there, kept) in
    let from_then : add64 proposed t ≤ height = rw same at late in
    let until : height < add64 (add64 proposed t) expire_window_blocks = rw same at early in
    (t, known, ground arith, ground arith, rw (named, same), rw (named, same), rw named)

-- A store keeps the proposals under their ids.
store-IsKeyed : (st : State) (pp : PendingProposal) → IsKeyed st → IsKeyed (store_proposal pp st)
unfolding load_proposal store_proposal
store-IsKeyed st pp keyed id found h = ground (arith, keyed id found)

bumped : (st : State) → IsKeyed st → IsKeyed (bump_counter st)
unfolding load_proposal bump_counter
bumped st keyed = keyed

-- A proposal keeps that every one is stored under its id.
pub propose-IsKeyed :
    (env : Env) (action payload proposer : Bytes) (height : ℕ) (st : State) {id : ℕ} {st' : State}
    → IsKeyed st
    → propose env action payload proposer height st ≡ (ok id, st')
    → IsKeyed st'
unfolding propose
propose-IsKeyed env action payload proposer height st {id} {st'} keyed h =
    elim (Result-cases (timelock_for action)) [
      | inl (t, e) ↦
          let made =
            new_proposal env (next_id st.proposal_counter) t action payload proposer height in
          let written : st' ≡ store_proposal made (bump_counter st) = ground arith in
          rw written (store-IsKeyed (bump_counter st) made (bumped st keyed))
      | inr (x, e) ↦ absurd (ground arith)
    ]
