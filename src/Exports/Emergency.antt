-- ===== src/Exports/Emergency.antt =====
-- The emergency pause through the exported functions of contract/main.go.
use account_mapping.Prelude.{
  ◌+◌, ◌<◌, ◌^◌, ◌≡◌, refl, true, [], Bytes, bytes, eqb, eqb_refl, arith, Option, none, some,
}
use account_mapping.Result.{ok}
use account_mapping.Host.State.{State, Env, PendingProposal, accepted}
use account_mapping.Host.Action.{exported}
use account_mapping.Mapping.Registry.{is_paused}
use account_mapping.Admin.Proposals
use account_mapping.Admin.Proposals.{
  next_id, new_proposal, hash_payload, load_proposal, store_proposal, bump_counter, set_status,
  execute_validated, decode_payload_hex, expire_window_blocks, timelock_for,
}
use account_mapping.Exports.Payloads.{Json}
use account_mapping.Exports.Access.{wrapping, check_owner, is_owner}
use account_mapping.Exports.Dispatch.{dispatch_admin, run_gated, run_admin, action_named, pause}
use account_mapping.Exports.Calls
use account_mapping.Exports.Calls.{id_of, propose_request_of, exec_height_of}

timelock_for-pause : timelock_for (bytes "pause") ≡ ok 0
unfolding timelock_for eqb
timelock_for-pause = refl

action_named-pause : action_named (bytes "pause") ≡ some pause
unfolding action_named eqb
action_named-pause = refl

decode_payload_hex-nil : decode_payload_hex [] ≡ some []
unfolding decode_payload_hex
decode_payload_hex-nil = refl

module _ (env : Env) where
  -- The proposal to pause, made at this height, and the storage behind it.
  abbrev pausing : State → PendingProposal
  pausing st =
      new_proposal env (next_id st.proposal_counter) 0 (bytes "pause") [] env.caller
        env.block_height

  abbrev proposed : State → State
  proposed st = store_proposal (pausing st) (bump_counter st)

  propose_pause :
      (st : State)
      → Proposals.propose env (bytes "pause") [] env.caller env.block_height st
        ≡ (ok (next_id st.proposal_counter), proposed st)
  unfolding Proposals.propose
  propose_pause st = ground (arith, timelock_for-pause)

  load-proposed :
      (st : State) → load_proposal (proposed st) (next_id st.proposal_counter) ≡ some (pausing st)
  unfolding load_proposal store_proposal new_proposal
  load-proposed st = ground arith

  execute_pause :
      (st : State)
      → env.block_height + expire_window_blocks < 2 ^ 64
      → execute_validated env (next_id st.proposal_counter) env.block_height (proposed st) ≡ (
        ok (set_status accepted (pausing st)),
        store_proposal (set_status accepted (pausing st)) (proposed st),
      )
  unfolding execute_validated new_proposal
  execute_pause st fits = ground (arith, load-proposed st, eqb_refl (hash_payload env []))

module _ (env : Env) (decoder : Json) (owner : is_owner env ≡ true) where
  dispatch_pause :
      (st : State)
      → dispatch_admin env decoder (bytes "pause") [] st
        ≡ (ok tt, record st { paused = some (bytes "1") })
  unfolding dispatch_admin run_gated run_admin
  dispatch_pause st = ground (arith, action_named-pause)

  call_propose :
      (p : Option Bytes) (st : State)
      → (propose_request_of env decoder p).action ≡ bytes "pause"
      → (propose_request_of env decoder p).payload_hex ≡ []
      → (Calls.propose env decoder p st).1 ≡ proposed env st
  unfolding Calls.propose exported wrapping check_owner
  call_propose p st named empty =
      rw (named, empty) (ground (arith, decode_payload_hex-nil, propose_pause env st, owner))

  call_execute :
      (q : Option Bytes) (st : State)
      → id_of env decoder q ≡ next_id st.proposal_counter
      → env.block_height + expire_window_blocks < 2 ^ 64
      → Calls.execute env decoder q (proposed env st) ≡ (
        ok none,
        record (store_proposal (set_status accepted (pausing env st)) (proposed env st)) {
          paused = some (bytes "1");
        },
      )
  unfolding Calls.execute exported wrapping check_owner set_status new_proposal
  call_execute q st id fits =
      let after = store_proposal (set_status accepted (pausing env st)) (proposed env st) in
      rw id (ground (arith, execute_pause env st fits, dispatch_pause after, owner))

is_paused-one : (st : State) → is_paused (record st { paused = some (bytes "1") }) ≡ true
unfolding is_paused eqb
is_paused-one st = refl

-- The owner pauses the contract within one block, whatever its state: `propose` of "pause" with an
-- empty payload, and `execute` of the id that it gave, succeed at the same height, and the contract is
-- paused after them. The height leaves room for the window of the proposal in a uint64.
pub pause_at_once :
    (env : Env) (decoder : Json) (p q : Option Bytes) (st : State)
    → is_owner env ≡ true
    → (propose_request_of env decoder p).action ≡ bytes "pause"
    → (propose_request_of env decoder p).payload_hex ≡ []
    → id_of env decoder q ≡ next_id st.proposal_counter
    → env.block_height + expire_window_blocks < 2 ^ 64
    → (st' : State) × (Calls.execute env decoder q (Calls.propose env decoder p st).1
        ≡ (ok none, st'))
      × (is_paused st' ≡ true)
pause_at_once env decoder p q st owner named empty id fits =
    let after = store_proposal (set_status accepted (pausing env st)) (proposed env st) in
    (
      record after { paused = some (bytes "1") },
      rw (call_propose env decoder owner p st named empty)
          (call_execute env decoder owner q st id fits),
      is_paused-one after,
    )
