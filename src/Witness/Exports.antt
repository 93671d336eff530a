-- ===== src/Witness/Exports.antt =====
-- Calls of the exported functions: a pause and what it refuses.
use account_mapping.Prelude.{
  ℕ, ◌+◌, ◌<◌, ◌≡◌, refl, true, false, Option, none, some, List, [], ◌∷◌, Bytes, bytes, arith, pos,
}
use account_mapping.Result.{Error, ok, err}
use account_mapping.Host.State.{State}
use account_mapping.Mapping.Registry.{is_paused}
use account_mapping.Admin.Proposals.{timelock_for}
use account_mapping.Exports.Payloads.{Json}
use account_mapping.Exports.Access.{is_owner}
use account_mapping.Exports.Dispatch.{action_named}
use account_mapping.Exports.Calls
use account_mapping.Exports.Calls.{Export, call, send, propose_action, is_initialized, id_of}
use account_mapping.Exports.Config.{CalledKeeps}
use account_mapping.Exports.Timelocks.{delay_of, timelock_for-action_named}
use account_mapping.Exports.Refusals.{owner_required, needs_owner}
use account_mapping.Exports.Refusals.Paused.{paused_refuses, moves_money}
use account_mapping.Exports.Emergency.{pause_at_once}
use account_mapping.Exports.History.{Step, run, EachKeeps, initialized_stays}
use account_mapping.Witness.World.{host, alice, world, to_bob}

abbrev owner : Bytes
owner = bytes "hive:owner"

-- Requests of a fixed meaning: a transfer to Bob, a pause, and the proposal 1.
abbrev decoder : Json
decoder = record {
  map_params = λ s. none;
  transfer_params = λ s. some to_bob;
  allowance_params = λ s. none;
  confirm_spend_request = λ s. none;
  add_blocks_params = λ s. none;
  add_block_entry = λ s. none;
  expire_withdrawal_params = λ s. none;
  cancel_my_withdrawal_params = λ s. none;
  clear_nonce_params = λ s. none;
  register_token_params = λ s. none;
  contract_id = λ s. none;
  account = λ s. none;
  string_literal = λ s. none;
  is_testnet = λ s. false;
  propose_request = λ s. record { action = bytes "pause"; payload_hex = [] };
  id_request = λ s. record { proposal_id = 1 };
  propose_response = λ r. [];
}

host-CalledKeeps : (caller : Bytes) (height : ℕ) → CalledKeeps (host caller height)
host-CalledKeeps caller height router i st = refl

owner-is_owner : is_owner (host owner 20) ≡ true
unfolding account_mapping.Prelude.eqb is_owner
owner-is_owner = refl

alice-is_owner : is_owner (host alice 20) ≡ false
unfolding account_mapping.Prelude.eqb is_owner
alice-is_owner = refl

first_id :
    id_of (host owner 20) decoder (some (bytes "{}"))
    ≡ account_mapping.Admin.Proposals.next_id world.proposal_counter
unfolding account_mapping.Admin.Proposals.next_id
first_id = refl

abbrev payload : Option Bytes
payload = some (bytes "{}")

timelock_for-action_named_example :
    timelock_for (bytes "pause") ≡ delay_of (action_named (bytes "pause"))
timelock_for-action_named_example = timelock_for-action_named (bytes "pause")

abbrev paused_world : State
paused_world = record world { paused = some (bytes "1") }

paused_world-is_paused : is_paused paused_world ≡ true
unfolding account_mapping.Prelude.eqb is_paused
paused_world-is_paused = refl

send-moves_money : moves_money send ≡ true
unfolding moves_money
send-moves_money = refl

paused_refuses_example :
    (x : Error) × (call (host alice 20) decoder send payload paused_world ≡ (err x, paused_world))
paused_refuses_example =
    paused_refuses (host alice 20) decoder send payload paused_world paused_world-is_paused
      send-moves_money

propose-needs_owner : needs_owner propose_action ≡ true
unfolding needs_owner
propose-needs_owner = refl

owner_required_example :
    (x : Error) × (call (host alice 20) decoder propose_action payload world ≡ (err x, world))
owner_required_example =
    owner_required (host alice 20) decoder propose_action payload world alice-is_owner
      propose-needs_owner

pause_at_once_example :
    (st' : State) × (Calls.execute
        (host owner 20)
        decoder
        payload
        (Calls.propose (host owner 20) decoder payload world).1
      ≡ (ok none, st'))
    × (is_paused st' ≡ true)
pause_at_once_example =
    pause_at_once (host owner 20) decoder payload payload world owner-is_owner refl refl first_id
      (omega arith)

-- Alice proposes and Bob pays, in vain and with success.
abbrev two_calls : List Step
two_calls =
    record { env = host alice 20; decoder = decoder; function = propose_action; payload = payload }
    ∷ record { env = host alice 21; decoder = decoder; function = send; payload = payload }
    ∷ []

two_calls-EachKeeps : EachKeeps two_calls
unfolding EachKeeps
two_calls-EachKeeps = (host-CalledKeeps alice 20, (host-CalledKeeps alice 21, tt))

world-is_initialized : is_initialized world ≡ true
unfolding account_mapping.Prelude.eqb
world-is_initialized = refl

initialized_stays_example : is_initialized (run two_calls world) ≡ true
initialized_stays_example =
    initialized_stays two_calls world two_calls-EachKeeps world-is_initialized
