-- ===== src/Witness/Proposals.antt =====
-- Proposals.
use account_mapping.Prelude.{
  ℕ, ◌+◌, ◌≤◌, ◌<◌, ◌^◌, ◌≡◌, refl, inr, ◌⊎◌, Bool, true, false, Option, none, some, List, [], ◌∷◌,
  Bytes, bytes, replicate, arith, length, ℤ, pos,
}
use account_mapping.Result.{ok}
use account_mapping.Host.State.{State, PendingProposal, accepted}
use account_mapping.Admin.Proposals.{
  propose, execute_validated, load_proposal, timelock_for, timelock_long, expire_window_blocks,
}
use account_mapping.Admin.Lifecycle.{executed_after_timelock}
use account_mapping.Witness.World.{host, alice, world}

-- A pause, proposed and executed in one block.
abbrev proposed_world : State
proposed_world = (propose (host alice 20) (bytes "pause") (bytes "now") alice 20 world).1

proposed-ok :
    propose (host alice 20) (bytes "pause") (bytes "now") alice 20 world ≡ (ok 1, proposed_world)
unfolding account_mapping.Admin.Proposals.next_id account_mapping.Prelude.eqb propose timelock_for
proposed-ok = refl

abbrev executed_world : State
executed_world = (execute_validated (host alice 20) 1 20 proposed_world).1

unfoldable the_proposal : Option PendingProposal → PendingProposal
the_proposal (some pp) = pp
the_proposal none = record {
  proposal_id = 0;
  action = [];
  payload_hash = [];
  proposer = [];
  queue_height = 0;
  exec_height = 0;
  expire_height = 0;
  payload = [];
  status = accepted;
}

abbrev executed : PendingProposal
executed = the_proposal (load_proposal executed_world 1)

executed-ok : execute_validated (host alice 20) 1 20 proposed_world ≡ (ok executed, executed_world)
unfolding account_mapping.Admin.Proposals.new_proposal account_mapping.Admin.Proposals.next_id
    account_mapping.Admin.Proposals.set_status account_mapping.Admin.Proposals.store_proposal
    account_mapping.Prelude.eqb execute_validated load_proposal propose the_proposal timelock_for
executed-ok = refl

executed_after_timelock_example :
    (t : ℕ) × (timelock_for (bytes "pause") ≡ ok t)
    × (20 + t ≤ 20)
    × (20 < 20 + t + expire_window_blocks)
    × (executed.payload ≡ bytes "now")
    × (executed.action ≡ bytes "pause")
    × (executed.status ≡ accepted)
executed_after_timelock_example =
    executed_after_timelock (host alice 20) (host alice 20) (bytes "pause") (bytes "now") alice 20
      20 1 world proposed_world {pp = executed} (omega arith) proposed-ok refl executed-ok
