-- ===== src/Exports/History.antt =====
-- Sequences of calls of the exported functions of contract/main.go, by any callers.
use account_mapping.Prelude.{
  ℕ, zero, suc, ◌≡◌, refl, ◌∙◌, sym, ap, inl, inr, true, false, Option, List, [], ◌∷◌, Bytes, arith,
}
use account_mapping.Result.{Result}
use account_mapping.Host.State.{State, Env, accepted}
use account_mapping.Chain.Blocks.{AddBlockEntry, handle_replace_block, handle_seed_block}
use account_mapping.Mapping.Registry.{register_token, set_relayer, unset_relayer}
use account_mapping.Mapping.Withdrawal.{delete_pending_spend}
use account_mapping.Mapping.Lifecycle.{
  L1ProofOfDrop, require_unpaused, spend_at, require_drop, sign_self_transfer,
  handle_replace_withdrawal, handle_clear_nonce, handle_clear_testnet_state, clear_testnet,
  delete_spends, delete_observed,
}
use account_mapping.Admin.Proposals.{store_proposal, set_status}
use account_mapping.Exports.Payloads.{Json}
use account_mapping.Exports.Access.{wrapping, is_owner}
use account_mapping.Exports.Dispatch
use account_mapping.Exports.Dispatch.{AdminAction, run_admin}
use account_mapping.Exports.Calls.{Export, call, is_initialized, id_of}
use account_mapping.Exports.Config.{Config, config, Keeps, CalledKeeps, config_laws}
use account_mapping.Exports.Authority.{CarriedOut, only_owner_configures}

replace_block-Keeps :
    (env : Env) (entry : AddBlockEntry) (cid : ℕ) → Keeps (handle_replace_block env entry cid)
unfolding handle_replace_block
replace_block-Keeps env entry cid st = grind (config_laws)

seed_block-Keeps :
    (env : Env) (entry : AddBlockEntry) (cid : ℕ) → Keeps (handle_seed_block env entry cid)
unfolding handle_seed_block
seed_block-Keeps env entry cid st = grind (config_laws)

replace_withdrawal-Keeps : (env : Env) (cid : ℕ) → Keeps (handle_replace_withdrawal env cid)
unfolding handle_replace_withdrawal require_unpaused spend_at
replace_withdrawal-Keeps env cid st = grind (config_laws)

clear_nonce-Keeps :
    (env : Env) (vault : Bytes) (cid : ℕ) (proof : L1ProofOfDrop)
    → Keeps (handle_clear_nonce env vault cid proof)
unfolding handle_clear_nonce require_unpaused spend_at require_drop sign_self_transfer
clear_nonce-Keeps env vault cid proof st = grind (config_laws)

config-delete_spends :
    (rounds from : ℕ) (st : State) → config (delete_spends rounds from st) ≡ config st
unfolding delete_spends delete_pending_spend
config-delete_spends zero from st = refl
config-delete_spends (suc rounds) from st =
    config-delete_spends rounds (suc from) (delete_pending_spend from st)

config-delete_observed :
    (rounds from : ℕ) (st : State) → config (delete_observed rounds from st) ≡ config st
unfolding delete_observed
config-delete_observed zero from st = refl
config-delete_observed (suc rounds) from st = config-delete_observed rounds (suc from) _

config-clear_testnet : (env : Env) (st : State) → config (clear_testnet env st) ≡ config st
unfolding clear_testnet
config-clear_testnet env st = grind (arith, config-delete_observed, config-delete_spends)

clear_testnet-Keeps : (env : Env) → Keeps (handle_clear_testnet_state env)
unfolding handle_clear_testnet_state
clear_testnet-Keeps env st = grind (config_laws, config-clear_testnet)

module _ (env : Env) (decoder : Json) where
  -- Every admin action leaves the mark of the initialisation.
  run_admin-marker :
      (a : AdminAction) (payload : Bytes) (st : State)
      → (run_admin env decoder a payload st).1.init_marker ≡ st.init_marker
  unfolding run_admin wrapping register_token set_relayer unset_relayer
  run_admin-marker Dispatch.set_vault payload st = ground arith
  run_admin-marker Dispatch.set_verifier_contract payload st = ground arith
  run_admin-marker Dispatch.create_primary payload st = ground arith
  run_admin-marker Dispatch.renew_primary payload st = ground arith
  run_admin-marker Dispatch.register_public_key payload st = ground arith
  run_admin-marker Dispatch.register_admin_token payload st = ground arith
  run_admin-marker Dispatch.register_router payload st = ground arith
  run_admin-marker Dispatch.set_gas_reserve payload st = ground arith
  run_admin-marker Dispatch.set_oracle_account payload st = ground arith
  run_admin-marker Dispatch.register_relayer payload st = ground arith
  run_admin-marker Dispatch.deregister_relayer payload st = ground arith
  run_admin-marker Dispatch.pause payload st = ground arith
  run_admin-marker Dispatch.unpause payload st = ground arith
  run_admin-marker Dispatch.replace_block payload st = grind (arith, replace_block-Keeps env)
  run_admin-marker Dispatch.replace_withdrawal payload st =
      grind (arith, replace_withdrawal-Keeps env)
  run_admin-marker Dispatch.clear_nonce payload st = grind (arith, clear_nonce-Keeps env)
  run_admin-marker Dispatch.seed_blocks payload st = grind (arith, seed_block-Keeps env)
  run_admin-marker Dispatch.clear_testnet_state payload st = grind (arith, clear_testnet-Keeps env)

-- One call, and a sequence of them.
pub record Step : Type 0 where
  pub env : Env
  pub decoder : Json
  pub function : Export
  pub payload : Option Bytes

unfoldable pub run : List Step → State → State
run [] st = st
run (s ∷ steps) st = run steps (call s.env s.decoder s.function s.payload st).1

unfoldable pub EachKeeps : List Step → Type 0
EachKeeps [] = Unit
EachKeeps (s ∷ steps) = CalledKeeps s.env × EachKeeps steps

unfoldable pub NoOwner : List Step → Type 0
NoOwner [] = Unit
NoOwner (s ∷ steps) = (is_owner s.env ≡ false) × NoOwner steps

initialized-marker :
    (st st' : State)
    → st'.init_marker ≡ st.init_marker
    → is_initialized st ≡ true
    → is_initialized st' ≡ true
initialized-marker st st' e h = rw e h

carried-marker :
    (env : Env) (decoder : Json) (id : ℕ) (st st' : State)
    → CarriedOut env decoder id st st'
    → st'.init_marker ≡ st.init_marker
unfolding store_proposal
carried-marker env decoder id st st' c =
    let mid = store_proposal (set_status accepted c.proposal) st in
    ap (λ (x : Result (Unit {0}) × State). x.1.init_marker) (sym c.ran)
    ∙ run_admin-marker env decoder c.action c.proposal.payload mid

-- A contract that is initialised stays so, whatever is called by whomever, the owner included, in any
-- number and order, as long as a router that the contract calls does not change the configuration: with
-- `only_owner_configures`, `initContract` takes effect once.
pub initialized_stays :
    (steps : List Step) (st : State)
    → EachKeeps steps
    → is_initialized st ≡ true
    → is_initialized (run steps st) ≡ true
unfolding run EachKeeps
initialized_stays [] st keeps h = h
initialized_stays (s ∷ steps) st (called, keeps) h =
    let here = (call s.env s.decoder s.function s.payload st).1 in
    let next : (here.init_marker ≡ st.init_marker) → is_initialized (run steps here) ≡ true =
      λ e. initialized_stays steps here keeps (initialized-marker st here e h) in
    elim (only_owner_configures s.env s.decoder s.function s.payload st called) [
      | inl same ↦ next (ap (λ (c : Config). c.init_marker) same)
      | inr (owner, inl (first, fresh)) ↦ absurd (ground arith)
      | inr (owner, inr (execution, c)) ↦
          next (carried-marker s.env s.decoder (id_of s.env s.decoder s.payload) st here c)
    ]
