-- ===== src/Exports/Authority.antt =====
-- Who may do what through the exported functions of contract/main.go.
use account_mapping.Prelude.{
  ℕ, ◌≤◌, ◌<◌, ◌≡◌, refl, ◌∙◌, sym, ap, ◌⊎◌, inl, inr, true, false, Bytes, arith, Option, some,
  Bool-cases, Option-cases,
}
use account_mapping.Result.{ok, err, Error}
use account_mapping.Host.State.{State, Env, PendingProposal, accepted}
use account_mapping.Host.Action.{exported}
use account_mapping.Host.Action.Laws.{Result-cases}
use account_mapping.Mapping.Registry.{is_paused}
use account_mapping.Admin.Proposals.{
  load_proposal, store_proposal, set_status, is_pending, execute_validated,
}
use account_mapping.Admin.Lifecycle.{execute-ok}
use account_mapping.Exports.Payloads.{Json}
use account_mapping.Exports.Access.{wrapping, check_owner, is_owner, assert_not_paused}
use account_mapping.Exports.Dispatch.{
  AdminAction, action_named, is_emergency, run_admin, run_gated, dispatch_admin,
}
use account_mapping.Exports.Calls
use account_mapping.Exports.Calls.{
  Export, call, initialize, execute_action, deposit, info, spend_schema, withdraw_eth,
  withdraw_erc20, confirm, send, send_from, allow, withdraw_from, allow_more, allow_less, ingest,
  propose_action, cancel_action, expire_action, expire_spend, cancel_spend, id_of, is_initialized,
}
use account_mapping.Exports.Config.{config, CalledKeeps}
use account_mapping.Exports.Config.Calls.{
  call_map-Keeps, get_info-Keeps, schema-Keeps, call_unmap_eth-Keeps, call_unmap_erc20-Keeps,
  call_confirm_spend-Keeps, call_transfer-Keeps, call_transfer_from-Keeps, call_approve-Keeps,
  call_unmap_from-Keeps, call_increase_allowance-Keeps, call_decrease_allowance-Keeps,
  call_add_blocks-Keeps, call_propose-Keeps, call_cancel-Keeps, call_expire_proposal-Keeps,
  call_expire_withdrawal-Keeps, call_cancel_my_withdrawal-Keeps,
}

-- A proposal that is carried out: it was pending under its id, its timelock has passed and its window
-- has not, and the case of its action ran, behind the check of the pause where it is no emergency.
pub record CarriedOut (env : Env) (decoder : Json) (id : ℕ) (st st' : State) : Type 0 where
  pub proposal : PendingProposal
  pub stored : load_proposal st id ≡ some proposal
  pub waiting : is_pending proposal.status ≡ true
  pub due : proposal.exec_height ≤ env.block_height
  pub alive : env.block_height < proposal.expire_height
  pub action : AdminAction
  pub named : action_named proposal.action ≡ some action
  pub open_or_emergency : (is_paused st ≡ false) ⊎ (is_emergency action ≡ true)
  pub ran :
      run_admin env decoder action proposal.payload
        (store_proposal (set_status accepted proposal) st)
      ≡ (ok tt, st')

module _ (env : Env) (decoder : Json) where
  dispatch-ok :
      (name payload : Bytes) (st : State) {st' : State}
      → dispatch_admin env decoder name payload st ≡ (ok tt, st')
      → (a : AdminAction) × (action_named name ≡ some a)
        × ((is_paused st ≡ false) ⊎ (is_emergency a ≡ true))
        × (run_admin env decoder a payload st ≡ (ok tt, st'))
  unfolding dispatch_admin run_gated assert_not_paused
  dispatch-ok name payload st {st'} h = elim (Option-cases (action_named name)) [
    | inl unknown ↦ absurd (ground arith)
    | inr (a, e) ↦ elim (Bool-cases (is_emergency a)) [
      | inl now ↦ (a, e, inr now, ground arith)
      | inr gated ↦ elim (Bool-cases (is_paused st)) [
        | inl shut ↦ absurd (ground arith)
        | inr running ↦ (a, e, inl running, ground arith)
      ]
    ]
  ]

  store-is_paused :
      (pp : PendingProposal) (st : State) → is_paused (store_proposal pp st) ≡ is_paused st
  unfolding store_proposal is_paused
  store-is_paused pp st = refl

  carry :
      (id : ℕ) (st mid : State) {st' : State} (old pp : PendingProposal)
      → load_proposal st id ≡ some old
      → is_pending old.status ≡ true
      → old.exec_height ≤ env.block_height
      → env.block_height < old.expire_height
      → pp ≡ set_status accepted old
      → mid ≡ store_proposal pp st
      → dispatch_admin env decoder pp.action pp.payload mid ≡ (ok tt, st')
      → CarriedOut env decoder id st st'
  unfolding set_status
  carry id st mid {st'} old pp stored waiting due alive same after h =
      let accepted_one = set_status accepted old in
      let moved : mid ≡ store_proposal accepted_one st =
        after ∙ ap (λ q. store_proposal q st) same in
      let there : dispatch_admin env decoder old.action old.payload (store_proposal accepted_one st)
          ≡ (ok tt, st') =
        ap
          (λ (q : PendingProposal).
            dispatch_admin env decoder q.action q.payload (store_proposal accepted_one st))
          (sym same)
        ∙ (ap (λ m. dispatch_admin env decoder pp.action pp.payload m) (sym moved) ∙ h) in
      let (a, named, free, ran) =
        dispatch-ok old.action old.payload (store_proposal accepted_one st) there in
      record {
        proposal = old;
        stored = stored;
        waiting = waiting;
        due = due;
        alive = alive;
        action = a;
        named = named;
        open_or_emergency = rw (store-is_paused accepted_one st) at free;
        ran = ran;
      }

  -- `execute` succeeds only for the owner, and only with a proposal that is carried out.
  execute-CarriedOut :
      (payload : Option Bytes) (st : State) {r : Option Bytes} {st' : State}
      → Calls.execute env decoder payload st ≡ (ok r, st')
      → (is_owner env ≡ true) × CarriedOut env decoder (id_of env decoder payload) st st'
  unfolding Calls.execute exported wrapping check_owner
  execute-CarriedOut payload st {r} {st'} h =
      let id = id_of env decoder payload in
      let mid = (execute_validated env id env.block_height st).1 in
      elim (Result-cases (execute_validated env id env.block_height st).0) [
        | inl (pp, e) ↦
            elim (Result-cases (dispatch_admin env decoder pp.action pp.payload mid).0) [
              | inl (u, f) ↦
                  let (old, stored, waiting, due, alive, _, same, after) =
                    execute-ok env id env.block_height st {pp = pp} {st' = mid}
                      (ap (λ x. (x, mid)) e) in
                  let there : dispatch_admin env decoder pp.action pp.payload mid ≡ (ok tt, st') =
                    ground arith in
                  (ground arith, carry id st mid old pp stored waiting due alive same after there)
              | inr (x, f) ↦ absurd (ground arith)
            ]
        | inr (x, e) ↦ absurd (ground arith)
      ]

  execute-err :
      (payload : Option Bytes) (st : State) {x : Error}
      → (Calls.execute env decoder payload st).0 ≡ err x
      → (Calls.execute env decoder payload st).1 ≡ st
  unfolding Calls.execute exported
  execute-err payload st h = ground arith

  execute-config :
      (payload : Option Bytes) (st : State)
      → (config (Calls.execute env decoder payload st).1 ≡ config st)
        ⊎ ((is_owner env ≡ true)
            × CarriedOut env decoder
                (id_of env decoder payload)
                st
                (Calls.execute env decoder payload st).1)
  execute-config payload st = elim (Result-cases (Calls.execute env decoder payload st).0) [
    | inl (r, e) ↦ inr (
        execute-CarriedOut payload st {r = r}
          (ap (λ x. (x, (Calls.execute env decoder payload st).1)) e))
    | inr (x, e) ↦ inl (ap config (execute-err payload st {x = x} e))
  ]

  -- `initContract` succeeds only for the owner, and only once.
  init-config :
      (payload : Option Bytes) (st : State)
      → (config (Calls.init_contract env decoder payload st).1 ≡ config st)
        ⊎ ((is_owner env ≡ true) × (is_initialized st ≡ false))
  unfolding Calls.init_contract exported
  init-config payload st = elim (Bool-cases (is_initialized st)) [
    | inl already ↦ inl (ground arith)
    | inr fresh ↦ elim (Bool-cases (is_owner env)) [
      | inl owner ↦ inr (owner, fresh)
      | inr other ↦ inl (ground arith)
    ]
  ]

pub only_owner_configures :
    (env : Env) (decoder : Json) (e : Export) (payload : Option Bytes) (st : State)
    → CalledKeeps env
    → (config (call env decoder e payload st).1 ≡ config st)
      ⊎ ((is_owner env ≡ true)
          × (((e ≡ initialize) × (is_initialized st ≡ false))
              ⊎ ((e ≡ execute_action)
                  × CarriedOut env decoder
                      (id_of env decoder payload)
                      st
                      (call env decoder e payload st).1)))
unfolding call
only_owner_configures env decoder initialize payload st called =
    elim (init-config env decoder payload st) [
      | inl same ↦ inl same
      | inr (owner, fresh) ↦ inr (owner, inl (refl, fresh))
    ]
only_owner_configures env decoder execute_action payload st called =
    elim (execute-config env decoder payload st) [
      | inl same ↦ inl same
      | inr (owner, carried) ↦ inr (owner, inr (refl, carried))
    ]
only_owner_configures env decoder deposit payload st called =
    inl (call_map-Keeps env decoder payload called st)
only_owner_configures env decoder info payload st called =
    inl (get_info-Keeps env decoder payload st)
only_owner_configures env decoder spend_schema payload st called =
    inl (schema-Keeps env decoder payload st)
only_owner_configures env decoder withdraw_eth payload st called =
    inl (call_unmap_eth-Keeps env decoder payload st)
only_owner_configures env decoder withdraw_erc20 payload st called =
    inl (call_unmap_erc20-Keeps env decoder payload st)
only_owner_configures env decoder confirm payload st called =
    inl (call_confirm_spend-Keeps env decoder payload st)
only_owner_configures env decoder send payload st called =
    inl (call_transfer-Keeps env decoder payload st)
only_owner_configures env decoder send_from payload st called =
    inl (call_transfer_from-Keeps env decoder payload st)
only_owner_configures env decoder allow payload st called =
    inl (call_approve-Keeps env decoder payload st)
only_owner_configures env decoder withdraw_from payload st called =
    inl (call_unmap_from-Keeps env decoder payload st)
only_owner_configures env decoder allow_more payload st called =
    inl (call_increase_allowance-Keeps env decoder payload st)
only_owner_configures env decoder allow_less payload st called =
    inl (call_decrease_allowance-Keeps env decoder payload st)
only_owner_configures env decoder ingest payload st called =
    inl (call_add_blocks-Keeps env decoder payload st)
only_owner_configures env decoder propose_action payload st called =
    inl (call_propose-Keeps env decoder payload st)
only_owner_configures env decoder cancel_action payload st called =
    inl (call_cancel-Keeps env decoder payload st)
only_owner_configures env decoder expire_action payload st called =
    inl (call_expire_proposal-Keeps env decoder payload st)
only_owner_configures env decoder expire_spend payload st called =
    inl (call_expire_withdrawal-Keeps env decoder payload st)
only_owner_configures env decoder cancel_spend payload st called =
    inl (call_cancel_my_withdrawal-Keeps env decoder payload st)
