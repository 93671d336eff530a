-- ===== src/Exports/Refusals.antt =====
-- What the exported functions of contract/main.go refuse: the admin functions to anyone but the owner.
pub mod Paused
use account_mapping.Prelude.{
  ℕ, ◌≡◌, refl, ap, inl, inr, Bool, true, false, not, ◌||◌, Bytes, bytes, eqb, arith, Option, none,
  some, Bool-cases, Option-cases, if◌then◌else◌,
}
use account_mapping.Result.{Result, ok, err, Error, is_ok}
use account_mapping.Host.State.{State, Env}
use account_mapping.Host.Action.{Action, exported}
use account_mapping.Host.Action.Laws.{Result-cases, exported-err}
use account_mapping.Mapping.Registry.{is_paused}
use account_mapping.Mapping.Transfers
use account_mapping.Mapping.Transfers.{TransferParams, AllowanceParams, require_running}
use account_mapping.Mapping.Deposits.{MapParams, handle_map}
use account_mapping.Mapping.Unmap.{
  require_idle, check_unmap_eth, handle_unmap_eth, check_unmap_erc20, handle_unmap_erc20,
}
use account_mapping.Mapping.UnmapFrom.{check_unmap_from, handle_unmap_from}
use account_mapping.Mapping.Confirm.{ConfirmSpendRequest, check_confirm, handle_confirm_spend}
use account_mapping.Mapping.Lifecycle.{
  L1ProofOfDrop, require_unpaused, handle_expire_withdrawal, handle_cancel_my_withdrawal,
}
use account_mapping.Exports.Payloads.{Json}
use account_mapping.Exports.Access.{
  wrapping, check_owner, is_owner, check_oracle_account, oracle_or_empty, unmarshal_params,
}
use account_mapping.Exports.Calls
use account_mapping.Exports.Calls.{Export, call}

-- A call that fails.
abbrev pub Fails : {A : Type 0} → Action A → State → Type 0
Fails m st = is_ok (m st).0 ≡ false

-- A call that fails and leaves the storage as it was.
abbrev pub Refused : {A : Type 0} → Action A → State → Type 0
Refused m st = (x : Error) × (m st ≡ (err x, st))

pub exported-Refused :
    {A : Type 0} (m : Action A) (st : State) → Fails m st → Refused (exported m) st
unfolding exported
exported-Refused m st h = elim (Result-cases (m st).0) [
  | inl (a, e) ↦ absurd (ground arith)
  | inr (x, e) ↦ (x, ground arith)
]

-- The exported functions that the owner alone may call.
unfoldable pub needs_owner : Export → Bool
needs_owner Calls.initialize = true
needs_owner Calls.propose_action = true
needs_owner Calls.execute_action = true
needs_owner Calls.cancel_action = true
needs_owner _ = false

module _ (env : Env) (decoder : Json) (payload : Option Bytes) (st : State) where
  module _ (other : is_owner env ≡ false) where
    call_other-init_contract : Refused (Calls.init_contract env decoder payload) st
    unfolding Calls.init_contract
    call_other-init_contract = exported-Refused _ st (ground arith)

    call_other-propose : Refused (Calls.propose env decoder payload) st
    unfolding Calls.propose check_owner
    call_other-propose = exported-Refused _ st (ground arith)

    call_other-execute : Refused (Calls.execute env decoder payload) st
    unfolding Calls.execute check_owner
    call_other-execute = exported-Refused _ st (ground arith)

    call_other-cancel : Refused (Calls.cancel env decoder payload) st
    unfolding Calls.cancel check_owner
    call_other-cancel = exported-Refused _ st (ground arith)

  call_other-add_blocks :
      is_owner env ≡ false
      → eqb env.caller (oracle_or_empty env st) ≡ false
      → Refused (Calls.add_blocks env decoder payload) st
  unfolding Calls.add_blocks check_oracle_account
  call_other-add_blocks other stranger = exported-Refused _ st (ground arith)

-- `initContract`, `propose`, `execute` and `cancel` are refused to every caller but the owner, and
-- change nothing.
pub owner_required :
    (env : Env) (decoder : Json) (e : Export) (payload : Option Bytes) (st : State)
    → is_owner env ≡ false
    → needs_owner e ≡ true
    → (x : Error) × (call env decoder e payload st ≡ (err x, st))
unfolding call needs_owner
owner_required env decoder Calls.initialize payload st other m =
    call_other-init_contract env decoder payload st other
owner_required env decoder Calls.propose_action payload st other m =
    call_other-propose env decoder payload st other
owner_required env decoder Calls.execute_action payload st other m =
    call_other-execute env decoder payload st other
owner_required env decoder Calls.cancel_action payload st other m =
    call_other-cancel env decoder payload st other
owner_required env decoder Calls.deposit payload st other m = absurd (ground arith)
owner_required env decoder Calls.withdraw_eth payload st other m = absurd (ground arith)
owner_required env decoder Calls.withdraw_erc20 payload st other m = absurd (ground arith)
owner_required env decoder Calls.confirm payload st other m = absurd (ground arith)
owner_required env decoder Calls.send payload st other m = absurd (ground arith)
owner_required env decoder Calls.send_from payload st other m = absurd (ground arith)
owner_required env decoder Calls.allow payload st other m = absurd (ground arith)
owner_required env decoder Calls.withdraw_from payload st other m = absurd (ground arith)
owner_required env decoder Calls.allow_more payload st other m = absurd (ground arith)
owner_required env decoder Calls.allow_less payload st other m = absurd (ground arith)
owner_required env decoder Calls.expire_spend payload st other m = absurd (ground arith)
owner_required env decoder Calls.cancel_spend payload st other m = absurd (ground arith)
owner_required env decoder Calls.info payload st other m = absurd (ground arith)
owner_required env decoder Calls.ingest payload st other m = absurd (ground arith)
owner_required env decoder Calls.expire_action payload st other m = absurd (ground arith)
owner_required env decoder Calls.spend_schema payload st other m = absurd (ground arith)
