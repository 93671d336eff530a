-- ===== src/Mapping/Transfers.antt =====
-- contract/mapping/handlers.go: `HandleTransfer`, `HandleTransferFrom` and the allowances.
pub mod Laws
pub mod Conserve
pub mod Solvent
use account_mapping.Prelude.{
  Bool, true, false, not, Option, none, some, [], Bytes, ℤ, pos, ◌+ℤ◌, ◌-ℤ◌, ltb_ℤ, leb_ℤ, eqb,
  if◌then◌else◌,
}
use account_mapping.Codec.Decimal.{set_string}
use account_mapping.Result.{
  Result, ok, err, ◌>>=◌ as bind, contract_error, input, intent, balance, reject_if,
}
use account_mapping.Host.State.{State, Env}
use account_mapping.Host.Action.{Action, pure, lift, gets, modify, fail_if, ◌>>=◌, ◌>>◌}
use account_mapping.Mapping.Balance.{inc_balance, dec_balance, get_allowance, set_allowance}
use account_mapping.Mapping.Registry.{is_paused}

-- contract/mapping/types.go
pub record TransferParams : Type 0 where
  pub amount_text : Bytes
  pub to_address : Bytes
  pub from_account : Bytes
  pub asset : Bytes
  pub token_address : Bytes
  pub deduct_fee : Bool
  pub max_fee : Bytes

pub record AllowanceParams : Type 0 where
  pub spender : Bytes
  pub amount_text : Bytes
  pub asset : Bytes

-- `amount, ok := SetString(..); if !ok || amount.Sign() <= 0 { error }`
unfoldable pub positive_amount : Bytes → Result ℤ
unfolding set_string
positive_amount text = elim (set_string text) [
  | none ↦ err (contract_error input "invalid amount")
  | some v ↦ if leb_ℤ v (pos 0) then err (contract_error input "invalid amount") else ok v
]

-- The same with `amount.Sign() < 0`.
unfoldable pub non_negative_amount : Bytes → Result ℤ
unfolding set_string
non_negative_amount text = elim (set_string text) [
  | none ↦ err (contract_error input "invalid amount")
  | some v ↦ if ltb_ℤ v (pos 0) then err (contract_error input "invalid amount") else ok v
]

-- `if isPaused() { return error }`
unfoldable pub require_running : Action (Unit {0})
require_running st =
    (if is_paused st then err (contract_error intent "contract is paused") else ok tt, st)

-- `if !DecBalance(..) { return error }`
unfoldable pub debit : Bytes → Bytes → ℤ → Action (Unit {0})
debit address asset amount st =
    let result = dec_balance address asset amount st in
    (if result.0 then ok tt else err (contract_error balance "insufficient balance"), result.1)

module _ (env : Env) where
  unfoldable pub handle_transfer : TransferParams → Action (Unit {0})
  unfolding require_running debit
  handle_transfer p = do
    require_running
    amount ← lift (positive_amount p.amount_text)
    fail_if (eqb p.to_address []) input "invalid recipient"
    debit env.caller p.asset amount
    modify (inc_balance p.to_address p.asset amount)

  unfoldable pub handle_transfer_from : TransferParams → Action (Unit {0})
  unfolding require_running debit
  handle_transfer_from p = do
    require_running
    amount ← lift (positive_amount p.amount_text)
    fail_if (eqb p.to_address []) input "invalid recipient"
    allowance ← gets (λ st. get_allowance st p.from_account env.caller p.asset)
    fail_if (ltb_ℤ allowance amount) balance "insufficient allowance"
    debit p.from_account p.asset amount
    modify (set_allowance p.from_account env.caller p.asset (allowance -ℤ amount))
    modify (inc_balance p.to_address p.asset amount)

  unfoldable pub handle_approve : AllowanceParams → Action (Unit {0})
  unfolding require_running
  handle_approve p = do
    require_running
    amount ← lift (non_negative_amount p.amount_text)
    modify (set_allowance env.caller p.spender p.asset amount)

  unfoldable pub handle_increase_allowance : AllowanceParams → Action (Unit {0})
  unfolding require_running
  handle_increase_allowance p = do
    require_running
    amount ← lift (positive_amount p.amount_text)
    current ← gets (λ st. get_allowance st env.caller p.spender p.asset)
    modify (set_allowance env.caller p.spender p.asset (current +ℤ amount))

  unfoldable pub handle_decrease_allowance : AllowanceParams → Action (Unit {0})
  unfolding require_running
  handle_decrease_allowance p = do
    require_running
    amount ← lift (positive_amount p.amount_text)
    current ← gets (λ st. get_allowance st env.caller p.spender p.asset)
    let new_val = current -ℤ amount
    modify (
        set_allowance env.caller p.spender p.asset
          (if ltb_ℤ new_val (pos 0) then pos 0 else new_val))
