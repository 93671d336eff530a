-- ===== src/Exports/Config/Calls.antt =====
-- The exported functions of contract/main.go that anyone may call, and the configuration.
use account_mapping.Prelude.{refl, Bytes, arith, Option}
use account_mapping.Host.State.{Env}
use account_mapping.Host.Action.{Action, exported}
use account_mapping.Exports.Payloads.{Json}
use account_mapping.Exports.Access.{wrapping, check_oracle_account, check_owner}
use account_mapping.Exports.Calls
use account_mapping.Exports.Config.{config_laws, Keeps, CalledKeeps}
use account_mapping.Exports.Config.Handlers.{
  transfer-Keeps, transfer_from-Keeps, approve-Keeps, increase_allowance-Keeps,
  decrease_allowance-Keeps, unmap_eth-Keeps, unmap_erc20-Keeps, unmap_from-Keeps,
  confirm_spend-Keeps, expire_withdrawal-Keeps, cancel_my_withdrawal-Keeps, add_blocks-Keeps,
  propose-Keeps, cancel-Keeps, expire_proposal-Keeps, map-Keeps,
}

module _ {A : Type 0} where
  exported-Keeps : (m : Action A) → Keeps m → Keeps (exported m)
  unfolding exported
  exported-Keeps m h st = ground (arith, h st)

  wrapping-Keeps : (m : Action A) → Keeps m → Keeps (wrapping m)
  unfolding wrapping
  wrapping-Keeps m h st = ground (arith, h st)

module _ (env : Env) (decoder : Json) (payload : Option Bytes) where
  pub call_transfer-Keeps : Keeps (Calls.transfer env decoder payload)
  unfolding Calls.transfer exported wrapping
  call_transfer-Keeps st = grind (config_laws, transfer-Keeps)

  pub call_transfer_from-Keeps : Keeps (Calls.transfer_from env decoder payload)
  unfolding Calls.transfer_from exported wrapping
  call_transfer_from-Keeps st = grind (config_laws, transfer_from-Keeps)

  pub call_approve-Keeps : Keeps (Calls.approve env decoder payload)
  unfolding Calls.approve exported wrapping
  call_approve-Keeps st = grind (config_laws, approve-Keeps)

  pub call_increase_allowance-Keeps : Keeps (Calls.increase_allowance env decoder payload)
  unfolding Calls.increase_allowance exported wrapping
  call_increase_allowance-Keeps st = grind (config_laws, increase_allowance-Keeps)

  pub call_decrease_allowance-Keeps : Keeps (Calls.decrease_allowance env decoder payload)
  unfolding Calls.decrease_allowance exported wrapping
  call_decrease_allowance-Keeps st = grind (config_laws, decrease_allowance-Keeps)

  pub call_unmap_eth-Keeps : Keeps (Calls.unmap_eth env decoder payload)
  unfolding Calls.unmap_eth exported wrapping
  call_unmap_eth-Keeps st = grind (config_laws, unmap_eth-Keeps)

  pub call_unmap_erc20-Keeps : Keeps (Calls.unmap_erc20 env decoder payload)
  unfolding Calls.unmap_erc20 exported wrapping
  call_unmap_erc20-Keeps st = grind (config_laws, unmap_erc20-Keeps)

  pub call_unmap_from-Keeps : Keeps (Calls.unmap_from env decoder payload)
  unfolding Calls.unmap_from exported wrapping
  call_unmap_from-Keeps st = grind (config_laws, unmap_from-Keeps)

  pub call_confirm_spend-Keeps : Keeps (Calls.confirm_spend env decoder payload)
  unfolding Calls.confirm_spend exported wrapping
  call_confirm_spend-Keeps st = grind (config_laws, confirm_spend-Keeps)

  pub call_expire_withdrawal-Keeps : Keeps (Calls.expire_withdrawal env decoder payload)
  unfolding Calls.expire_withdrawal exported wrapping
  call_expire_withdrawal-Keeps st = grind (config_laws, expire_withdrawal-Keeps)

  pub call_cancel_my_withdrawal-Keeps : Keeps (Calls.cancel_my_withdrawal env decoder payload)
  unfolding Calls.cancel_my_withdrawal exported wrapping
  call_cancel_my_withdrawal-Keeps st = grind (config_laws, cancel_my_withdrawal-Keeps)

  pub call_add_blocks-Keeps : Keeps (Calls.add_blocks env decoder payload)
  unfolding Calls.add_blocks exported wrapping check_oracle_account
  call_add_blocks-Keeps st = grind (config_laws, add_blocks-Keeps)

  pub call_propose-Keeps : Keeps (Calls.propose env decoder payload)
  unfolding Calls.propose exported wrapping check_owner
  call_propose-Keeps st = grind (config_laws, propose-Keeps)

  pub call_cancel-Keeps : Keeps (Calls.cancel env decoder payload)
  unfolding Calls.cancel exported wrapping check_owner
  call_cancel-Keeps st = grind (config_laws, cancel-Keeps)

  pub call_expire_proposal-Keeps : Keeps (Calls.expire_proposal env decoder payload)
  unfolding Calls.expire_proposal exported wrapping
  call_expire_proposal-Keeps st = grind (config_laws, expire_proposal-Keeps)

  pub call_map-Keeps : CalledKeeps env → Keeps (Calls.map_deposit env decoder payload)
  unfolding Calls.map_deposit exported wrapping
  call_map-Keeps called st = grind (config_laws, map-Keeps env called)

  pub get_info-Keeps : Keeps (Calls.get_info env decoder payload)
  unfolding Calls.get_info
  get_info-Keeps st = refl

  pub schema-Keeps : Keeps (Calls.confirm_spend_schema env decoder payload)
  unfolding Calls.confirm_spend_schema
  schema-Keeps st = refl
