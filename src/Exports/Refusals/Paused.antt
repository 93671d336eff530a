-- ===== src/Exports/Refusals/Paused.antt =====
-- What the exported functions of contract/main.go refuse while the contract is paused: everything that
-- moves money.
use account_mapping.Prelude.{ℕ, ◌≡◌, Bool, true, false, Bytes, arith, Option}
use account_mapping.Result.{err, Error}
use account_mapping.Host.State.{State, Env}
use account_mapping.Mapping.Registry.{is_paused}
use account_mapping.Mapping.Transfers
use account_mapping.Mapping.Transfers.{TransferParams, AllowanceParams, require_running}
use account_mapping.Mapping.Deposits.{MapParams, handle_map}
use account_mapping.Mapping.Unmap.{
  require_idle, check_unmap_eth, handle_unmap_eth, check_unmap_erc20, handle_unmap_erc20,
}
use account_mapping.Mapping.UnmapFrom.{check_unmap_from, handle_unmap_from}
use account_mapping.Mapping.Confirm.{ConfirmSpendRequest, check_confirm, handle_confirm_spend}
use account_mapping.Mapping.Lifecycle.{
  L1ProofOfDrop, require_unpaused, handle_expire_withdrawal, handle_cancel_my_withdrawal,
}
use account_mapping.Exports.Payloads.{Json}
use account_mapping.Exports.Access.{wrapping}
use account_mapping.Exports.Calls
use account_mapping.Exports.Calls.{Export, call}
use account_mapping.Exports.Refusals.{Fails, exported-Refused, Refused}

module _ (env : Env) (st : State) (paused : is_paused st ≡ true) where
  paused-transfer : (p : TransferParams) → Fails (Transfers.handle_transfer env p) st
  unfolding Transfers.handle_transfer require_running
  paused-transfer p = ground arith

  paused-transfer_from : (p : TransferParams) → Fails (Transfers.handle_transfer_from env p) st
  unfolding Transfers.handle_transfer_from require_running
  paused-transfer_from p = ground arith

  paused-approve : (p : AllowanceParams) → Fails (Transfers.handle_approve env p) st
  unfolding Transfers.handle_approve require_running
  paused-approve p = ground arith

  paused-increase_allowance :
      (p : AllowanceParams) → Fails (Transfers.handle_increase_allowance env p) st
  unfolding Transfers.handle_increase_allowance require_running
  paused-increase_allowance p = ground arith

  paused-decrease_allowance :
      (p : AllowanceParams) → Fails (Transfers.handle_decrease_allowance env p) st
  unfolding Transfers.handle_decrease_allowance require_running
  paused-decrease_allowance p = ground arith

  paused-map :
      (p : MapParams) (vault : Bytes) (chain_id : ℕ) → Fails (handle_map env p vault chain_id) st
  unfolding handle_map require_running
  paused-map p vault chain_id = ground arith

  paused-unmap_eth :
      (p : TransferParams) (vault : Bytes) (chain_id : ℕ)
      → Fails (handle_unmap_eth env p vault chain_id) st
  unfolding handle_unmap_eth check_unmap_eth require_idle
  paused-unmap_eth p vault chain_id = ground arith

  paused-unmap_erc20 :
      (p : TransferParams) (vault : Bytes) (chain_id : ℕ)
      → Fails (handle_unmap_erc20 env p vault chain_id) st
  unfolding handle_unmap_erc20 check_unmap_erc20 require_idle
  paused-unmap_erc20 p vault chain_id = ground arith

  paused-unmap_from :
      (p : TransferParams) (vault : Bytes) (chain_id : ℕ)
      → Fails (handle_unmap_from env p vault chain_id) st
  unfolding handle_unmap_from check_unmap_from require_idle
  paused-unmap_from p vault chain_id = ground arith

  paused-confirm_spend :
      (p : ConfirmSpendRequest) (chain_id : ℕ) → Fails (handle_confirm_spend env p chain_id) st
  unfolding handle_confirm_spend check_confirm require_running
  paused-confirm_spend p chain_id = ground arith

  paused-expire_withdrawal :
      (n : ℕ) (proof : L1ProofOfDrop) (chain_id : ℕ)
      → Fails (handle_expire_withdrawal env n proof chain_id) st
  unfolding handle_expire_withdrawal require_unpaused
  paused-expire_withdrawal n proof chain_id = ground arith

  paused-cancel_my_withdrawal :
      (n : ℕ) (proof : L1ProofOfDrop) (vault : Bytes) (chain_id : ℕ)
      → Fails (handle_cancel_my_withdrawal env n proof vault chain_id) st
  unfolding handle_cancel_my_withdrawal require_unpaused
  paused-cancel_my_withdrawal n proof vault chain_id = ground arith

-- The exported functions that move money.
unfoldable pub moves_money : Export → Bool
moves_money Calls.deposit = true
moves_money Calls.withdraw_eth = true
moves_money Calls.withdraw_erc20 = true
moves_money Calls.confirm = true
moves_money Calls.send = true
moves_money Calls.send_from = true
moves_money Calls.allow = true
moves_money Calls.withdraw_from = true
moves_money Calls.allow_more = true
moves_money Calls.allow_less = true
moves_money Calls.expire_spend = true
moves_money Calls.cancel_spend = true
moves_money _ = false

module _ (env : Env) (decoder : Json) (payload : Option Bytes) (st : State) where
  module _ (paused : is_paused st ≡ true) where
    call_paused-map_deposit : Refused (Calls.map_deposit env decoder payload) st
    unfolding Calls.map_deposit wrapping
    call_paused-map_deposit = exported-Refused _ st (grind (arith, paused-map env st paused))

    call_paused-unmap_eth : Refused (Calls.unmap_eth env decoder payload) st
    unfolding Calls.unmap_eth wrapping
    call_paused-unmap_eth = exported-Refused _ st (grind (arith, paused-unmap_eth env st paused))

    call_paused-unmap_erc20 : Refused (Calls.unmap_erc20 env decoder payload) st
    unfolding Calls.unmap_erc20 wrapping
    call_paused-unmap_erc20 =
        exported-Refused _ st (grind (arith, paused-unmap_erc20 env st paused))

    call_paused-confirm_spend : Refused (Calls.confirm_spend env decoder payload) st
    unfolding Calls.confirm_spend wrapping
    call_paused-confirm_spend =
        exported-Refused _ st (grind (arith, paused-confirm_spend env st paused))

    call_paused-transfer : Refused (Calls.transfer env decoder payload) st
    unfolding Calls.transfer wrapping
    call_paused-transfer = exported-Refused _ st (grind (arith, paused-transfer env st paused))

    call_paused-transfer_from : Refused (Calls.transfer_from env decoder payload) st
    unfolding Calls.transfer_from wrapping
    call_paused-transfer_from =
        exported-Refused _ st (grind (arith, paused-transfer_from env st paused))

    call_paused-approve : Refused (Calls.approve env decoder payload) st
    unfolding Calls.approve wrapping
    call_paused-approve = exported-Refused _ st (grind (arith, paused-approve env st paused))

    call_paused-unmap_from : Refused (Calls.unmap_from env decoder payload) st
    unfolding Calls.unmap_from wrapping
    call_paused-unmap_from = exported-Refused _ st (grind (arith, paused-unmap_from env st paused))

    call_paused-increase_allowance : Refused (Calls.increase_allowance env decoder payload) st
    unfolding Calls.increase_allowance wrapping
    call_paused-increase_allowance =
        exported-Refused _ st (grind (arith, paused-increase_allowance env st paused))

    call_paused-decrease_allowance : Refused (Calls.decrease_allowance env decoder payload) st
    unfolding Calls.decrease_allowance wrapping
    call_paused-decrease_allowance =
        exported-Refused _ st (grind (arith, paused-decrease_allowance env st paused))

    call_paused-expire_withdrawal : Refused (Calls.expire_withdrawal env decoder payload) st
    unfolding Calls.expire_withdrawal wrapping
    call_paused-expire_withdrawal =
        exported-Refused _ st (grind (arith, paused-expire_withdrawal env st paused))

    call_paused-cancel_my_withdrawal : Refused (Calls.cancel_my_withdrawal env decoder payload) st
    unfolding Calls.cancel_my_withdrawal wrapping
    call_paused-cancel_my_withdrawal =
        exported-Refused _ st (grind (arith, paused-cancel_my_withdrawal env st paused))

-- While the contract is paused, the twelve exported functions that move money (deposits,
-- withdrawals, confirmations, expiries and cancellations, transfers and allowances) are refused,
-- whoever calls them with what payload, and change nothing.
pub paused_refuses :
    (env : Env) (decoder : Json) (e : Export) (payload : Option Bytes) (st : State)
    → is_paused st ≡ true
    → moves_money e ≡ true
    → (x : Error) × (call env decoder e payload st ≡ (err x, st))
unfolding call moves_money
paused_refuses env decoder Calls.deposit payload st paused m =
    call_paused-map_deposit env decoder payload st paused
paused_refuses env decoder Calls.withdraw_eth payload st paused m =
    call_paused-unmap_eth env decoder payload st paused
paused_refuses env decoder Calls.withdraw_erc20 payload st paused m =
    call_paused-unmap_erc20 env decoder payload st paused
paused_refuses env decoder Calls.confirm payload st paused m =
    call_paused-confirm_spend env decoder payload st paused
paused_refuses env decoder Calls.send payload st paused m =
    call_paused-transfer env decoder payload st paused
paused_refuses env decoder Calls.send_from payload st paused m =
    call_paused-transfer_from env decoder payload st paused
paused_refuses env decoder Calls.allow payload st paused m =
    call_paused-approve env decoder payload st paused
paused_refuses env decoder Calls.withdraw_from payload st paused m =
    call_paused-unmap_from env decoder payload st paused
paused_refuses env decoder Calls.allow_more payload st paused m =
    call_paused-increase_allowance env decoder payload st paused
paused_refuses env decoder Calls.allow_less payload st paused m =
    call_paused-decrease_allowance env decoder payload st paused
paused_refuses env decoder Calls.expire_spend payload st paused m =
    call_paused-expire_withdrawal env decoder payload st paused
paused_refuses env decoder Calls.cancel_spend payload st paused m =
    call_paused-cancel_my_withdrawal env decoder payload st paused
paused_refuses env decoder Calls.initialize payload st paused m = absurd (ground arith)
paused_refuses env decoder Calls.info payload st paused m = absurd (ground arith)
paused_refuses env decoder Calls.ingest payload st paused m = absurd (ground arith)
paused_refuses env decoder Calls.propose_action payload st paused m = absurd (ground arith)
paused_refuses env decoder Calls.execute_action payload st paused m = absurd (ground arith)
paused_refuses env decoder Calls.cancel_action payload st paused m = absurd (ground arith)
paused_refuses env decoder Calls.expire_action payload st paused m = absurd (ground arith)
paused_refuses env decoder Calls.spend_schema payload st paused m = absurd (ground arith)
