-- ===== src/Exports/Timelocks.antt =====
-- The timelocks of contract/admin/proposals.go and the switch of `dispatchAdmin` in contract/main.go
-- name the same actions.
use account_mapping.Prelude.{ℕ, ◌≡◌, Bytes, arith, Option, none, some}
use account_mapping.Result.{Result, ok, err, contract_error, plain}
use account_mapping.Admin.Proposals.{
  timelock_for, timelock_long, timelock_tactical, timelock_operational, timelock_immediate,
}
use account_mapping.Exports.Dispatch.{AdminAction, action_named, is_emergency}
use account_mapping.Exports.Dispatch

-- The delay of each case of the switch.
unfoldable pub delay : AdminAction → ℕ
delay Dispatch.set_vault = timelock_long
delay Dispatch.set_verifier_contract = timelock_long
delay Dispatch.create_primary = timelock_long
delay Dispatch.renew_primary = timelock_long
delay Dispatch.register_public_key = timelock_tactical
delay Dispatch.replace_block = timelock_tactical
delay Dispatch.replace_withdrawal = timelock_tactical
delay Dispatch.clear_nonce = timelock_tactical
delay Dispatch.pause = timelock_immediate
delay Dispatch.unpause = timelock_immediate
delay _ = timelock_operational

unfoldable pub delay_of : Option AdminAction → Result ℕ
delay_of none = err (contract_error plain "unknown admin action")
delay_of (some a) = ok (delay a)

pub timelock_for-action_named : (name : Bytes) → timelock_for name ≡ delay_of (action_named name)
unfolding timelock_for action_named delay_of delay
timelock_for-action_named name = ground arith
