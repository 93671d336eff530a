-- ===== src/Mapping/Supply.antt =====
-- contract/mapping/supply.go: the totals of an asset.
use account_mapping.Prelude.{
  ◌||◌, Option, none, some, Bytes, ℤ, pos, ◌+ℤ◌, ◌-ℤ◌, ltb_ℤ, if◌then◌else◌,
}
use account_mapping.Result.{ok, err, contract_error, aborted}
use account_mapping.Host.State.{State, Supply, set_at}
use account_mapping.Host.Action.{Action}

abbrev pub new_supply : Supply
new_supply = record { active = pos 0; user = pos 0; fee = pos 0; base_fee = 0 }

abbrev pub supply_or_new : Option Supply → Supply
supply_or_new none = new_supply
supply_or_new (some s) = s

unfoldable pub get_supply : State → Bytes → Supply
get_supply st asset = supply_or_new (st.supplies asset)

unfoldable pub set_supply : Bytes → Supply → State → State
set_supply asset s st = record st { supplies = set_at asset s st.supplies }

unfoldable pub track_deposit : Bytes → (user_amount fee_amount : ℤ) → State → State
track_deposit asset user_amount fee_amount st =
    let s = get_supply st asset in
    set_supply asset
      (record s {
        active = s.active +ℤ (user_amount +ℤ fee_amount);
        user = s.user +ℤ user_amount;
        fee = s.fee +ℤ fee_amount;
      })
      st

-- An amount above the tracked totals aborts the call (`sdk.Abort`).
unfoldable pub track_withdrawal : Bytes → ℤ → Action (Unit {0})
track_withdrawal asset amount st =
    let s = get_supply st asset in
    if ltb_ℤ s.active amount || ltb_ℤ s.user amount
    then (err (contract_error aborted "supply underflow on TrackWithdrawal"), st)
    else (
      ok tt,
      set_supply asset (record s { active = s.active -ℤ amount; user = s.user -ℤ amount }) st,
    )

-- `if x.Sign() < 0 { x.SetInt64(0) }`
abbrev pub clamp : ℤ → ℤ
clamp x = if ltb_ℤ x (pos 0) then pos 0 else x

-- The accounting of a native withdrawal in `HandleUnmapETH`: the user total falls by the whole
-- debit, the active total by what leaves the bridge, and the difference is a fee.
unfoldable pub book_native_withdrawal : (amount total_deduct : ℤ) → Supply → Supply
book_native_withdrawal amount total_deduct s = record s {
  active = clamp (s.active -ℤ amount);
  user = clamp (s.user -ℤ total_deduct);
  fee = s.fee +ℤ (total_deduct -ℤ amount);
}

-- The supply restored by a refund.
unfoldable pub restore_supply : Bytes → ℤ → State → State
restore_supply asset amount st =
    let s = get_supply st asset in
    set_supply asset (record s { active = s.active +ℤ amount; user = s.user +ℤ amount }) st
