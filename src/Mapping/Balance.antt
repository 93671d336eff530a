-- ===== src/Mapping/Balance.antt =====
-- contract/mapping/balance.go: balances and allowances.
pub mod Laws
use account_mapping.Prelude.{
  ℕ, Bool, true, false, Option, none, some, ◌++◌, Bytes, bytes, ℤ, pos, ◌+ℤ◌, ◌-ℤ◌, ltb_ℤ, leb_ℤ,
  if◌then◌else◌, eqb,
}
use account_mapping.Codec.Decimal.{parse_amount, big_int_string}
use account_mapping.Host.State.{State, set_at}

-- What follows the prefix `a-`.
unfoldable pub balance_key : Bytes → Bytes → Bytes
balance_key address asset = address ++ (bytes "-" ++ asset)

-- What follows the prefix `q-`.
unfoldable pub allowance_key : Bytes → Bytes → Bytes → Bytes
allowance_key owner spender asset = owner ++ (bytes "-" ++ (spender ++ (bytes "-" ++ asset)))

-- A stored amount; an absent one reads as zero.
unfoldable pub stored_amount : Option Bytes → ℤ
stored_amount none = pos 0
stored_amount (some text) = parse_amount text

unfoldable pub get_balance : State → Bytes → Bytes → ℤ
get_balance st address asset = stored_amount (st.balances (balance_key address asset))

unfoldable pub set_balance : Bytes → Bytes → ℤ → State → State
set_balance address asset amount st = record st {
  balances = set_at (balance_key address asset) (big_int_string amount) st.balances;
}

unfoldable pub inc_balance : Bytes → Bytes → ℤ → State → State
inc_balance address asset amount st =
    set_balance address asset (get_balance st address asset +ℤ amount) st

-- `false` refuses an amount that is not positive, and one that exceeds the balance.
unfoldable pub dec_balance : Bytes → Bytes → ℤ → State → Bool × State
dec_balance address asset amount st =
    if leb_ℤ amount (pos 0)
    then (false, st)
    else if ltb_ℤ (get_balance st address asset) amount
    then (false, st)
    else (true, set_balance address asset (get_balance st address asset -ℤ amount) st)

unfoldable pub get_allowance : State → Bytes → Bytes → Bytes → ℤ
get_allowance st owner spender asset =
    stored_amount (st.allowances (allowance_key owner spender asset))

unfoldable pub set_allowance : Bytes → Bytes → Bytes → ℤ → State → State
set_allowance owner spender asset amount st = record st {
  allowances = set_at (allowance_key owner spender asset) (big_int_string amount) st.allowances;
}
