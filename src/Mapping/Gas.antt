-- ===== src/Mapping/Gas.antt =====
-- The gas arithmetic of contract/mapping/balance.go, and the gas reserve of handlers.go.
pub mod Laws
use account_mapping.Prelude.{
  ℕ, ◌+◌, ◌*◌, ◌/◌, ◌%◌, ◌^◌, Bool, true, false, ◌&&◌, ◌||◌, not, Option, none, some, Bytes, ℤ, pos,
  ◌+ℤ◌, ◌-ℤ◌, ltb, ◌==◌, if◌then◌else◌,
}
use account_mapping.Codec.Decimal.{big_int_string}
use account_mapping.Result.{Result, ok, err, ◌>>=◌, ◌>>◌, reject_if, arithmetic}
use account_mapping.Host.State.{State, add64}
use account_mapping.Mapping.Balance.{stored_amount}
use account_mapping.Mapping.Supply.{clamp}

-- The price for each unit of gas, and the total fee; all but the total are uint64.
unfoldable pub safe_gas_fee : (gas_units base_fee multiplier tip_cap : ℕ) → Result (ℕ × ℤ)
safe_gas_fee gas_units base_fee multiplier tip_cap =
    let scaled = (base_fee * multiplier) % 2 ^ 64 in
    let fee_cap = add64 scaled tip_cap in
    do
      reject_if
          (not (base_fee == 0) && (not (multiplier == 0) && not (scaled / multiplier == base_fee)))
          arithmetic "gas fee cap overflow"
      reject_if (ltb fee_cap scaled) arithmetic "gas fee cap overflow"
      ok (
          if gas_units == 0 || fee_cap == 0
          then (fee_cap, pos 0)
          else (fee_cap, pos (gas_units * fee_cap)))

unfoldable pub get_gas_reserve : State → ℤ
get_gas_reserve st = stored_amount st.gas_reserve

unfoldable pub set_gas_reserve : ℤ → State → State
set_gas_reserve amount st = record st { gas_reserve = some (big_int_string amount) }

unfoldable pub add_gas_reserve : ℤ → State → State
add_gas_reserve amount st = set_gas_reserve (get_gas_reserve st +ℤ amount) st

unfoldable pub deduct_gas_reserve : ℤ → State → State
deduct_gas_reserve amount st = set_gas_reserve (clamp (get_gas_reserve st -ℤ amount)) st
