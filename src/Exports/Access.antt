-- ===== src/Exports/Access.antt =====
-- contract/main.go: what the exported functions read and check before a handler runs. An error ends
-- the call here (`CustomAbort`).
use account_mapping.Prelude.{ℕ, Bool, false, not, Option, none, some, [], Bytes, eqb, if◌then◌else◌}
use Prim.Native.String.{String, ◌++◌ as joined}
use account_mapping.Codec.Hex.{hex_to_address, zero_address}
use account_mapping.Codec.Decimal.{parse_uint64}
use account_mapping.Result.{
  Result, Error, Symbol, ok, err, contract_error, present, json, invalid_hex, input, no_permission,
  state_access, initialization, intent, auth, balance, transaction, arithmetic, plain, aborted,
}
use account_mapping.Host.State.{State, Env}
use account_mapping.Host.Action.{Action, gets, fail_if, ◌>>=◌, ◌>>◌}
use account_mapping.Mapping.Registry.{is_paused}

-- `ErrorSymbol.String()`
unfoldable pub symbol_text : Symbol → String
symbol_text json = "json_error"
symbol_text invalid_hex = "invalid_hex"
symbol_text input = "bad_input"
symbol_text no_permission = "no_permission"
symbol_text state_access = "state_access_error"
symbol_text initialization = "contract_not_initialized"
symbol_text intent = "intent_error"
symbol_text auth = "authentication_error"
symbol_text balance = "insufficient_balance"
symbol_text transaction = "transaction_error"
symbol_text arithmetic = "overflow_underflow"
symbol_text plain = ""
symbol_text aborted = ""

-- `err.Error()`; an error of `errors.New` has no symbol in front.
unfoldable pub error_text : Symbol → String → String
unfolding symbol_text
error_text plain m = m
error_text s m = joined (symbol_text s) (joined ": " m)

-- `WrapContractError(ErrInput, err)`, and `NewContractError(ErrInput, err.Error())`; a call that the
-- host has aborted does not come back.
unfoldable pub wrap_input : Error → Error
unfolding error_text
wrap_input (contract_error aborted m) = contract_error aborted m
wrap_input (contract_error s m) = contract_error input (error_text s m)

-- `if err := handler; err != nil { CustomAbort(Wrap..(ErrInput, err)) }`
unfoldable pub wrapping : {A : Type 0} → Action A → Action A
wrapping m st = elim (m st).0 [ ok a ↦ (ok a, (m st).1) | err e ↦ (err (wrap_input e), (m st).1) ]

unfoldable pub get_vault : State → Bytes
unfolding hex_to_address
get_vault st = elim st.vault [
  | none ↦ zero_address
  | some data' ↦ elim (hex_to_address data') [ ok addr ↦ addr | err e ↦ zero_address ]
]

unfoldable pub get_chain_id : State → ℕ
unfolding parse_uint64
get_chain_id st = elim st.chain_id [ none ↦ 1 | some data' ↦ parse_uint64 data' ]

-- `payload == nil`, and an error of the decoder, whose text is left out.
unfoldable pub unmarshal_params : {A : Type 0} → (Bytes → Option A) → Option Bytes → Result A
unmarshal_params decode none = err (contract_error json "payload required")
unmarshal_params decode (some payload) = present (decode payload) json ""

unfoldable pub assert_not_paused : Action (Unit {0})
unfolding wrap_input
assert_not_paused st = (
  if is_paused st
      then err (wrap_input (contract_error initialization "contract is paused"))
      else ok tt,
  st,
)

module _ (env : Env) where
  -- `owner != nil && caller == *owner`
  unfoldable pub is_owner : Bool
  is_owner = elim env.owner [ none ↦ false | some owner ↦ eqb env.caller owner ]

  unfoldable pub check_owner : Action (Unit {0})
  check_owner = fail_if (not is_owner) no_permission "owner required"

  unfoldable pub oracle_or_empty : State → Bytes
  oracle_or_empty st = elim st.oracle_account [ none ↦ [] | some account ↦ account ]

  unfoldable pub check_oracle_account : Action (Unit {0})
  check_oracle_account = do
    oracle ← gets oracle_or_empty
    fail_if (if is_owner then false else eqb oracle []) no_permission
        "addBlocks: oracle account not configured"
    fail_if (if is_owner then false else not (eqb env.caller oracle)) no_permission
        "addBlocks: oracle account required"
