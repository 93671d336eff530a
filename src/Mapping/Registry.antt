-- ===== src/Mapping/Registry.antt =====
-- contract/mapping/handlers.go: the pause switch, the relayers, the token registry and the state of
-- the signing key.
use account_mapping.Prelude.{
  ℕ, ◌-◌, ◌^◌, Bool, false, ◌||◌, Option, none, some, List, [], ◌∷◌, ◌++◌, Bytes, bytes, ltb, ◌==◌,
  if◌then◌else◌, eqb, length, get_or, ℤ, pos, leb_ℤ, ltb_ℤ,
}
use account_mapping.Codec.Decimal.{format_uint, parse_uint64, set_string, big_int_string}
use account_mapping.Host.State.{State, Env, set_at, delete_at}

-- A key that holds the text "1".
unfoldable pub is_one : Option Bytes → Bool
is_one none = false
is_one (some b) = eqb b (bytes "1")

unfoldable pub is_paused : State → Bool
unfolding is_one
is_paused st = is_one st.paused

unfoldable pub is_whitelisted_relayer : State → Bytes → Bool
unfolding is_one
is_whitelisted_relayer st account = if eqb account [] then false else is_one (st.relayers account)

unfoldable pub set_relayer : Bytes → State → State
set_relayer account st = record st { relayers = set_at account (bytes "1") st.relayers }

unfoldable pub unset_relayer : Bytes → State → State
unset_relayer account st = record st { relayers = delete_at account st.relayers }

-- `splitPipe` of contract/mapping/withdrawal.go, with the field that is being read.
unfoldable pub split_pipe_from : Bytes → Bytes → List Bytes
split_pipe_from field [] = field ∷ []
split_pipe_from field (c ∷ s) =
    let rest = split_pipe_from [] s in
    let more = split_pipe_from (field ++ c ∷ []) s in if c == b'|' then field ∷ rest else more

unfoldable pub split_pipe : Bytes → List Bytes
unfolding split_pipe_from
split_pipe s = split_pipe_from [] s

pub record TokenInfo : Type 0 where
  pub symbol : Bytes
  pub decimals : ℕ
  pub min_withdrawal : ℤ

abbrev pub min_usdc_withdrawal : ℤ
min_usdc_withdrawal = pos 10_000_000

-- `v, _ := strconv.ParseInt(s, 10, 64)`: 0 on a syntax error, the nearest value on a range error.
unfoldable pub parse_int64 : Bytes → ℤ
unfolding set_string
parse_int64 s = elim (set_string s) [
  | none ↦ pos 0
  | some v ↦ if ltb_ℤ (pos (2 ^ 63 - 1)) v then pos (2 ^ 63 - 1) else v
]

-- `strconv.ParseUint(s, 10, 8)`, as a uint8.
unfoldable pub parse_uint8 : Bytes → ℕ
unfolding parse_uint64
parse_uint8 s = if ltb 255 (parse_uint64 s) then 255 else parse_uint64 s

-- A minimum that is missing or not positive is the default of 10 USDC.
unfoldable pub minimum_of : List Bytes → ℤ
unfolding parse_int64
minimum_of fields =
    if ltb (length fields) 3
    then min_usdc_withdrawal
    else if leb_ℤ (parse_int64 (get_or fields 2 [])) (pos 0)
    then min_usdc_withdrawal
    else parse_int64 (get_or fields 2 [])

unfoldable pub token_info_of : Option Bytes → Option TokenInfo
unfolding split_pipe parse_uint8 minimum_of
token_info_of none = none
token_info_of (some text) =
    let fields = split_pipe text in
    if ltb (length fields) 2
    then none
    else some (record {
      symbol = get_or fields 0 [];
      decimals = parse_uint8 (get_or fields 1 []);
      min_withdrawal = minimum_of fields;
    })

unfoldable pub get_token_info : State → (chain_id : ℕ) → Bytes → Option TokenInfo
unfolding token_info_of
get_token_info st chain_id addr = token_info_of (st.tokens chain_id addr)

unfoldable pub register_token :
    (chain_id : ℕ) → (addr symbol : Bytes) → (decimals : ℕ) → (min_withdrawal : ℤ) → State → State
unfolding format_uint big_int_string
register_token chain_id addr symbol decimals min_withdrawal st =
    let text =
      symbol
      ++ (bytes "|" ++ (format_uint decimals ++ (bytes "|" ++ big_int_string min_withdrawal))) in
    record st {
      tokens = λ c a.
          if c == chain_id
          then (if eqb addr a then some text else st.tokens c a)
          else st.tokens c a;
    }

-- `requireTssKey`: the host answers "" or "fail" where there is no key.
unfoldable pub tss_key_missing : Env → Bool
tss_key_missing env = eqb env.tss_key [] || eqb env.tss_key (bytes "fail")

-- `sdk.TssSignKey("primary", hash)`
unfoldable pub tss_sign : Bytes → State → State
tss_sign hash st = record st { signed = hash ∷ st.signed }
