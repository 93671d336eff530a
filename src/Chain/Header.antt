-- ===== src/Chain/Header.antt =====
-- contract/blocklist/blocks.go: the header, its 137 bytes, and the storage of headers.
pub mod RoundTrip
use account_mapping.Prelude.{
  ℕ, zero, suc, ◌+◌, ◌*◌, ◌/◌, ◌%◌, ◌^◌, Bool, true, false, Option, none, some, List, [], ◌∷◌, ◌++◌,
  Bytes, bytes, ltb, ◌==◌, if◌then◌else◌, eqb, length, take, drop, get_or,
}
use account_mapping.Codec.Decimal.{format_uint, parse_nat}
use account_mapping.Result.{Result, ok, err, ◌>>=◌, ◌>>◌, reject_if, input}
use account_mapping.Host.State.{State, Env, set_num, delete_num}

-- Roots are 32 bytes, numbers uint64.
pub record EthBlockHeader : Type 0 where
  pub block_number : ℕ
  pub state_root : Bytes
  pub transactions_root : Bytes
  pub receipts_root : Bytes
  pub base_fee_per_gas : ℕ
  pub gas_limit : ℕ
  pub timestamp : ℕ
  pub chain_id : ℕ

abbrev pub header_version_v1 : ℕ
header_version_v1 = 1

abbrev pub header_serialized_size : ℕ
header_serialized_size = 137

-- `appendUint64`: the eight bytes from the top one down.
unfoldable pub uint64_bytes : ℕ → Bytes
uint64_bytes v =
    ((v / 2 ^ 56) % 256)
    ∷ ((v / 2 ^ 48) % 256)
    ∷ ((v / 2 ^ 40) % 256)
    ∷ ((v / 2 ^ 32) % 256)
    ∷ ((v / 2 ^ 24) % 256)
    ∷ ((v / 2 ^ 16) % 256)
    ∷ ((v / 2 ^ 8) % 256)
    ∷ (v % 256)
    ∷ []

unfoldable pub serialize : EthBlockHeader → Bytes
serialize h =
    header_version_v1
    ∷ (uint64_bytes h.block_number
        ++ (h.state_root
            ++ (h.transactions_root
                ++ (h.receipts_root
                    ++ (uint64_bytes h.base_fee_per_gas
                        ++ (uint64_bytes h.gas_limit
                            ++ (uint64_bytes h.timestamp ++ uint64_bytes h.chain_id)))))))

-- `readUint64` at an offset; the shifted bytes do not overlap, so `|` is a sum.
unfoldable pub read_uint64 : Bytes → ℕ → ℕ
read_uint64 buf offset =
    get_or buf offset 0 * 2 ^ 56
    + get_or buf (offset + 1) 0 * 2 ^ 48
    + get_or buf (offset + 2) 0 * 2 ^ 40
    + get_or buf (offset + 3) 0 * 2 ^ 32
    + get_or buf (offset + 4) 0 * 2 ^ 24
    + get_or buf (offset + 5) 0 * 2 ^ 16
    + get_or buf (offset + 6) 0 * 2 ^ 8
    + get_or buf (offset + 7) 0

unfoldable pub deserialize_header : Bytes → Result EthBlockHeader
deserialize_header buf = do
  reject_if (ltb (length buf) header_serialized_size) input "header data too short"
  reject_if (if get_or buf 0 0 == header_version_v1 then false else true) input
      "header version unsupported"
  ok (record {
    block_number = read_uint64 buf 1;
    state_root = take 32 (drop 9 buf);
    transactions_root = take 32 (drop 41 buf);
    receipts_root = take 32 (drop 73 buf);
    base_fee_per_gas = read_uint64 buf 105;
    gas_limit = read_uint64 buf 113;
    timestamp = read_uint64 buf 121;
    chain_id = read_uint64 buf 129;
  })

unfoldable pub store_header : EthBlockHeader → State → State
store_header h st = record st { headers = set_num h.block_number (serialize h) st.headers }

-- The verifier contract that is configured, if any.
unfoldable pub verifier : State → Option Bytes
verifier st = elim st.verifier_id [ none ↦ none | some id ↦ if eqb id [] then none else some id ]

-- An empty text of the verifier's storage counts as absent.
unfoldable pub non_empty : Option Bytes → Option Bytes
non_empty none = none
non_empty (some b) = if eqb b [] then none else some b

-- `readState` under `b-{height}` and under `h`.
unfoldable pub read_header : Env → State → ℕ → Option Bytes
unfolding verifier non_empty
read_header env st height = elim (verifier st) [
  | none ↦ st.headers height
  | some id ↦ non_empty (env.verifier_header id height)
]

unfoldable pub read_height : Env → State → Option Bytes
unfolding verifier non_empty
read_height env st = elim (verifier st) [
  | none ↦ st.last_height
  | some id ↦ non_empty (env.verifier_height id)
]

unfoldable pub header_of : Option Bytes → Option EthBlockHeader
header_of none = none
header_of (some buf) = elim (deserialize_header buf) [ ok h ↦ some h | err e ↦ none ]

unfoldable pub get_header : Env → State → ℕ → Option EthBlockHeader
get_header env st height = header_of (read_header env st height)

unfoldable pub delete_header : ℕ → State → State
delete_header height st = record st { headers = delete_num height st.headers }

-- `strconv.ParseUint(s, 10, 64)` with 0 for every error.
unfoldable pub height_of : Option Bytes → ℕ
unfolding parse_nat
height_of none = 0
height_of (some text) = elim (parse_nat text) [
  | none ↦ 0
  | some n ↦ if ltb n (2 ^ 64) then n else 0
]

unfoldable pub get_last_height : Env → State → ℕ
unfolding read_height height_of
get_last_height env st = height_of (read_height env st)

unfoldable pub set_last_height : ℕ → State → State
unfolding format_uint
set_last_height height st = record st { last_height = some (format_uint height) }
