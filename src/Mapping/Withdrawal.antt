-- ===== src/Mapping/Withdrawal.antt =====
-- contract/mapping/withdrawal.go: nonces, pending spends, and the transactions that are signed;
-- contract/abi/erc20.go: the call data of an ERC-20 transfer.
use account_mapping.Prelude.{
  ℕ, ◌+◌, ◌-◌, Bool, true, false, ◌||◌, not, Option, none, some, [], ◌∷◌, ◌++◌, Bytes, ltb, ◌==◌,
  if◌then◌else◌, length, take, drop, get_or, replicate, map, ℤ, pos, pos_part, neg_part,
}
use account_mapping.Result.{Result, ok, err, ◌>>=◌, ◌>>◌, reject_if, contract_error, input, aborted}
use account_mapping.Rlp.Item.{Item, data_item, list_item}
use account_mapping.Rlp.Encode.{
  encode_uint64, encode_bytes, encode_list, encode_address, encode_big_int, big_int_bytes,
}
use account_mapping.Rlp.Decode.{decode_list}
use account_mapping.Host.State.{State, Env, PendingSpend, set_num, delete_num, add64}

abbrev pub nonce_or_zero : Option ℕ → ℕ
nonce_or_zero none = 0
nonce_or_zero (some n) = n

unfoldable pub get_confirmed_nonce : State → ℕ
get_confirmed_nonce st = nonce_or_zero st.confirmed_nonce

unfoldable pub set_confirmed_nonce : ℕ → State → State
set_confirmed_nonce n st = record st { confirmed_nonce = some n }

unfoldable pub get_pending_nonce : State → ℕ
get_pending_nonce st = nonce_or_zero st.pending_nonce

unfoldable pub set_pending_nonce : ℕ → State → State
set_pending_nonce n st = record st { pending_nonce = some n }

unfoldable pub has_pending_withdrawal : State → Bool
has_pending_withdrawal st = ltb (get_confirmed_nonce st) (get_pending_nonce st)

unfoldable pub store_pending_spend : PendingSpend → State → State
store_pending_spend ps st = record st { spends = set_num ps.nonce ps st.spends }

-- The nonce of what is read is the key.
unfoldable pub with_nonce : ℕ → Option PendingSpend → Option PendingSpend
with_nonce n none = none
with_nonce n (some ps) = some (record ps { nonce = n })

unfoldable pub get_pending_spend : State → ℕ → Option PendingSpend
unfolding with_nonce
get_pending_spend st n = with_nonce n (st.spends n)

unfoldable pub delete_pending_spend : ℕ → State → State
delete_pending_spend n st = record st { spends = delete_num n st.spends }

-- `true` if the nonce has advanced: only from the nonce of `ps`, while that spend is stored.
unfoldable pub nonce_advance : PendingSpend → (by : ℕ) → State → Bool × State
nonce_advance ps by st =
    let current = get_confirmed_nonce st in
    if not (current == ps.nonce) then (false, st) else elim (get_pending_spend st current) [
      | none ↦ (false, st)
      | some _ ↦ (true, set_confirmed_nonce (add64 current by) st)
    ]

abbrev pub eth_transfer_gas : ℕ
eth_transfer_gas = 21_000

abbrev pub erc20_transfer_gas : ℕ
erc20_transfer_gas = 65_000

-- `|v|`, of which big.Int's Bytes gives the digits.
abbrev pub magnitude : ℤ → ℕ
magnitude v = pos_part v + neg_part v

unfoldable pub build_eip1559_tx :
    (chain_id nonce tip_cap fee_cap gas : ℕ) → (to_address : Bytes) → ℤ → Bytes → Bytes
build_eip1559_tx chain_id nonce tip_cap fee_cap gas to_address value data' =
    2
    ∷ encode_list (
        encode_uint64 chain_id
        ∷ encode_uint64 nonce
        ∷ encode_uint64 tip_cap
        ∷ encode_uint64 fee_cap
        ∷ encode_uint64 gas
        ∷ encode_address to_address
        ∷ encode_big_int (magnitude value)
        ∷ encode_bytes data'
        ∷ encode_list []
        ∷ [])

unfoldable pub build_eth_withdrawal_tx : (chain_id nonce tip_cap fee_cap : ℕ) → Bytes → ℤ → Bytes
unfolding build_eip1559_tx
build_eth_withdrawal_tx chain_id nonce tip_cap fee_cap to_address amount =
    build_eip1559_tx chain_id nonce tip_cap fee_cap eth_transfer_gas to_address amount []

abbrev pub transfer_selector : Bytes
transfer_selector = 0xa9 ∷ 0x05 ∷ 0x9c ∷ 0xbb ∷ []

-- `EncodeTransfer`: the amount is copied over the end of the 68 bytes, whatever its length; more
-- than 68 bytes make the slice index negative, which traps.
unfoldable pub encode_transfer : (to_address : Bytes) → ℤ → Result Bytes
unfolding big_int_bytes
encode_transfer to_address amount =
    let digits = big_int_bytes (magnitude amount) in
    let data' = transfer_selector ++ (replicate 12 0 ++ (to_address ++ replicate 32 0)) in
    if ltb 68 (length digits)
    then err (contract_error aborted "slice bounds out of range")
    else ok (take (68 - length digits) data' ++ digits)

unfoldable pub build_erc20_withdrawal_tx :
    (chain_id nonce tip_cap fee_cap : ℕ) → (token recipient : Bytes) → ℤ → Result Bytes
unfolding encode_transfer build_eip1559_tx
build_erc20_withdrawal_tx chain_id nonce tip_cap fee_cap token recipient amount = do
  calldata ← encode_transfer recipient amount
  ok (build_eip1559_tx chain_id nonce tip_cap fee_cap erc20_transfer_gas token (pos 0) calldata)

unfoldable pub compute_sighash : Env → Bytes → Bytes
compute_sighash env unsigned = env.keccak256 unsigned

-- An unsigned field, encoded again: a list loses what it holds.
unfoldable pub reencode_field : Item → Bytes
reencode_field (data_item b) = encode_bytes b
reencode_field (list_item is) = encode_list []

unfoldable pub attach_signature : Bytes → (v : ℕ) → (r s : Bytes) → Result Bytes
unfolding decode_list reencode_field
attach_signature unsigned v r s = do
  reject_if (ltb (length unsigned) 2 || not (get_or unsigned 0 0 == 2)) input "not an EIP-1559 tx"
  items ← decode_list (drop 1 unsigned)
  reject_if (not (length items == 9)) input "expected 9 unsigned fields"
  ok (
      2
      ∷ encode_list
          (map reencode_field items ++ encode_uint64 v ∷ encode_bytes r ∷ encode_bytes s ∷ []))
