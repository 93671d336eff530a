-- ===== src/Chain/Blocks.antt =====
-- contract/blocklist/blocks.go: `HandleAddBlocks`, `HandleSeedBlock` and `HandleReplaceBlock`.
use account_mapping.Prelude.{
  ℕ, ◌+◌, ◌-◌, Bool, ◌&&◌, ◌||◌, not, none, some, List, [], ◌∷◌, Bytes, leb, ltb, ◌==◌,
  if◌then◌else◌, eqb, length, map, replicate,
}
use account_mapping.Codec.Hex.{decode_string, encode_to_string, trim_0x}
use account_mapping.Result.{
  Result, ok, err, present, contract_error, input, plain, invalid_hex, initialization, state_access,
}
use account_mapping.Host.State.{State, Env, add64, delete_num}
use account_mapping.Host.Action.{Action, pure, lift, gets, modify, fail_if, ◌>>=◌, ◌>>◌}
use account_mapping.Chain.Header.{
  EthBlockHeader, serialize, store_header, get_header, delete_header, get_last_height,
  set_last_height,
}

abbrev pub max_block_retention : ℕ
max_block_retention = 101

pub record AddBlockEntry : Type 0 where
  pub block_number : ℕ
  pub parent_hash : Bytes
  pub state_root : Bytes
  pub transactions_root : Bytes
  pub receipts_root : Bytes
  pub base_fee_per_gas : ℕ
  pub gas_limit : ℕ
  pub timestamp : ℕ
  pub chain_id : ℕ

-- `hexTo32`
unfoldable pub hex_to_32 : Bytes → Result Bytes
unfolding decode_string
hex_to_32 s = elim (decode_string s) [
  | none ↦ err (contract_error invalid_hex "invalid 32-byte hex")
  | some b ↦ if length b == 32 then ok b else err (contract_error invalid_hex "invalid 32-byte hex")
]

unfoldable pub to_lower : ℕ → ℕ
to_lower c = if leb b'A' c && leb c b'Z' then c + 32 else c

-- White space at both ends of an ASCII text.
unfoldable pub is_space : ℕ → Bool
is_space c = c == 32 || (leb 9 c && leb c 13)

unfoldable pub trim_left : Bytes → Bytes
unfolding is_space
trim_left [] = []
trim_left (c ∷ s) = if is_space c then trim_left s else c ∷ s

unfoldable pub trim_right : Bytes → Bytes
unfolding is_space
trim_right [] = []
trim_right (c ∷ s) =
    let rest = trim_right s in if is_space c && length rest == 0 then [] else c ∷ rest

unfoldable pub equal_hex : Bytes → Bytes → Bool
unfolding to_lower trim_left trim_right trim_0x
equal_hex a b =
    let normal = λ (s : Bytes). trim_0x (map to_lower (trim_right (trim_left s))) in
    eqb (normal a) (normal b)

module _ (env : Env) where
  -- `keccak256Hex`
  unfoldable pub keccak256_hex : Bytes → Bytes
  unfolding encode_to_string
  keccak256_hex data' = encode_to_string (env.keccak256 data')

  -- The checks of one entry, and the header that it makes.
  unfoldable pub checked_entry :
      AddBlockEntry → (last expected_chain_id : ℕ) → Action EthBlockHeader
  checked_entry entry last expected_chain_id = do
    fail_if (not (entry.block_number == add64 last 1)) input "block heights must be sequential"
    fail_if (expected_chain_id == 0) plain "contract chainId not configured; cannot ingest headers"
    fail_if (not (entry.chain_id == expected_chain_id)) plain
        "entry chain_id does not match contract chain_id"
    found ← gets (λ st. get_header env st last)
    prev ← lift (present found plain "previous tip header missing")
    fail_if (not (equal_hex entry.parent_hash (keccak256_hex (serialize prev)))) plain
        "parent_hash mismatch: header does not chain to previous tip"
    state_root ← lift (hex_to_32 entry.state_root)
    tx_root ← lift (hex_to_32 entry.transactions_root)
    rcpt_root ← lift (hex_to_32 entry.receipts_root)
    pure (record {
      block_number = entry.block_number;
      state_root = state_root;
      transactions_root = tx_root;
      receipts_root = rcpt_root;
      base_fee_per_gas = entry.base_fee_per_gas;
      gas_limit = entry.gas_limit;
      timestamp = entry.timestamp;
      chain_id = entry.chain_id;
    })

  unfoldable pub prune : ℕ → State → State
  prune height st =
      if ltb max_block_retention height then delete_header (height - max_block_retention) st else st

  -- The loop over the entries; its result is the last height.
  unfoldable pub add_entries : List AddBlockEntry → (last expected_chain_id : ℕ) → Action ℕ
  add_entries [] last expected_chain_id = pure last
  add_entries (entry ∷ entries) last expected_chain_id = do
    header ← checked_entry entry last expected_chain_id
    modify (store_header header)
    modify (prune entry.block_number)
    add_entries entries entry.block_number expected_chain_id

  unfoldable pub handle_add_blocks :
      List AddBlockEntry → (expected_chain_id : ℕ) → Action (Unit {0})
  unfolding add_entries
  handle_add_blocks blocks expected_chain_id = do
    last ← gets (get_last_height env)
    fail_if (last == 0) initialization "contract not seeded: call seedBlocks first"
    new_last ← add_entries blocks last expected_chain_id
    modify (set_last_height new_last)

  unfoldable pub handle_seed_block : AddBlockEntry → (expected_chain_id : ℕ) → Action (Unit {0})
  handle_seed_block entry expected_chain_id = do
    fail_if (entry.block_number == 0) input "seed block_number must be > 0"
    fail_if (expected_chain_id == 0) plain "contract chainId not configured; cannot seed"
    fail_if (not (entry.chain_id == expected_chain_id)) plain
        "seed chain_id does not match contract chain_id"
    tx_root ← lift (hex_to_32 entry.transactions_root)
    rcpt_root ← lift (hex_to_32 entry.receipts_root)
    modify (
        store_header (record {
          block_number = entry.block_number;
          state_root = replicate 32 0;
          transactions_root = tx_root;
          receipts_root = rcpt_root;
          base_fee_per_gas = entry.base_fee_per_gas;
          gas_limit = entry.gas_limit;
          timestamp = entry.timestamp;
          chain_id = entry.chain_id;
        }))
    modify (set_last_height entry.block_number)

  -- The observed deposits of the height go with the header that they were proved against.
  unfoldable pub handle_replace_block : AddBlockEntry → (expected_chain_id : ℕ) → Action (Unit {0})
  handle_replace_block entry expected_chain_id = do
    found ← gets (λ st. get_header env st entry.block_number)
    existing ← lift (present found state_access "block not found for replacement")
    fail_if (expected_chain_id == 0) plain "contract chainId not configured; cannot replace"
    fail_if (not (entry.chain_id == expected_chain_id)) plain
        "replacement chain_id does not match contract chain_id"
    fail_if (not (existing.chain_id == 0) && not (existing.chain_id == entry.chain_id)) plain
        "replacement chain_id does not match existing header chain_id"
    state_root ← lift (hex_to_32 entry.state_root)
    tx_root ← lift (hex_to_32 entry.transactions_root)
    rcpt_root ← lift (hex_to_32 entry.receipts_root)
    modify (
        store_header (record {
          block_number = entry.block_number;
          state_root = state_root;
          transactions_root = tx_root;
          receipts_root = rcpt_root;
          base_fee_per_gas = entry.base_fee_per_gas;
          gas_limit = entry.gas_limit;
          timestamp = entry.timestamp;
          chain_id = entry.chain_id;
        }))
    modify (λ st. record st { observed = delete_num entry.block_number st.observed })
