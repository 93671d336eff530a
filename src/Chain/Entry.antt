-- ===== src/Chain/Entry.antt =====
-- The header that an entry of a batch becomes (contract/blocklist/blocks.go: `HandleAddBlocks`).
use account_mapping.Prelude.{
  ℕ, ◌<◌, ◌^◌, ◌≡◌, inl, inr, ◌==◌, ==_iff, Bool-cases, Option-cases, Bytes, arith, length,
}
use account_mapping.Codec.Hex.{decode_string}
use account_mapping.Result.{ok}
use account_mapping.Host.State.{State, Env}
use account_mapping.Host.Action.Laws.{Result-cases}
use account_mapping.Chain.Header.{EthBlockHeader, get_header}
use account_mapping.Chain.Header.RoundTrip.{IsWellFormed}
use account_mapping.Chain.Blocks.{AddBlockEntry, hex_to_32, checked_entry}

-- The numbers of an entry, which are read as uint64.
pub record IsUint64 (e : AddBlockEntry) : Type 0 where
  pub fee : e.base_fee_per_gas < 2 ^ 64
  pub limit : e.gas_limit < 2 ^ 64
  pub time : e.timestamp < 2 ^ 64
  pub chain : e.chain_id < 2 ^ 64

-- A header with what an entry says.
pub record IsHeaderOf (e : AddBlockEntry) (h : EthBlockHeader) : Type 0 where
  pub number : h.block_number ≡ e.block_number
  pub state_root : hex_to_32 e.state_root ≡ ok h.state_root
  pub transactions_root : hex_to_32 e.transactions_root ≡ ok h.transactions_root
  pub receipts_root : hex_to_32 e.receipts_root ≡ ok h.receipts_root
  pub base_fee : h.base_fee_per_gas ≡ e.base_fee_per_gas
  pub gas_limit : h.gas_limit ≡ e.gas_limit
  pub timestamp : h.timestamp ≡ e.timestamp
  pub chain : h.chain_id ≡ e.chain_id

hex_to_32-length : (s r : Bytes) → hex_to_32 s ≡ ok r → length r ≡ 32
unfolding hex_to_32
hex_to_32-length s r h = elim (Option-cases (decode_string s)) [
  | inl e ↦ absurd (ground arith)
  | inr (b, e) ↦ elim (Bool-cases (length b == 32)) [
    | inl whole ↦
        let same : b ≡ r = ground (arith, e, whole, h) in
        rw (← same) ((==_iff (length b) 32).0 whole)
    | inr other ↦ absurd (ground (arith, e, other, h))
  ]
]

pub checked_entry-IsHeaderOf :
    (env : Env) (e : AddBlockEntry) (last cid : ℕ) (st : State) {h : EthBlockHeader}
    → (checked_entry env e last cid st).0 ≡ ok h
    → IsHeaderOf e h
unfolding checked_entry
checked_entry-IsHeaderOf env e last cid st {h} ran = elim (Option-cases (get_header env st last)) [
  | inl none_there ↦ absurd (ground arith)
  | inr (prev, f) ↦ elim (Result-cases (hex_to_32 e.state_root)) [
    | inr (x, a) ↦ absurd (ground arith)
    | inl (s, a) ↦ elim (Result-cases (hex_to_32 e.transactions_root)) [
      | inr (x, b) ↦ absurd (ground arith)
      | inl (t, b) ↦ elim (Result-cases (hex_to_32 e.receipts_root)) [
        | inr (x, c) ↦ absurd (ground arith)
        | inl (r, c) ↦ record {
          number = ground arith;
          state_root = ground arith;
          transactions_root = ground arith;
          receipts_root = ground arith;
          base_fee = ground arith;
          gas_limit = ground arith;
          timestamp = ground arith;
          chain = ground arith;
        }
      ]
    ]
  ]
]

pub header-IsWellFormed :
    (e : AddBlockEntry) (h : EthBlockHeader)
    → e.block_number < 2 ^ 64
    → IsUint64 e
    → IsHeaderOf e h
    → IsWellFormed h
header-IsWellFormed e h number words w = record {
  number_fits = rw w.number number;
  state_32 = hex_to_32-length e.state_root h.state_root w.state_root;
  transactions_32 = hex_to_32-length e.transactions_root h.transactions_root w.transactions_root;
  receipts_32 = hex_to_32-length e.receipts_root h.receipts_root w.receipts_root;
  fee_fits = rw w.base_fee words.fee;
  limit_fits = rw w.gas_limit words.limit;
  time_fits = rw w.timestamp words.time;
  chain_fits = rw w.chain words.chain;
}
