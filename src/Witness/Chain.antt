-- ===== src/Witness/Chain.antt =====
-- Headers.
use account_mapping.Prelude.{
  ℕ, ◌+◌, ◌≤◌, ◌<◌, ◌^◌, ◌≡◌, refl, inl, inr, ◌⊎◌, Bool, true, false, Option, none, some, List, [],
  ◌∷◌, Bytes, bytes, replicate, arith, length, ℤ, pos,
}
use account_mapping.Result.{ok}
use account_mapping.Host.State.{State}
use account_mapping.Chain.Header.{
  EthBlockHeader, serialize, deserialize_header, store_header, get_header, get_last_height,
  verifier,
}
use account_mapping.Chain.Header.RoundTrip.{IsWellFormed, deserialize_header-serialize}
use account_mapping.Chain.Blocks.{AddBlockEntry, handle_add_blocks}
use account_mapping.Chain.Ingest.{Follows, add_blocks_sequential}
use account_mapping.Chain.Entry.{IsUint64, IsHeaderOf}
use account_mapping.Chain.Retention.{added_header_kept}
use account_mapping.Witness.World.{host, alice, world, tip}

tip-IsWellFormed : IsWellFormed tip
tip-IsWellFormed = record {
  number_fits = omega arith;
  state_32 = refl;
  transactions_32 = refl;
  receipts_32 = refl;
  fee_fits = omega arith;
  limit_fits = omega arith;
  time_fits = omega arith;
  chain_fits = omega arith;
}

deserialize_header-serialize_example : deserialize_header (serialize tip) ≡ ok tip
deserialize_header-serialize_example = deserialize_header-serialize tip tip-IsWellFormed

no_verifier : verifier world ≡ none
unfolding verifier
no_verifier = refl

abbrev entry : AddBlockEntry
entry = record {
  block_number = 11;
  parent_hash = bytes "0x0107070707070707070707070707070707070707070707070707070707070707";
  state_root = bytes "0101010101010101010101010101010101010101010101010101010101010101";
  transactions_root = bytes "0202020202020202020202020202020202020202020202020202020202020202";
  receipts_root = bytes "0303030303030303030303030303030303030303030303030303030303030303";
  base_fee_per_gas = 1000;
  gas_limit = 30000000;
  timestamp = 1700000012;
  chain_id = 1;
}

abbrev grown : State
grown = (handle_add_blocks (host alice 20) (entry ∷ []) 1 world).1

grown-ok : handle_add_blocks (host alice 20) (entry ∷ []) 1 world ≡ (ok tt, grown)
unfolding account_mapping.Chain.Blocks.checked_entry account_mapping.Chain.Blocks.equal_hex
    account_mapping.Chain.Blocks.hex_to_32 account_mapping.Chain.Blocks.keccak256_hex
    account_mapping.Chain.Header.header_of account_mapping.Chain.Header.read_header
    account_mapping.Chain.Header.uint64_bytes account_mapping.Prelude.eqb deserialize_header
    get_header get_last_height handle_add_blocks serialize
grown-ok = refl

last-fits : get_last_height (host alice 20) world + length (entry ∷ []) < 2 ^ 64
unfolding get_last_height
last-fits = omega arith

add_blocks_sequential_example :
    (0 < get_last_height (host alice 20) world)
    × Follows (entry ∷ []) (get_last_height (host alice 20) world) 1
    × (get_last_height (host alice 20) grown ≡ get_last_height (host alice 20) world + 1)
add_blocks_sequential_example =
    add_blocks_sequential (host alice 20) (entry ∷ []) 1 world grown-ok no_verifier last-fits

entry-IsUint64 : IsUint64 entry
entry-IsUint64 = record {
  fee = omega arith;
  limit = omega arith;
  time = omega arith;
  chain = omega arith;
}

entry-near : get_last_height (host alice 20) world + length (entry ∷ []) < entry.block_number + 101
unfolding get_last_height
entry-near = omega arith

added_header_kept_example :
    (h : EthBlockHeader) × (get_header (host alice 20) grown 11 ≡ some h) × IsHeaderOf entry h
added_header_kept_example =
    added_header_kept (host alice 20) (entry ∷ []) 1 world entry grown-ok no_verifier last-fits
      (inl refl) entry-IsUint64 entry-near
