-- ===== src/Witness/Refund.antt =====
-- The refund of a withdrawal that was reverted on Ethereum.
use account_mapping.Prelude.{
  ℕ, ◌↔◌, ◌≡◌, refl, Bool, false, Option, none, some, List, [], ◌∷◌, Bytes, bytes, ℤ, pos,
}
use account_mapping.Codec.Hex.{encode_to_string, address_to_hex}
use account_mapping.Rlp.Encode.{encode_uint64, encode_bytes, encode_list}
use account_mapping.Result.{ok}
use account_mapping.Host.State.{State, PendingSpend, set_num}
use account_mapping.Chain.Header.{EthBlockHeader, serialize}
use account_mapping.Mapping.Withdrawal.{get_pending_spend}
use account_mapping.Mapping.Drop.{IsAccepted, verify_l1_proof_of_drop_iff}
use account_mapping.Mapping.Lifecycle.{
  L1ProofOfDrop, reverted_receipt, verify_l1_proof_of_drop, handle_cancel_my_withdrawal,
  handle_expire_withdrawal,
}
use account_mapping.Mapping.Refund.{Refunded, cancel_refunds}
use account_mapping.Witness.World.{host, toy_hash, alice, bob, vault, world, tip}

-- Status 0, the gas used, no bloom, no logs.
abbrev receipt : Bytes
receipt =
    encode_list (encode_uint64 0 ∷ encode_uint64 21000 ∷ encode_bytes [] ∷ encode_list [] ∷ [])

abbrev receipt_leaf : Bytes
receipt_leaf = encode_list (encode_bytes (0x20 ∷ 0x80 ∷ []) ∷ encode_bytes receipt ∷ [])

abbrev waiting : PendingSpend
waiting = record {
  nonce = 0;
  amount = pos 500_000_000_000_000_000;
  from_account = alice;
  to_address = bytes "0x0202020202020202020202020202020202020202";
  asset = bytes "eth";
  unsigned_tx_hex = [];
  block_height = 5;
  vault_at_queue = address_to_hex vault;
  token_address = [];
  gas_cost = none;
}

abbrev reverted_world : State
reverted_world = record world {
  headers =
      set_num 10 (serialize (record tip { receipts_root = toy_hash receipt_leaf })) (λ n. none);
  spends = set_num 0 waiting (λ n. none);
  pending_nonce = some 1;
}

abbrev proof_of_drop : L1ProofOfDrop
proof_of_drop = record {
  proof_type = reverted_receipt;
  block_height = 10;
  tx_index = 0;
  tx_nonce = 0;
  receipt_hex = encode_to_string receipt;
  receipt_proof_hex = encode_to_string receipt_leaf;
  tx_at_index_hex = [];
  tx_proof_hex = [];
}

abbrev cancelled_world : State
cancelled_world =
    (handle_cancel_my_withdrawal (host alice 20) 0 proof_of_drop vault 1 reverted_world).1

cancel-ran :
    handle_cancel_my_withdrawal (host alice 20) 0 proof_of_drop vault 1 reverted_world
    ≡ (ok tt, cancelled_world)
unfolding account_mapping.Chain.Header.deserialize_header account_mapping.Chain.Header.get_header
    account_mapping.Chain.Header.header_of account_mapping.Chain.Header.read_header
    account_mapping.Chain.Header.uint64_bytes account_mapping.Codec.Hex.decode_string
    account_mapping.Mapping.Registry.is_paused account_mapping.Mapping.Transaction.split_proof_nodes
    account_mapping.Mpt.Node.compact_to_hex account_mapping.Mpt.Node.decode_node
    account_mapping.Mpt.Node.decode_ref account_mapping.Mpt.Node.get
    account_mapping.Mpt.Node.has_term account_mapping.Mpt.Node.short_of
    account_mapping.Mpt.Verify.rlp_encode_key account_mapping.Mpt.Verify.verify_proof
    account_mapping.Prelude.eqb account_mapping.Rlp.Decode.decode_children
    account_mapping.Rlp.Decode.decode_item account_mapping.Rlp.Decode.decode_list_at
    account_mapping.Rlp.Decode.decode_long_length account_mapping.Rlp.Decode.decode_long_list
    account_mapping.Rlp.Decode.decode_long_string account_mapping.Rlp.Decode.decode_prefix
    account_mapping.Rlp.Decode.decode_short_string encode_bytes encode_list encode_to_string
    encode_uint64 get_pending_spend handle_cancel_my_withdrawal serialize verify_l1_proof_of_drop
cancel-ran = refl

cancel_refunds_example :
    (ps : PendingSpend) × (get_pending_spend reverted_world 0 ≡ some ps)
    × (alice ≡ ps.from_account)
    × IsAccepted (host alice 20) proof_of_drop ps 1 reverted_world
    × Refunded ps 0 reverted_world cancelled_world
cancel_refunds_example =
    cancel_refunds (host alice 20) 0 proof_of_drop vault 1 reverted_world cancel-ran

-- Bob expires it after the window.
abbrev expired_world : State
expired_world = (handle_expire_withdrawal (host bob 6000) 0 proof_of_drop 1 reverted_world).1

verify_l1_proof_of_drop_iff_example :
    (verify_l1_proof_of_drop (host alice 20) proof_of_drop waiting 1 reverted_world ≡ ok tt)
    ↔ IsAccepted (host alice 20) proof_of_drop waiting 1 reverted_world
verify_l1_proof_of_drop_iff_example =
    verify_l1_proof_of_drop_iff (host alice 20) proof_of_drop waiting 1 reverted_world
