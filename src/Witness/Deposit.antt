-- ===== src/Witness/Deposit.antt =====
-- A native deposit and a token deposit of one block, each proved by a trie of one leaf.
use account_mapping.Prelude.{◌≡◌, refl, none, [], ◌∷◌, ◌++◌, Bytes, bytes, replicate, length, eqb}
use account_mapping.Codec.Hex.{encode_to_string}
use account_mapping.Rlp.Encode.{
  encode_uint64, encode_bytes, encode_list, encode_address, encode_big_int,
}
use account_mapping.Result.{Error, ok, err}
use account_mapping.Host.State.{State, set_at, set_num}
use account_mapping.Chain.Header.{EthBlockHeader, serialize}
use account_mapping.Mapping.Proof.{VerificationRequest}
use account_mapping.Mapping.Deposits.{MapParams, map_eth, map_erc20}
use account_mapping.Mapping.Proof.{transfer_event_sig}
use account_mapping.Mapping.Observed.Laws.{AllAligned}
use account_mapping.Mapping.Deposits.Once.{
  IsHost, here, native_mapped, token_mapped, eth_deposit_once, token_deposit_once,
}
use account_mapping.Witness.World.{host, toy_hash, alice, vault, world, tip, token_text}

-- A payment of a tenth of an ether to the vault.
abbrev raw_tx : Bytes
raw_tx =
    2
    ∷ encode_list (
        encode_uint64 1
        ∷ encode_uint64 0
        ∷ encode_uint64 1000
        ∷ encode_uint64 2000
        ∷ encode_uint64 21000
        ∷ encode_address vault
        ∷ encode_big_int 100000000000000000
        ∷ encode_bytes []
        ∷ encode_list []
        ∷ encode_uint64 0
        ∷ encode_bytes (replicate 32 5)
        ∷ encode_bytes (replicate 32 6)
        ∷ [])

-- The receipt of a transfer of a million units of the token to the vault.
abbrev raw_receipt : Bytes
raw_receipt = encode_list (
    encode_uint64 1
    ∷ encode_uint64 21000
    ∷ encode_bytes []
    ∷ encode_list (
        encode_list (
          encode_address (replicate 20 1)
          ∷ encode_list (
              encode_bytes transfer_event_sig
              ∷ encode_bytes (replicate 12 0 ++ replicate 20 3)
              ∷ encode_bytes (replicate 12 0 ++ vault)
              ∷ [])
          ∷ encode_bytes (replicate 29 0 ++ 0x0f ∷ 0x42 ∷ 0x40 ∷ [])
          ∷ [])
        ∷ [])
    ∷ [])

-- The leaf under the key of index 0.
abbrev leaf : Bytes → Bytes
leaf value = encode_list (encode_bytes (0x20 ∷ 0x80 ∷ []) ∷ encode_bytes value ∷ [])

abbrev deposit_world : State
deposit_world = record world {
  headers =
      set_num 10
        (serialize (record tip {
          transactions_root = toy_hash (leaf raw_tx);
          receipts_root = toy_hash (leaf raw_receipt);
        }))
        (λ n. none);
  relayers = set_at alice (bytes "1") (λ k. none);
}

abbrev deposit : MapParams
deposit = record {
  tx_data = record {
    block_height = 10;
    tx_index = 0;
    raw_hex = encode_to_string raw_tx;
    merkle_proof_hex = encode_to_string (leaf raw_tx);
    log_index = 0;
    token_address = [];
    deposit_type = bytes "eth";
  };
  instructions = [];
}

abbrev token_deposit : MapParams
token_deposit = record {
  tx_data = record {
    block_height = 10;
    tx_index = 0;
    raw_hex = encode_to_string raw_receipt;
    merkle_proof_hex = encode_to_string (leaf raw_receipt);
    log_index = 0;
    token_address = token_text;
    deposit_type = bytes "erc20";
  };
  instructions = [];
}

-- The deposits in this order, and in the other one.
abbrev eth_first : State
eth_first = (map_eth (host alice 20) deposit vault 1 deposit_world).1

abbrev then_token : State
then_token = (map_erc20 (host alice 20) token_deposit vault 1 eth_first).1

abbrev token_first : State
token_first = (map_erc20 (host alice 20) token_deposit vault 1 deposit_world).1

abbrev then_eth : State
then_eth = (map_eth (host alice 20) deposit vault 1 token_first).1

eth_first-ok : map_eth (host alice 20) deposit vault 1 deposit_world ≡ (ok tt, eth_first)
unfolding account_mapping.Chain.Header.deserialize_header account_mapping.Chain.Header.get_header
    account_mapping.Chain.Header.header_of account_mapping.Chain.Header.read_header
    account_mapping.Chain.Header.read_uint64 account_mapping.Chain.Header.uint64_bytes
    account_mapping.Codec.Hex.decode_string account_mapping.Codec.Hex.hex_to_address
    account_mapping.Mapping.Deposits.route account_mapping.Mapping.Observed.is_observed
    account_mapping.Mapping.Proof.check_inclusion account_mapping.Mapping.Proof.check_transfer_log
    account_mapping.Mapping.Proof.recover_sender account_mapping.Mapping.Proof.verify_erc20_deposit
    account_mapping.Mapping.Proof.verify_eth_deposit account_mapping.Mapping.Registry.get_token_info
    account_mapping.Mapping.Registry.is_whitelisted_relayer
    account_mapping.Mapping.Transaction.compute_tx_sighash
    account_mapping.Mapping.Transaction.ecrecover_dispatch
    account_mapping.Mapping.Transaction.pad_to_32
    account_mapping.Mapping.Transaction.parse_receipt_logs
    account_mapping.Mapping.Transaction.parse_transaction
    account_mapping.Mapping.Transaction.split_proof_nodes account_mapping.Mpt.Node.compact_to_hex
    account_mapping.Mpt.Node.decode_node account_mapping.Mpt.Node.decode_ref
    account_mapping.Mpt.Node.get account_mapping.Mpt.Node.has_term account_mapping.Mpt.Node.short_of
    account_mapping.Mpt.Verify.rlp_encode_key account_mapping.Mpt.Verify.verify_proof
    account_mapping.Rlp.Decode.decode_children account_mapping.Rlp.Decode.decode_item
    account_mapping.Rlp.Decode.decode_list_at account_mapping.Rlp.Decode.decode_long_length
    account_mapping.Rlp.Decode.decode_long_list account_mapping.Rlp.Decode.decode_long_string
    account_mapping.Rlp.Decode.decode_prefix account_mapping.Rlp.Decode.decode_short_string
    encode_address encode_big_int encode_bytes encode_list encode_to_string encode_uint64 eqb
    map_erc20 map_eth serialize transfer_event_sig
eth_first-ok = refl

then_token-ok : map_erc20 (host alice 20) token_deposit vault 1 eth_first ≡ (ok tt, then_token)
unfolding account_mapping.Chain.Header.deserialize_header account_mapping.Chain.Header.get_header
    account_mapping.Chain.Header.header_of account_mapping.Chain.Header.read_header
    account_mapping.Chain.Header.read_uint64 account_mapping.Chain.Header.uint64_bytes
    account_mapping.Codec.Hex.decode_string account_mapping.Codec.Hex.hex_to_address
    account_mapping.Mapping.Deposits.route account_mapping.Mapping.Observed.is_observed
    account_mapping.Mapping.Proof.check_inclusion account_mapping.Mapping.Proof.check_transfer_log
    account_mapping.Mapping.Proof.recover_sender account_mapping.Mapping.Proof.verify_erc20_deposit
    account_mapping.Mapping.Proof.verify_eth_deposit account_mapping.Mapping.Registry.get_token_info
    account_mapping.Mapping.Registry.is_whitelisted_relayer
    account_mapping.Mapping.Transaction.compute_tx_sighash
    account_mapping.Mapping.Transaction.ecrecover_dispatch
    account_mapping.Mapping.Transaction.pad_to_32
    account_mapping.Mapping.Transaction.parse_receipt_logs
    account_mapping.Mapping.Transaction.parse_transaction
    account_mapping.Mapping.Transaction.split_proof_nodes account_mapping.Mpt.Node.compact_to_hex
    account_mapping.Mpt.Node.decode_node account_mapping.Mpt.Node.decode_ref
    account_mapping.Mpt.Node.get account_mapping.Mpt.Node.has_term account_mapping.Mpt.Node.short_of
    account_mapping.Mpt.Verify.rlp_encode_key account_mapping.Mpt.Verify.verify_proof
    account_mapping.Rlp.Decode.decode_children account_mapping.Rlp.Decode.decode_item
    account_mapping.Rlp.Decode.decode_list_at account_mapping.Rlp.Decode.decode_long_length
    account_mapping.Rlp.Decode.decode_long_list account_mapping.Rlp.Decode.decode_long_string
    account_mapping.Rlp.Decode.decode_prefix account_mapping.Rlp.Decode.decode_short_string
    encode_address encode_big_int encode_bytes encode_list encode_to_string encode_uint64 eqb
    map_erc20 map_eth serialize transfer_event_sig account_mapping.Mapping.Observed.mark_observed
    account_mapping.Mapping.Supply.track_deposit account_mapping.Mapping.Supply.set_supply
    account_mapping.Mapping.Deposits.credit account_mapping.Mapping.Deposits.route_deposit
    account_mapping.Codec.Hex.address_to_did account_mapping.Mapping.Balance.inc_balance
    account_mapping.Mapping.Balance.set_balance account_mapping.Mapping.Deposits.collect_tax
    account_mapping.Mapping.Gas.add_gas_reserve account_mapping.Mapping.Gas.set_gas_reserve
then_token-ok = refl

token_first-ok :
    map_erc20 (host alice 20) token_deposit vault 1 deposit_world ≡ (ok tt, token_first)
unfolding account_mapping.Chain.Header.deserialize_header account_mapping.Chain.Header.get_header
    account_mapping.Chain.Header.header_of account_mapping.Chain.Header.read_header
    account_mapping.Chain.Header.read_uint64 account_mapping.Chain.Header.uint64_bytes
    account_mapping.Codec.Hex.decode_string account_mapping.Codec.Hex.hex_to_address
    account_mapping.Mapping.Deposits.route account_mapping.Mapping.Observed.is_observed
    account_mapping.Mapping.Proof.check_inclusion account_mapping.Mapping.Proof.check_transfer_log
    account_mapping.Mapping.Proof.recover_sender account_mapping.Mapping.Proof.verify_erc20_deposit
    account_mapping.Mapping.Proof.verify_eth_deposit account_mapping.Mapping.Registry.get_token_info
    account_mapping.Mapping.Registry.is_whitelisted_relayer
    account_mapping.Mapping.Transaction.compute_tx_sighash
    account_mapping.Mapping.Transaction.ecrecover_dispatch
    account_mapping.Mapping.Transaction.pad_to_32
    account_mapping.Mapping.Transaction.parse_receipt_logs
    account_mapping.Mapping.Transaction.parse_transaction
    account_mapping.Mapping.Transaction.split_proof_nodes account_mapping.Mpt.Node.compact_to_hex
    account_mapping.Mpt.Node.decode_node account_mapping.Mpt.Node.decode_ref
    account_mapping.Mpt.Node.get account_mapping.Mpt.Node.has_term account_mapping.Mpt.Node.short_of
    account_mapping.Mpt.Verify.rlp_encode_key account_mapping.Mpt.Verify.verify_proof
    account_mapping.Rlp.Decode.decode_children account_mapping.Rlp.Decode.decode_item
    account_mapping.Rlp.Decode.decode_list_at account_mapping.Rlp.Decode.decode_long_length
    account_mapping.Rlp.Decode.decode_long_list account_mapping.Rlp.Decode.decode_long_string
    account_mapping.Rlp.Decode.decode_prefix account_mapping.Rlp.Decode.decode_short_string
    encode_address encode_big_int encode_bytes encode_list encode_to_string encode_uint64 eqb
    map_erc20 map_eth serialize transfer_event_sig
token_first-ok = refl

then_eth-ok : map_eth (host alice 20) deposit vault 1 token_first ≡ (ok tt, then_eth)
unfolding account_mapping.Chain.Header.deserialize_header account_mapping.Chain.Header.get_header
    account_mapping.Chain.Header.header_of account_mapping.Chain.Header.read_header
    account_mapping.Chain.Header.read_uint64 account_mapping.Chain.Header.uint64_bytes
    account_mapping.Codec.Hex.decode_string account_mapping.Codec.Hex.hex_to_address
    account_mapping.Mapping.Deposits.route account_mapping.Mapping.Observed.is_observed
    account_mapping.Mapping.Proof.check_inclusion account_mapping.Mapping.Proof.check_transfer_log
    account_mapping.Mapping.Proof.recover_sender account_mapping.Mapping.Proof.verify_erc20_deposit
    account_mapping.Mapping.Proof.verify_eth_deposit account_mapping.Mapping.Registry.get_token_info
    account_mapping.Mapping.Registry.is_whitelisted_relayer
    account_mapping.Mapping.Transaction.compute_tx_sighash
    account_mapping.Mapping.Transaction.ecrecover_dispatch
    account_mapping.Mapping.Transaction.pad_to_32
    account_mapping.Mapping.Transaction.parse_receipt_logs
    account_mapping.Mapping.Transaction.parse_transaction
    account_mapping.Mapping.Transaction.split_proof_nodes account_mapping.Mpt.Node.compact_to_hex
    account_mapping.Mpt.Node.decode_node account_mapping.Mpt.Node.decode_ref
    account_mapping.Mpt.Node.get account_mapping.Mpt.Node.has_term account_mapping.Mpt.Node.short_of
    account_mapping.Mpt.Verify.rlp_encode_key account_mapping.Mpt.Verify.verify_proof
    account_mapping.Rlp.Decode.decode_children account_mapping.Rlp.Decode.decode_item
    account_mapping.Rlp.Decode.decode_list_at account_mapping.Rlp.Decode.decode_long_length
    account_mapping.Rlp.Decode.decode_long_list account_mapping.Rlp.Decode.decode_long_string
    account_mapping.Rlp.Decode.decode_prefix account_mapping.Rlp.Decode.decode_short_string
    encode_address encode_big_int encode_bytes encode_list encode_to_string encode_uint64 eqb
    map_erc20 map_eth serialize transfer_event_sig account_mapping.Mapping.Observed.mark_observed
    account_mapping.Mapping.Supply.track_deposit account_mapping.Mapping.Supply.set_supply
    account_mapping.Mapping.Deposits.credit account_mapping.Mapping.Deposits.route_deposit
    account_mapping.Codec.Hex.address_to_did account_mapping.Mapping.Balance.inc_balance
    account_mapping.Mapping.Balance.set_balance
then_eth-ok = refl

hash-32 : (b : Bytes) → length (toy_hash b) ≡ 32
hash-32 [] = refl
hash-32 (b ∷ s) = refl

alice-IsHost : IsHost (host alice 20)
alice-IsHost = record {
  hash_32 = hash-32;
  keeps = λ c i st aligned. (aligned, λ height tx_hash index seen. seen);
}

world-AllAligned : AllAligned deposit_world
world-AllAligned h entries e = absurd (cc e)

eth_deposit_once_example :
    (e : Error) × ((map_eth (host alice 20) deposit vault 1 then_token).0 ≡ err e)
eth_deposit_once_example =
    eth_deposit_once (host alice 20) (host alice 20) deposit deposit vault vault 1 1 deposit_world
      then_token alice-IsHost world-AllAligned eth_first-ok
      (token_mapped (host alice 20) token_deposit vault 1 alice-IsHost here then_token-ok) refl refl
      refl refl

token_deposit_once_example :
    (e : Error) × ((map_erc20 (host alice 20) token_deposit vault 1 then_eth).0 ≡ err e)
token_deposit_once_example =
    token_deposit_once (host alice 20) (host alice 20) token_deposit token_deposit vault vault 1 1
      deposit_world then_eth alice-IsHost world-AllAligned token_first-ok
      (native_mapped (host alice 20) deposit vault 1 alice-IsHost here then_eth-ok) refl refl refl
      refl
