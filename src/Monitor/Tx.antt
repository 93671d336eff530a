-- ===== src/Monitor/Tx.antt =====
-- monitor/tx_encode.go: `EncodeTx`.
use account_mapping.Prelude.{ℕ, List, [], ◌∷◌, Bytes, map, length, ltb, ◌==◌, if◌then◌else◌}
use account_mapping.Rlp.Encode.{encode_bytes, encode_uint64, encode_list}
use account_mapping.Monitor.Hex.{hex_to_bytes, hex_to_uint, encode_big_hex}

-- An entry of `AccessList`.
pub record AccessEntry : Type 0 where
  pub address : Bytes
  pub storage_keys : List Bytes

-- An entry of `AuthorizationList`.
pub record Authorization : Type 0 where
  pub chain_id : Bytes
  pub address : Bytes
  pub nonce : Bytes
  pub y_parity : Bytes
  pub r : Bytes
  pub s : Bytes

-- The fields of `RPCTx` that are encoded; all but the first are texts of the node's JSON.
pub record RpcTx : Type 0 where
  pub raw_wire_bytes : Bytes
  pub chain_id : Bytes
  pub nonce : Bytes
  pub gas_price : Bytes
  pub max_priority_fee_per_gas : Bytes
  pub max_fee_per_gas : Bytes
  pub gas : Bytes
  pub to : Bytes
  pub value : Bytes
  pub input : Bytes
  pub v : Bytes
  pub r : Bytes
  pub s : Bytes
  pub tx_type : Bytes
  pub access_list : List AccessEntry
  pub max_fee_per_blob_gas : Bytes
  pub blob_versioned_hashes : List Bytes
  pub authorization_list : List Authorization

abbrev pub encode_hex_bytes : Bytes → Bytes
encode_hex_bytes s = encode_bytes (hex_to_bytes s)

abbrev pub encode_hex_uint : Bytes → Bytes
encode_hex_uint s = encode_uint64 (hex_to_uint s)

unfoldable pub encode_access_entry : AccessEntry → Bytes
encode_access_entry e =
    encode_list
      (encode_hex_bytes e.address ∷ encode_list (map encode_hex_bytes e.storage_keys) ∷ [])

unfoldable pub encode_access_list : List AccessEntry → Bytes
encode_access_list al = encode_list (map encode_access_entry al)

unfoldable pub encode_authorization : Authorization → Bytes
encode_authorization a = encode_list (
    encode_hex_uint a.chain_id
    ∷ encode_hex_bytes a.address
    ∷ encode_hex_uint a.nonce
    ∷ encode_big_hex a.y_parity
    ∷ encode_big_hex a.r
    ∷ encode_big_hex a.s
    ∷ [])

unfoldable pub encode_eip1559_tx : RpcTx → Bytes
encode_eip1559_tx tx =
    0x02
    ∷ encode_list (
        encode_hex_uint tx.chain_id
        ∷ encode_hex_uint tx.nonce
        ∷ encode_big_hex tx.max_priority_fee_per_gas
        ∷ encode_big_hex tx.max_fee_per_gas
        ∷ encode_hex_uint tx.gas
        ∷ encode_hex_bytes tx.to
        ∷ encode_big_hex tx.value
        ∷ encode_hex_bytes tx.input
        ∷ encode_access_list tx.access_list
        ∷ encode_big_hex tx.v
        ∷ encode_big_hex tx.r
        ∷ encode_big_hex tx.s
        ∷ [])

unfoldable pub encode_access_list_tx : RpcTx → Bytes
encode_access_list_tx tx =
    0x01
    ∷ encode_list (
        encode_hex_uint tx.chain_id
        ∷ encode_hex_uint tx.nonce
        ∷ encode_big_hex tx.gas_price
        ∷ encode_hex_uint tx.gas
        ∷ encode_hex_bytes tx.to
        ∷ encode_big_hex tx.value
        ∷ encode_hex_bytes tx.input
        ∷ encode_access_list tx.access_list
        ∷ encode_big_hex tx.v
        ∷ encode_big_hex tx.r
        ∷ encode_big_hex tx.s
        ∷ [])

unfoldable pub encode_legacy_tx : RpcTx → Bytes
encode_legacy_tx tx = encode_list (
    encode_hex_uint tx.nonce
    ∷ encode_big_hex tx.gas_price
    ∷ encode_hex_uint tx.gas
    ∷ encode_hex_bytes tx.to
    ∷ encode_big_hex tx.value
    ∷ encode_hex_bytes tx.input
    ∷ encode_big_hex tx.v
    ∷ encode_big_hex tx.r
    ∷ encode_big_hex tx.s
    ∷ [])

unfoldable pub encode_blob_tx : RpcTx → Bytes
encode_blob_tx tx =
    0x03
    ∷ encode_list (
        encode_hex_uint tx.chain_id
        ∷ encode_hex_uint tx.nonce
        ∷ encode_big_hex tx.max_priority_fee_per_gas
        ∷ encode_big_hex tx.max_fee_per_gas
        ∷ encode_hex_uint tx.gas
        ∷ encode_hex_bytes tx.to
        ∷ encode_big_hex tx.value
        ∷ encode_hex_bytes tx.input
        ∷ encode_access_list tx.access_list
        ∷ encode_big_hex tx.max_fee_per_blob_gas
        ∷ encode_list (map encode_hex_bytes tx.blob_versioned_hashes)
        ∷ encode_big_hex tx.v
        ∷ encode_big_hex tx.r
        ∷ encode_big_hex tx.s
        ∷ [])

unfoldable pub encode_set_code_tx : RpcTx → Bytes
encode_set_code_tx tx =
    0x04
    ∷ encode_list (
        encode_hex_uint tx.chain_id
        ∷ encode_hex_uint tx.nonce
        ∷ encode_big_hex tx.max_priority_fee_per_gas
        ∷ encode_big_hex tx.max_fee_per_gas
        ∷ encode_hex_uint tx.gas
        ∷ encode_hex_bytes tx.to
        ∷ encode_big_hex tx.value
        ∷ encode_hex_bytes tx.input
        ∷ encode_access_list tx.access_list
        ∷ encode_list (map encode_authorization tx.authorization_list)
        ∷ encode_big_hex tx.v
        ∷ encode_big_hex tx.r
        ∷ encode_big_hex tx.s
        ∷ [])

-- The switch on the type.
unfoldable pub encode_by_type : ℕ → RpcTx → Bytes
encode_by_type tx_type tx =
    if tx_type == 2
    then encode_eip1559_tx tx
    else if tx_type == 3
    then encode_blob_tx tx
    else if tx_type == 4
    then encode_set_code_tx tx
    else if tx_type == 1
    then encode_access_list_tx tx
    else encode_legacy_tx tx

-- The bytes of the node, where it gave them.
unfoldable pub encode_tx : RpcTx → Bytes
encode_tx tx =
    if ltb 0 (length tx.raw_wire_bytes)
    then tx.raw_wire_bytes
    else encode_by_type (hex_to_uint tx.tx_type) tx
