-- ===== src/Monitor/Receipt.antt =====
-- monitor/receipt.go: `EncodeReceipt`, `BuildReceiptProof` and `BuildTxProof`.
use account_mapping.Prelude.{
  ℕ, suc, ◌%◌, Option, none, some, List, [], ◌∷◌, Bytes, map, length, ltb, if◌then◌else◌, get_or,
}
use account_mapping.Rlp.Encode.{encode_uint64, encode_list}
use account_mapping.Monitor.Hex.{hex_to_uint}
use account_mapping.Monitor.Tx.{RpcTx, encode_tx, encode_hex_bytes, encode_hex_uint}
use account_mapping.Monitor.Trie.{trie_root, generate_proof}
use account_mapping.Monitor.Build.{Entry, build_trie}

pub record RpcLog : Type 0 where
  pub address : Bytes
  pub topics : List Bytes
  pub log_data : Bytes

pub record RpcReceipt : Type 0 where
  pub status : Bytes
  pub cumulative_gas_used : Bytes
  pub logs_bloom : Bytes
  pub logs : List RpcLog
  pub receipt_type : Bytes

unfoldable pub encode_log : RpcLog → Bytes
encode_log log = encode_list (
    encode_hex_bytes log.address
    ∷ encode_list (map encode_hex_bytes log.topics)
    ∷ encode_hex_bytes log.log_data
    ∷ [])

unfoldable pub encode_receipt : RpcReceipt → Bytes
unfolding encode_log
encode_receipt r =
    let body = encode_list (
      encode_hex_uint r.status
      ∷ encode_hex_uint r.cumulative_gas_used
      ∷ encode_hex_bytes r.logs_bloom
      ∷ encode_list (map encode_log r.logs)
      ∷ []) in
    let kind = hex_to_uint r.receipt_type in if ltb 0 kind then (kind % 256) ∷ body else body

-- The entries of the trie: a value stands under the encoding of its index.
unfoldable pub indexed : ℕ → List Bytes → List Entry
indexed i [] = []
indexed i (v ∷ vs) = (encode_uint64 i, v) ∷ indexed (suc i) vs

-- The root, the proof and the encoding of one index; nothing where it is out of range.
unfoldable pub build_proof :
    (keccak256 : Bytes → Bytes) → List Bytes → (target : ℕ) → Option (Bytes × List Bytes × Bytes)
unfolding indexed build_trie trie_root generate_proof
build_proof keccak256 values target =
    let trie = build_trie (indexed 0 values) in
    if ltb target (length values)
    then some (
      trie_root keccak256 trie,
      generate_proof keccak256 trie (encode_uint64 target),
      get_or values target [],
    )
    else none

unfoldable pub build_receipt_proof :
    (keccak256 : Bytes → Bytes)
    → List RpcReceipt
    → (target : ℕ) → Option (Bytes × List Bytes × Bytes)
unfolding build_proof encode_receipt
build_receipt_proof keccak256 receipts target =
    build_proof keccak256 (map encode_receipt receipts) target

unfoldable pub build_tx_proof :
    (keccak256 : Bytes → Bytes) → List RpcTx → (target : ℕ) → Option (Bytes × List Bytes × Bytes)
unfolding build_proof encode_tx
build_tx_proof keccak256 txs target = build_proof keccak256 (map encode_tx txs) target
