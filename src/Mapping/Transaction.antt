-- ===== src/Mapping/Transaction.antt =====
-- contract/mapping/proof.go: transactions, receipts and proof nodes, parsed from their bytes.
use account_mapping.Prelude.{
  ℕ, zero, suc, ◌+◌, ◌-◌, ◌/◌, ◌%◌, ◌&&◌, ◌||◌, not, Option, none, some, List, [], ◌∷◌, ◌++◌, Bytes,
  ltb, leb, ◌==◌, if◌then◌else◌, length, take, drop, get_or, replicate, map,
}
use account_mapping.Codec.Hex.{zero_address}
use account_mapping.Result.{Result, ok, err, ◌>>=◌, ◌>>◌, reject_if, contract_error, input, aborted}
use account_mapping.Rlp.Item.{Item, data_item, is_list, as_bytes, children, as_uint64}
use account_mapping.Rlp.Encode.{encode_bytes, encode_uint64, encode_list, reencode_item}
use account_mapping.Rlp.Decode.{decode, decode_list}

-- contract/mapping/types.go
pub record ParsedTx : Type 0 where
  pub chain_id : ℕ
  pub nonce : ℕ
  pub to_address : Bytes
  pub value : Bytes
  pub tx_data : Bytes
  pub sig_v : ℕ
  pub sig_r : Bytes
  pub sig_s : Bytes

pub record ParsedLog : Type 0 where
  pub address : Bytes
  pub topics : List Bytes
  pub log_data : Bytes

abbrev pub no_item : Item
no_item = data_item []

-- `copy(tx.To[:], toBytes)` if there are 20 bytes; a zero address otherwise.
unfoldable pub address_of : Bytes → Bytes
address_of b = if length b == 20 then b else zero_address

unfoldable pub parse_eip1559_tx : Bytes → Result ParsedTx
unfolding decode_list as_uint64 address_of
parse_eip1559_tx data' = do
  items ← decode_list data'
  reject_if (ltb (length items) 12) input "invalid EIP-1559 tx: too few fields"
  ok (record {
    chain_id = as_uint64 (get_or items 0 no_item);
    nonce = as_uint64 (get_or items 1 no_item);
    to_address = address_of (as_bytes (get_or items 5 no_item));
    value = as_bytes (get_or items 6 no_item);
    tx_data = as_bytes (get_or items 7 no_item);
    sig_v = as_uint64 (get_or items 9 no_item) % 256;
    sig_r = as_bytes (get_or items 10 no_item);
    sig_s = as_bytes (get_or items 11 no_item);
  })

-- `v` is a uint64, so `v - 27` wraps; the byte of 2^64 - 27 is that of 229.
unfoldable pub parse_legacy_tx : Bytes → Result ParsedTx
unfolding decode_list as_uint64 address_of
parse_legacy_tx data' = do
  items ← decode_list data'
  reject_if (ltb (length items) 9) input "invalid legacy tx: too few fields"
  let v = as_uint64 (get_or items 6 no_item)
  ok (record {
    chain_id = if leb 35 v then (v - 35) / 2 else 0;
    nonce = as_uint64 (get_or items 0 no_item);
    to_address = address_of (as_bytes (get_or items 3 no_item));
    value = as_bytes (get_or items 4 no_item);
    tx_data = as_bytes (get_or items 5 no_item);
    sig_v = if leb 35 v then (v - 35) % 2 else (v + 229) % 256;
    sig_r = as_bytes (get_or items 7 no_item);
    sig_s = as_bytes (get_or items 8 no_item);
  })

unfoldable pub parse_transaction : Bytes → Result ParsedTx
unfolding parse_eip1559_tx parse_legacy_tx
parse_transaction [] = err (contract_error input "empty transaction")
parse_transaction (b ∷ bs) =
    if leb b 0x7f
    then if b == 2 then parse_eip1559_tx bs else err (contract_error input "unsupported tx type")
    else parse_legacy_tx (b ∷ bs)

-- `reencodeItem`, or `EncodeBytes` for a string, of each of the first fields.
abbrev pub encoded_fields : List Item → List Bytes
encoded_fields items = map reencode_item items

unfoldable pub legacy_fields : List Item → ℕ → List Bytes
legacy_fields items chain_id =
    map (λ i. encode_bytes (as_bytes i)) (take 6 items)
    ++ encode_uint64 chain_id ∷ encode_bytes [] ∷ encode_bytes [] ∷ []

-- `parseReceiptLogs` left-pads a topic; more than 32 bytes make the index of `topic[32-n:]`
-- negative, which traps.
unfoldable pub pad_topic : Bytes → Result Bytes
pad_topic b =
    if ltb 32 (length b)
    then err (contract_error aborted "slice bounds out of range")
    else ok (replicate (32 - length b) 0 ++ b)

unfoldable pub pad_topics : List Item → Result (List Bytes)
unfolding pad_topic
pad_topics [] = ok []
pad_topics (i ∷ is) = do t ← pad_topic (as_bytes i); ts ← pad_topics is; ok (t ∷ ts)

-- A log that is no list of three items is left out.
unfoldable pub parse_logs : List Item → Result (List ParsedLog)
unfolding pad_topics address_of
parse_logs [] = ok []
parse_logs (l ∷ ls) =
    let rest = parse_logs ls in
    let fields = children l in
    if not (is_list l) || ltb (length fields) 3 then rest else (do
      topics ← pad_topics (children (get_or fields 1 no_item))
      logs ← rest
      ok (
          record {
            address = address_of (as_bytes (get_or fields 0 no_item));
            topics = topics;
            log_data = as_bytes (get_or fields 2 no_item);
          }
          ∷ logs))

-- The EIP-2718 type byte in front of a typed receipt.
unfoldable pub strip_type : Bytes → Bytes
strip_type [] = []
strip_type (b ∷ bs) = if leb b 0x7f then bs else b ∷ bs

unfoldable pub parse_receipt_logs : Bytes → Result (List ParsedLog)
unfolding strip_type decode_list parse_logs
parse_receipt_logs receipt = do
  items ← decode_list (strip_type receipt)
  reject_if (ltb (length items) 4) input "invalid receipt: too few fields"
  reject_if (not (is_list (get_or items 3 no_item))) input "receipt logs should be a list"
  parse_logs (children (get_or items 3 no_item))

-- `splitProofNodes`: each round takes one item, so the length of the data is enough rounds.
unfoldable pub split_proof_from : ℕ → Bytes → List Bytes
unfolding decode
split_proof_from zero data' = []
split_proof_from (suc rounds) [] = []
split_proof_from (suc rounds) (b ∷ bs) = elim (decode (b ∷ bs)) [
  | err e ↦ []
  | ok (item, end) ↦ take end (b ∷ bs) ∷ split_proof_from rounds (drop end (b ∷ bs))
]

unfoldable pub split_proof_nodes : Bytes → List Bytes
unfolding split_proof_from
split_proof_nodes data' = split_proof_from (length data') data'

unfoldable pub pad_to_32 : Bytes → Bytes
pad_to_32 b = if leb 32 (length b) then take 32 b else replicate (32 - length b) 0 ++ b

-- contract/crypto/crypto.go: `ecrecoverDispatch` over a recovery function of the host.
unfoldable pub ecrecover_dispatch :
    (Bytes → Bytes → Option Bytes) → (hash : Bytes) → (v : ℕ) → (r s : Bytes) → Option Bytes
ecrecover_dispatch host hash v r s =
    if not (length hash == 32) || (not (length r == 32) || not (length s == 32))
    then none
    else elim (host hash (r ++ (s ++ (if leb 27 v then v - 27 else v) ∷ []))) [
      | none ↦ none
      | some addr ↦ if length addr == 20 then some addr else none
    ]

module _ (keccak256 : Bytes → Bytes) where
  -- The hash that was signed: of the fields without the signature, behind the type byte 2, or as
  -- EIP-155 has it.
  unfoldable pub compute_tx_sighash : Bytes → ParsedTx → Bytes
  unfolding decode_list legacy_fields
  compute_tx_sighash raw tx =
      if not (length raw == 0) && get_or raw 0 0 == 2
      then elim (decode_list (drop 1 raw)) [
        | err e ↦ keccak256 raw
        | ok items ↦
            if ltb (length items) 12
            then keccak256 raw
            else keccak256 (2 ∷ encode_list (encoded_fields (take 9 items)))
      ]
      else elim (decode_list raw) [
        | err e ↦ keccak256 raw
        | ok items ↦
            if ltb (length items) 9
            then keccak256 raw
            else keccak256 (encode_list (legacy_fields items tx.chain_id))
      ]
