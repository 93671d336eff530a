-- ===== src/Rlp/Encode.antt =====
-- contract/rlp/encode.go
use account_mapping.Prelude.{
  ℕ, zero, suc, ◌+◌, ◌/◌, ◌%◌, List, [], ◌∷◌, ◌++◌, Bytes, leb, ◌==◌, if◌then◌else◌, length,
}
use account_mapping.Rlp.Item.{Item, Items, data_item, list_item, nil, cons}

-- The loop of `bigEndianUint64`, with the rounds left: the low byte goes in front of those below
-- it, and the loop stops when nothing is left.
unfoldable pub be_digits : ℕ → ℕ → Bytes → Bytes
be_digits zero v acc = acc
be_digits (suc rounds) v acc =
    let rest = be_digits rounds (v / 256) ((v % 256) ∷ acc) in
    if v / 256 == 0 then (v % 256) ∷ acc else rest

unfoldable pub big_endian_uint64 : ℕ → Bytes
unfolding be_digits
big_endian_uint64 v = if v == 0 then [] else be_digits 8 v []

unfoldable pub encode_length : ℕ → ℕ → Bytes
unfolding big_endian_uint64
encode_length n offset =
    if leb n 55
    then ((offset + n) % 256) ∷ []
    else ((offset + 55 + length (big_endian_uint64 n)) % 256) ∷ big_endian_uint64 n

unfoldable pub encode_bytes : Bytes → Bytes
unfolding encode_length
encode_bytes [] = encode_length 0 0x80
encode_bytes (b ∷ []) = if leb b 0x7f then b ∷ [] else encode_length 1 0x80 ++ b ∷ []
encode_bytes (b ∷ c ∷ bs) = encode_length (length (b ∷ c ∷ bs)) 0x80 ++ (b ∷ c ∷ bs)

unfoldable pub encode_uint64 : ℕ → Bytes
unfolding encode_bytes
encode_uint64 v = if v == 0 then 0x80 ∷ [] else encode_bytes (big_endian_uint64 v)

-- `v.Bytes()` of a big.Int that is not negative: the minimal big-endian bytes, `rounds` at most.
unfoldable pub big_int_bytes : ℕ → Bytes
unfolding be_digits
big_int_bytes v = if v == 0 then [] else be_digits v v []

unfoldable pub encode_big_int : ℕ → Bytes
unfolding encode_bytes big_int_bytes
encode_big_int v = if v == 0 then 0x80 ∷ [] else encode_bytes (big_int_bytes v)

abbrev pub concat : List Bytes → Bytes
concat [] = []
concat (x ∷ xs) = x ++ concat xs

unfoldable pub encode_list : List Bytes → Bytes
unfolding encode_length
encode_list items = encode_length (length (concat items)) 0xc0 ++ concat items

unfoldable pub encode_address : Bytes → Bytes
unfolding encode_bytes
encode_address addr = encode_bytes addr

-- `reencodeItem` of contract/mapping/proof.go.
unfoldable mutual
  pub reencode_item : Item → Bytes
  reencode_item (data_item b) = encode_bytes b
  reencode_item (list_item is) = encode_list (reencode_items is)

  pub reencode_items : Items → List Bytes
  reencode_items nil = []
  reencode_items (cons i is) = reencode_item i ∷ reencode_items is
