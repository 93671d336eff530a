-- ===== src/Rlp/Inverse.antt =====
-- Decoding is the inverse of encoding, for every item within the decoder's limits.
use account_mapping.Prelude.{
  ℕ, zero, suc, ◌+◌, ◌-◌, ◌^◌, ◌<◌, ◌≤◌, ◌≡◌, refl, [], ◌∷◌, ◌++◌, Bytes, length, length-append,
  get_or, arith,
}
use account_mapping.Result.{Result, ok}
use account_mapping.Rlp.Bounds.{children-past}
use account_mapping.Rlp.Item.{Item, Items, data_item, list_item, nil, cons}
use account_mapping.Rlp.Encode.{
  encode_bytes, encode_list, encode_length, concat, reencode_item, reencode_items,
}
use account_mapping.Rlp.Decode.{
  decode_item, decode_children, decode_prefix, decode, max_item_size, max_depth,
}
use account_mapping.Rlp.RoundTrip.{Stands, Stands-left, Stands-right, bytes-Stands, list-Stands}

-- Strings of at most 64 KiB, in lists that are nested no deeper than the levels.
unfoldable mutual
  pub IsDecodable : ℕ → Item → Type 0
  IsDecodable levels (data_item b) = (1 ≤ levels) × (length b ≤ max_item_size)
  IsDecodable levels (list_item is) = (1 ≤ levels) × AreDecodable (levels - 1) is

  pub AreDecodable : ℕ → Items → Type 0
  AreDecodable levels nil = Unit
  AreDecodable levels (cons i is) = IsDecodable levels i × AreDecodable levels is

encode_length-some : (n offset : ℕ) → 1 ≤ length (encode_length n offset)
unfolding encode_length
encode_length-some n offset = ground arith

encode_bytes-some : (b : Bytes) → 1 ≤ length (encode_bytes b)
unfolding encode_bytes
encode_bytes-some [] = encode_length-some 0 0x80
encode_bytes-some (b ∷ []) = ground (arith, length-append (encode_length 1 0x80) (b ∷ []))
encode_bytes-some (b ∷ c ∷ s) = omega (
  arith,
  encode_length-some (length (b ∷ c ∷ s)) 0x80,
  length-append (encode_length (length (b ∷ c ∷ s)) 0x80) (b ∷ c ∷ s),
)

reencode_item-some : (i : Item) → 1 ≤ length (reencode_item i)
unfolding reencode_item encode_list
reencode_item-some (data_item b) = encode_bytes-some b
reencode_item-some (list_item is) = omega (
  arith,
  encode_length-some (length (concat (reencode_items is))) 0xc0,
  length-append (encode_length (length (concat (reencode_items is))) 0xc0)
      (concat (reencode_items is)),
)

-- One round of the loop over the items of a list.
round_at :
    (item : ℕ → Result (Item × ℕ)) (i : Item) (is : Items) (fuel start middle end : ℕ)
    → start < end
    → end < 2 ^ 30
    → item start ≡ ok (i, middle)
    → decode_children item fuel middle end ≡ ok (is, end)
    → decode_children item (suc fuel) start end ≡ ok (cons i is, end)
unfolding decode_children
round_at item i is fuel start middle end more fits e f = ground arith

module _ {data' : Bytes} (small : length data' < 2 ^ 30) where
  -- What stands at an offset is read at the level of the decoder.
  item_at :
      (levels : ℕ) (i : Item) {offset : ℕ} (rest : Bytes)
      → 1 ≤ levels
      → Stands data' offset (reencode_item i) rest
      → (decode_prefix (decode_item (levels - 1) data') data' offset (get_or data' offset 0)
          ≡ ok (i, offset + length (reencode_item i)))
      → decode_item levels data' offset ≡ ok (i, offset + length (reencode_item i))
  unfolding decode_item
  item_at zero i rest some_level h e = absurd (omega arith)
  item_at (suc levels) i rest some_level h e = ground (arith, h.size, reencode_item-some i)

  mutual
    unfolding IsDecodable AreDecodable reencode_item reencode_items encode_list

    decode_item-there :
        (i : Item) (levels : ℕ) {offset : ℕ} (rest : Bytes)
        → IsDecodable levels i
        → Stands data' offset (reencode_item i) rest
        → decode_item levels data' offset ≡ ok (i, offset + length (reencode_item i))
    decode_item-there (data_item b) levels rest (some_level, few) h =
        item_at levels (data_item b) rest some_level h
          (bytes-Stands (decode_item (levels - 1) data') b rest few small h)
    decode_item-there (list_item is) levels rest (some_level, each) h =
        item_at levels (list_item is) rest some_level h (
          list-Stands (decode_item (levels - 1) data') is (concat (reencode_items is)) rest small h
            (λ start at.
              decode_children-there is (levels - 1) (length data' + 1) rest each at (omega arith)))

    decode_children-there :
        (is : Items) (levels fuel : ℕ) {start : ℕ} (rest : Bytes)
        → AreDecodable levels is
        → Stands data' start (concat (reencode_items is)) rest
        → length data' < start + fuel
        → decode_children
            (decode_item levels data')
            fuel
            start
            (start + length (concat (reencode_items is)))
          ≡ ok (is, start + length (concat (reencode_items is)))
    decode_children-there nil levels fuel {start} rest each h enough =
        let last : start + length (concat (reencode_items nil)) ≡ start = omega arith in
        rw last (children-past (decode_item levels data') fuel start start (omega arith))
    decode_children-there (cons i is) levels zero rest each h enough =
        absurd (omega (arith, h.size))
    decode_children-there (cons i is) levels (suc fuel) {start} rest (one, others) h enough =
        let s = reencode_item i in
        let t = concat (reencode_items is) in
        let e = decode_item-there i levels (t ++ rest) one (Stands-left s t rest h) in
        let some_bytes = reencode_item-some i in
        let after : start + length s + length t ≡ start + length (s ++ t) =
          omega (arith, length-append s t) in
        let f =
          decode_children-there is levels fuel rest others (Stands-right s t rest h)
            (omega arith) in
        round_at (decode_item levels data') i is fuel start (start + length s)
          (start + length (s ++ t)) (omega (arith, length-append s t))
          (omega (arith, h.size, length-append s t)) e (rw after at f)

-- The decoder reads back every encoded item, whatever stands behind it, and stops behind the
-- encoding: when its strings have 64 KiB at most, its lists are nested within the 21 levels of the
-- decoder, and the data is below a gigabyte.
pub decode-reencode_item :
    (i : Item) (rest : Bytes)
    → IsDecodable (max_depth + 1) i
    → length (reencode_item i ++ rest) < 2 ^ 30
    → decode (reencode_item i ++ rest) ≡ ok (i, length (reencode_item i))
unfolding decode
decode-reencode_item i rest each small =
    let data' = reencode_item i ++ rest in
    let at : Stands data' 0 (reencode_item i) rest = record {
      there = refl;
      size = omega (arith, length-append (reencode_item i) rest);
    } in
    let e = decode_item-there {data' = data'} small i (max_depth + 1) {offset = 0} rest each at in
    let n : 0 + length (reencode_item i) ≡ length (reencode_item i) = omega arith in rw n at e
