-- ===== src/Rlp/Decode.antt =====
-- contract/rlp/decode.go. The contract is built for wasm32, where Go's `int` has 32 bits.
use account_mapping.Prelude.{
  ℕ, zero, suc, ◌+◌, ◌-◌, ◌*◌, ◌%◌, ◌^◌, Bool, true, false, ◌&&◌, List, [], ◌∷◌, Bytes, ltb, leb,
  ◌==◌, if◌then◌else◌, length, get_or, slice,
}
use account_mapping.Result.{Result, ok, err, ◌>>=◌, ◌>>◌, reject_if, contract_error, input}
use account_mapping.Rlp.Item.{Item, Items, data_item, list_item, nil, cons, children}

abbrev pub max_depth : ℕ
max_depth = 20

abbrev pub max_item_size : ℕ
max_item_size = 65536

abbrev pub int_mod : ℕ
int_mod = 2 ^ 32

-- A bit pattern from here on is a negative `int`.
abbrev pub int_negative : ℕ
int_negative = 2 ^ 31

-- The loop of `decodeLength`, as a bit pattern of an `int`.
unfoldable pub decode_length_from : ℕ → Bytes → ℕ
decode_length_from acc [] = acc
decode_length_from acc (b ∷ bs) = decode_length_from ((acc * 256 + b) % int_mod) bs

unfoldable pub decode_length : Bytes → ℕ
unfolding decode_length_from
decode_length bs = decode_length_from 0 bs

-- `end > len(data)` for a sum of two `int`s, which may wrap to a negative one.
abbrev pub past_end : ℕ → Bytes → Bool
past_end end data' = ltb end int_negative && ltb (length data') end

-- One round of `decodeChildren` for each unit of fuel; a negative `end` stands below `pos`.
unfoldable pub decode_children :
    (ℕ → Result (Item × ℕ)) → (fuel : ℕ) → (pos end : ℕ) → Result (Items × ℕ)
decode_children item zero pos end = ok (nil, pos)
decode_children item (suc fuel) pos end =
    let more = (do
      (child, next) ← item pos
      (rest, last) ← decode_children item fuel next end
      ok (cons child rest, last)) in
    if ltb end int_negative && ltb pos end then more else ok (nil, pos)

-- The list from `start` to `end`: the loop, then the check that it stopped at `end`.
unfoldable pub decode_list_at :
    (ℕ → Result (Item × ℕ)) → Bytes → (start end : ℕ) → Result (Item × ℕ)
decode_list_at item data' start end = do
  reject_if (past_end end data') input "rlp: input too short"
  (is, pos) ← decode_children item (length data' + 1) start end
  reject_if (if pos == end then false else true) input "rlp: list length mismatch"
  ok (list_item is, end)

unfoldable pub decode_short_string : Bytes → ℕ → ℕ → Result (Item × ℕ)
decode_short_string data' offset prefix =
    let n = prefix - 0x80 in
    let start = offset + 1 in
    let end = start + n in
    do
      reject_if (ltb (length data') end) input "rlp: input too short"
      reject_if (ltb max_item_size n) input "rlp: item exceeds max size"
      reject_if (n == 1 && leb (get_or data' start 0) 0x7f) input "rlp: non-canonical encoding"
      ok (data_item (slice data' start end), end)

-- The length of a long string or list, whose `len_len` bytes stand after the prefix.
unfoldable pub decode_long_length : Bytes → ℕ → ℕ → Result ℕ
unfolding decode_length
decode_long_length data' offset len_len =
    let start = offset + 1 in
    let n = decode_length (slice data' start (start + len_len)) in
    do
      reject_if (ltb (length data') (start + len_len)) input "rlp: input too short"
      reject_if (leb int_negative n) input "rlp: non-canonical encoding"
      reject_if (leb n 55) input "rlp: non-canonical encoding"
      reject_if (get_or data' start 0 == 0) input "rlp: non-canonical encoding"
      ok n

unfoldable pub decode_long_string : Bytes → ℕ → ℕ → Result (Item × ℕ)
decode_long_string data' offset prefix = do
  n ← decode_long_length data' offset (prefix - 0xb7)
  let data_start = offset + 1 + (prefix - 0xb7)
  let data_end = data_start + n
  reject_if (past_end data_end data') input "rlp: input too short"
  reject_if (ltb max_item_size n) input "rlp: item exceeds max size"
  ok (data_item (slice data' data_start data_end), data_end)

unfoldable pub decode_long_list : (ℕ → Result (Item × ℕ)) → Bytes → ℕ → ℕ → Result (Item × ℕ)
decode_long_list item data' offset prefix = do
  n ← decode_long_length data' offset (prefix - 0xf7)
  let payload_start = offset + 1 + (prefix - 0xf7)
  decode_list_at item data' payload_start (payload_start + n)

-- The switch on the prefix; `item` decodes a child one level deeper.
unfoldable pub decode_prefix :
    (ℕ → Result (Item × ℕ)) → Bytes → (offset prefix : ℕ) → Result (Item × ℕ)
decode_prefix item data' offset prefix =
    if leb prefix 0x7f
    then ok (data_item (slice data' offset (offset + 1)), offset + 1)
    else if leb prefix 0xb7
    then decode_short_string data' offset prefix
    else if leb prefix 0xbf
    then decode_long_string data' offset prefix
    else if leb prefix 0xf7
    then decode_list_at item data' (offset + 1) (offset + 1 + (prefix - 0xc0))
    else decode_long_list item data' offset prefix

-- `levels` is `maxDepth + 1 - depth`.
unfoldable pub decode_item : (levels : ℕ) → Bytes → (offset : ℕ) → Result (Item × ℕ)
decode_item zero data' offset = err (contract_error input "rlp: max depth exceeded")
decode_item (suc levels) data' offset =
    if leb (length data') offset
    then err (contract_error input "rlp: input too short")
    else decode_prefix (decode_item levels data') data' offset (get_or data' offset 0)

unfoldable pub decode : Bytes → Result (Item × ℕ)
unfolding decode_item
decode data' = decode_item (max_depth + 1) data' 0

unfoldable pub list_of : Item → Result (List Item)
list_of (data_item b) = err (contract_error input "rlp: expected list")
list_of (list_item is) = ok (children (list_item is))

unfoldable pub decode_list : Bytes → Result (List Item)
unfolding decode list_of
decode_list data' = do (item, n) ← decode data'; list_of item
