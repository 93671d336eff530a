-- ===== src/Rlp/Bounds.antt =====
-- The decoder stays inside its input (contract/rlp/decode.go): an item that is decoded ends behind
-- its first byte and not behind the last byte of the data, and the rounds of `decode_children` are
-- enough.
use account_mapping.Prelude.{
  ℕ, zero, suc, ◌+◌, ◌-◌, ◌^◌, ◌<◌, ◌≤◌, ◌≡◌, refl, sym, inl, inr, false, Bytes, ltb, length,
  get_or, Bool-cases, arith,
}
use account_mapping.Result.{Result, ok}
use account_mapping.Host.Action.Laws.{Result-cases}
use account_mapping.Rlp.Item.{Item, Items, nil}
use account_mapping.Rlp.Decode.{
  decode_item, decode_children, decode_list_at, decode_short_string, decode_long_length,
  decode_long_string, decode_long_list, decode_prefix, decode, int_negative, max_depth,
}

-- A decoder of items at offsets that makes progress and stays inside.
abbrev pub Inside : Bytes → (ℕ → Result (Item × ℕ)) → Type 0
Inside data' item =
    (pos : ℕ) (i : Item) (n : ℕ) → item pos ≡ ok (i, n) → (pos < n) × (n ≤ length data')

children-Inside :
    (item : ℕ → Result (Item × ℕ)) (fuel pos end : ℕ) (is : Items) (last : ℕ) (data' : Bytes)
    → Inside data' item
    → decode_children item fuel pos end ≡ ok (is, last)
    → pos ≤ last
unfolding decode_children
children-Inside item zero pos end is last data' inside h = ground arith
children-Inside item (suc fuel) pos end is last data' inside h = elim (Result-cases (item pos)) [
  | inl ((i, n), e) ↦ elim (Result-cases (decode_children item fuel n end)) [
    | inl ((js, m), f) ↦
        ground (arith, inside pos i n, children-Inside item fuel n end js m data' inside f)
    | inr (x, f) ↦ ground arith
  ]
  | inr (x, e) ↦ ground arith
]

-- Past the end the loop stops, whatever fuel is left.
pub children-past :
    (item : ℕ → Result (Item × ℕ)) (fuel pos end : ℕ)
    → end ≤ pos
    → decode_children item fuel pos end ≡ ok (nil, pos)
unfolding decode_children
children-past item zero pos end h = refl
children-past item (suc fuel) pos end h = ground arith

-- A length that wrapped to a negative `int` ends the loop at once.
children-negative :
    (item : ℕ → Result (Item × ℕ)) (fuel pos end : ℕ)
    → ltb end int_negative ≡ false
    → decode_children item fuel pos end ≡ ok (nil, pos)
unfolding decode_children
children-negative item zero pos end h = refl
children-negative item (suc fuel) pos end h = ground arith

-- Rounds beyond the length of the data change nothing.
children-fuel :
    (item : ℕ → Result (Item × ℕ)) (fuel other pos end : ℕ) (data' : Bytes)
    → Inside data' item
    → end ≤ length data'
    → length data' < pos + fuel
    → length data' < pos + other
    → decode_children item fuel pos end ≡ decode_children item other pos end
unfolding decode_children
children-fuel item zero other pos end data' inside e lt lt' =
    sym (children-past item other pos end (omega arith))
children-fuel item (suc fuel) zero pos end data' inside e lt lt' =
    children-past item (suc fuel) pos end (omega arith)
children-fuel item (suc fuel) (suc other) pos end data' inside e lt lt' =
    elim (Result-cases (item pos)) [
      | inl ((i, n), f) ↦
          let (up, bound) = inside pos i n f in
          let rest =
            children-fuel item fuel other n end data' inside e (omega arith) (omega arith) in
          ground arith
      | inr (x, f) ↦ ground arith
    ]

short_string-Inside :
    (data' : Bytes) (offset prefix : ℕ) (i : Item) (n : ℕ)
    → decode_short_string data' offset prefix ≡ ok (i, n)
    → (offset < n) × (n ≤ length data')
unfolding decode_short_string
short_string-Inside data' offset prefix i n h = ground arith

long_length-Inside :
    (data' : Bytes) (offset len_len n : ℕ)
    → decode_long_length data' offset len_len ≡ ok n
    → (offset + 1 + len_len ≤ length data') × (n < int_negative)
unfolding decode_long_length
long_length-Inside data' offset len_len n h = ground arith

long_string-Inside :
    (data' : Bytes) (offset prefix : ℕ) (i : Item) (n : ℕ)
    → length data' < 2 ^ 30
    → decode_long_string data' offset prefix ≡ ok (i, n)
    → (offset < n) × (n ≤ length data')
unfolding decode_long_string
long_string-Inside data' offset prefix i n small h =
    elim (Result-cases (decode_long_length data' offset (prefix - 0xb7))) [
      | inl (k, e) ↦ ground (arith, long_length-Inside data' offset (prefix - 0xb7) k)
      | inr (x, e) ↦ ground arith
    ]

list_at-Inside :
    (item : ℕ → Result (Item × ℕ)) (data' : Bytes) (start end : ℕ) (i : Item) (n : ℕ)
    → Inside data' item
    → length data' < 2 ^ 30
    → start ≤ length data'
    → decode_list_at item data' start end ≡ ok (i, n)
    → (start ≤ n) × (n ≤ length data')
unfolding decode_list_at
list_at-Inside item data' start end i n inside small from h =
    elim (Result-cases (decode_children item (length data' + 1) start end)) [
      | inl ((is, last), e) ↦ elim (Bool-cases (ltb end int_negative)) [
        | inl fits ↦
            ground (arith, children-Inside item (length data' + 1) start end is last data' inside e)
        | inr wrapped ↦ ground (arith, children-negative item (length data' + 1) start end wrapped)
      ]
      | inr (x, e) ↦ ground arith
    ]

long_list-Inside :
    (item : ℕ → Result (Item × ℕ)) (data' : Bytes) (offset prefix : ℕ) (i : Item) (n : ℕ)
    → Inside data' item
    → length data' < 2 ^ 30
    → decode_long_list item data' offset prefix ≡ ok (i, n)
    → (offset < n) × (n ≤ length data')
unfolding decode_long_list
long_list-Inside item data' offset prefix i n inside small h =
    elim (Result-cases (decode_long_length data' offset (prefix - 0xf7))) [
      | inl (k, e) ↦
          let start = offset + 1 + (prefix - 0xf7) in
          let (read, _) = long_length-Inside data' offset (prefix - 0xf7) k e in
          let at : decode_list_at item data' start (start + k) ≡ ok (i, n) = ground arith in
          let (low, high) = list_at-Inside item data' start (start + k) i n inside small read at in
          (omega arith, high)
      | inr (x, e) ↦ ground arith
    ]

prefix-Inside :
    (item : ℕ → Result (Item × ℕ)) (data' : Bytes) (offset prefix : ℕ) (i : Item) (n : ℕ)
    → Inside data' item
    → length data' < 2 ^ 30
    → offset < length data'
    → decode_prefix item data' offset prefix ≡ ok (i, n)
    → (offset < n) × (n ≤ length data')
unfolding decode_prefix
prefix-Inside item data' offset prefix i n inside small here h = ground (
  arith,
  short_string-Inside data' offset prefix i n,
  long_string-Inside data' offset prefix i n small,
  list_at-Inside item data' (offset + 1) (offset + 1 + (prefix - 0xc0)) i n inside small
      (omega arith),
  long_list-Inside item data' offset prefix i n inside small,
)

pub decode_item-Inside :
    (levels : ℕ) (data' : Bytes) → length data' < 2 ^ 30 → Inside data' (decode_item levels data')
unfolding decode_item
decode_item-Inside zero data' small pos i n h = ground arith
decode_item-Inside (suc levels) data' small pos i n h = ground (
  arith,
  prefix-Inside (decode_item levels data') data' pos (get_or data' pos 0) i n
      (decode_item-Inside levels data' small) small,
)

-- An item that is decoded from data below a gigabyte takes at least a byte, and none behind the end.
pub decode_bounds :
    (data' : Bytes) {i : Item} {n : ℕ}
    → length data' < 2 ^ 30
    → decode data' ≡ ok (i, n)
    → (0 < n) × (n ≤ length data')
unfolding decode
decode_bounds data' {i} {n} small h = decode_item-Inside (max_depth + 1) data' small 0 i n h

-- The loop over the items of a list has rounds enough at every level: with data below a gigabyte and
-- an end inside it, any number of rounds above that of the bytes left gives one result, so the loop
-- of the code, which has no bound, ends there too.
pub decode_children_terminates :
    (levels fuel other pos end : ℕ) (data' : Bytes)
    → length data' < 2 ^ 30
    → end ≤ length data'
    → length data' < pos + fuel
    → length data' < pos + other
    → decode_children (decode_item levels data') fuel pos end
      ≡ decode_children (decode_item levels data') other pos end
decode_children_terminates levels fuel other pos end data' small inside enough also =
    children-fuel (decode_item levels data') fuel other pos end data'
      (decode_item-Inside levels data' small) inside enough also
