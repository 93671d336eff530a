-- ===== src/Rlp/Item.antt =====
-- contract/rlp/decode.go: the decoded items.
use account_mapping.Prelude.{ℕ, ◌+◌, ◌*◌, ◌%◌, ◌^◌, Bool, true, false, List, [], ◌∷◌, Bytes}

-- `Item`: a byte string (`Data`), or a list of items (`IsList`, `Children`).
mutual
  pub data Item : Type 0 where
    data_item : Bytes → Item
    list_item : Items → Item

  pub data Items : Type 0 where
    nil : Items
    cons : Item → Items → Items

abbrev pub is_list : Item → Bool
is_list (data_item b) = false
is_list (list_item is) = true

-- `item.AsBytes()`; the `Data` of a list is nil.
abbrev pub as_bytes : Item → Bytes
as_bytes (data_item b) = b
as_bytes (list_item is) = []

abbrev pub to_list : Items → List Item
to_list nil = []
to_list (cons i is) = i ∷ to_list is

abbrev pub children : Item → List Item
children (data_item b) = []
children (list_item is) = to_list is

-- The bytes of a big-endian number, added to `acc`.
abbrev pub be_from : ℕ → Bytes → ℕ
be_from acc [] = acc
be_from acc (b ∷ bs) = be_from (acc * 256 + b) bs

-- `item.AsUint64()`: each round shifts left by 8 in 64 bits.
unfoldable pub as_uint64_from : ℕ → Bytes → ℕ
as_uint64_from acc [] = acc
as_uint64_from acc (b ∷ bs) = as_uint64_from ((acc * 256 + b) % 2 ^ 64) bs

unfoldable pub as_uint64 : Item → ℕ
unfolding as_uint64_from
as_uint64 i = as_uint64_from 0 (as_bytes i)
