-- ===== src/Mpt/Node.antt =====
-- contract/mpt/verify.go: trie nodes, their decoding, and the walk inside one node.
use account_mapping.Prelude.{
  ℕ, zero, suc, ◌-◌, ◌/◌, ◌%◌, Bool, false, [], ◌∷◌, Bytes, ltb, ◌==◌, if◌then◌else◌, length, take,
  drop, eqb,
}
use account_mapping.Result.{Result, ok, err, ◌>>=◌, contract_error, transaction}
use account_mapping.Rlp.Item.{Item, Items, data_item, list_item, nil, cons, as_bytes}
use account_mapping.Rlp.Decode.{decode}

-- `node`: `empty` is nil.
mutual
  pub data Node : Type 0 where
    empty : Node
    hash_node value_node : Bytes → Node
    short_node : (key : Bytes) → Node → Node
    full_node : Nodes → Node

  -- The children of a full node.
  pub data Nodes : Type 0 where
    no_nodes : Nodes
    node : Node → Nodes → Nodes

-- `keybytesToHex`: the nibbles, and the terminator 16.
unfoldable pub keybytes_to_hex : Bytes → Bytes
keybytes_to_hex [] = 16 ∷ []
keybytes_to_hex (b ∷ bs) = (b / 16) ∷ (b % 16) ∷ keybytes_to_hex bs

abbrev pub drop_last : Bytes → Bytes
drop_last [] = []
drop_last (x ∷ []) = []
drop_last (x ∷ y ∷ xs) = x ∷ drop_last (y ∷ xs)

abbrev pub first : Bytes → ℕ
first [] = 0
first (x ∷ xs) = x

-- `base[0]` says whether there is a terminator (2 or more) and whether the count is odd.
unfoldable pub strip_flags : Bytes → Bytes
strip_flags base =
    let flag = first base in drop (2 - flag % 2) (if ltb flag 2 then drop_last base else base)

unfoldable pub compact_to_hex : Bytes → Bytes
unfolding keybytes_to_hex strip_flags
compact_to_hex [] = []
compact_to_hex (b ∷ bs) = strip_flags (keybytes_to_hex (b ∷ bs))

unfoldable pub has_term : Bytes → Bool
has_term [] = false
has_term (x ∷ []) = x == 16
has_term (x ∷ y ∷ xs) = has_term (y ∷ xs)

abbrev pub count : Items → ℕ
count nil = 0
count (cons i is) = suc (count is)

abbrev pub invalid_proof : {A : Type 0} → Result A
invalid_proof = err (contract_error transaction "mpt: invalid proof")

-- A string as a reference: nothing, a hash, or an error.
unfoldable pub string_ref : Bytes → Result Node
string_ref b =
    if length b == 0 then ok empty else if length b == 32 then ok (hash_node b) else invalid_proof

-- A leaf keeps its value; an extension's child has been decoded already.
unfoldable pub short_of : Bytes → Bytes → Result Node → Result Node
short_of key val child =
    if has_term key
    then ok (short_node key (value_node val))
    else (do r ← child; ok (short_node key r))

abbrev pub value_slot : Bytes → Node
value_slot [] = empty
value_slot (b ∷ bs) = value_node (b ∷ bs)

unfoldable mutual
  pub decode_ref : Item → Result Node
  decode_ref (data_item b) = string_ref b
  decode_ref (list_item is) =
      let short = decode_short is in
      let full = (do cs ← decode_full is; ok (full_node cs)) in
      if count is == 2 then short else if count is == 17 then full else invalid_proof

  pub decode_short : Items → Result Node
  decode_short (cons k (cons v nil)) =
      short_of (compact_to_hex (as_bytes k)) (as_bytes v) (decode_ref v)
  decode_short _ = invalid_proof

  -- Sixteen references, then the value slot.
  pub decode_full : Items → Result Nodes
  decode_full nil = ok no_nodes
  decode_full (cons v nil) = ok (node (value_slot (as_bytes v)) no_nodes)
  decode_full (cons c (cons d is)) = do
    r ← decode_ref c
    rs ← decode_full (cons d is)
    ok (node r rs)

-- `decodeNode`: a list of 2 or 17 items, as for a reference.
unfoldable pub node_of_item : Item → Result Node
node_of_item (data_item b) = invalid_proof
node_of_item (list_item is) = decode_ref (list_item is)

unfoldable pub decode_node : Bytes → Result Node
unfolding node_of_item
decode_node [] = invalid_proof
decode_node (b ∷ bs) = elim (decode (b ∷ bs)) [
  | ok (item, n) ↦ node_of_item item
  | err e ↦ invalid_proof
]

-- `n.Children[16]`: the last of the children.
abbrev pub last_node : Nodes → Node
last_node no_nodes = empty
last_node (node n no_nodes) = n
last_node (node n (node m ms)) = last_node (node m ms)

-- `get`: the walk through embedded nodes, up to a hash, a value or nil.
unfoldable mutual
  pub get : Node → Bytes → Bytes × Node
  get empty key = (key, empty)
  get (hash_node h) key = (key, hash_node h)
  get (value_node v) key = ([], value_node v)
  get (short_node k n) key =
      let inner = get n (drop (length k) key) in
      if ltb (length key) (length k)
      then ([], empty)
      else if eqb k (take (length k) key)
      then inner
      else ([], empty)
  get (full_node cs) [] = ([], last_node cs)
  get (full_node cs) (i ∷ key) = get_child cs i key

  -- `tn = n.Children[key[0]]`, and on with the loop.
  pub get_child : Nodes → ℕ → Bytes → Bytes × Node
  get_child no_nodes i key = (key, empty)
  get_child (node n ns) zero key = get n key
  get_child (node n ns) (suc i) key = get_child ns i key
