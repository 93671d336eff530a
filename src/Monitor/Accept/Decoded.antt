-- ===== src/Monitor/Accept/Decoded.antt =====
-- The contract (contract/mpt/verify.go) decodes the monitor's nodes (monitor/trie.go).
use account_mapping.Prelude.{
  ℕ, suc, ◌≤◌, ◌≡◌, refl, ◌∙◌, ap, Bytes, [], ◌∷◌, ◌++◌, length, arith, append-nil, true, false,
}
use account_mapping.Result.{ok}
use account_mapping.Rlp.Item.{Item, Items, data_item, list_item, nil, cons}
use account_mapping.Rlp.Decode.{decode}
use account_mapping.Mpt.Node.{
  Node, Nodes, node, empty, hash_node, value_node, short_node, full_node, has_term, string_ref,
  short_of, decode_ref, decode_full, decode_node, node_of_item, compact_to_hex, count,
}
use account_mapping.Monitor.Trie.{
  Trie, leaf, branch, extension, Slots, no_slots, nil_slot, slot, nibbles_to_compact, encode_node,
}
use account_mapping.Monitor.Compact.{AreNibbles, compact_to_hex-nibbles_to_compact}
use account_mapping.Monitor.Accept.{IsTrie, AreSlots, item_of, slot_items, slot_nodes, node_of}
use account_mapping.Monitor.Accept.Sizes.{node-big}
use account_mapping.Monitor.Accept.Encoded.{decode-encode_node}

has_term-leaf : (ks : Bytes) → has_term (ks ++ 16 ∷ []) ≡ true
unfolding has_term
has_term-leaf [] = refl
has_term-leaf (k ∷ []) = refl
has_term-leaf (k ∷ l ∷ ks) = has_term-leaf (l ∷ ks)

has_term-nibbles : (ks : Bytes) → AreNibbles ks → has_term (ks ++ []) ≡ false
unfolding has_term
has_term-nibbles [] small = refl
has_term-nibbles (k ∷ []) (low, small) = ground arith
has_term-nibbles (k ∷ l ∷ ks) (low, small) = has_term-nibbles (l ∷ ks) small

decode_full-cons :
    (c : Item) (is : Items) (r : Node) (rs : Nodes)
    → 1 ≤ count is
    → decode_ref c ≡ ok r
    → decode_full is ≡ ok rs
    → decode_full (cons c is) ≡ ok (node r rs)
unfolding decode_full
decode_full-cons c nil r rs some_item e f = absurd (omega arith)
decode_full-cons c (cons d is) r rs some_item e f = ground arith

decode_ref-nil : decode_ref (data_item []) ≡ ok empty
unfolding decode_ref string_ref
decode_ref-nil = refl

decode_ref-hash : (h : Bytes) → length h ≡ 32 → decode_ref (data_item h) ≡ ok (hash_node h)
unfolding decode_ref string_ref
decode_ref-hash h w = ground arith

short-leaf :
    (key value : Bytes) (ks : Bytes)
    → compact_to_hex key ≡ ks ++ 16 ∷ []
    → decode_ref (list_item (cons (data_item key) (cons (data_item value) nil)))
      ≡ ok (short_node (ks ++ 16 ∷ []) (value_node value))
unfolding decode_ref short_of
short-leaf key value ks e = ground (arith, has_term-leaf ks, e)

short-extension :
    (key hash : Bytes) (ks : Bytes)
    → compact_to_hex key ≡ ks ++ []
    → AreNibbles ks
    → length hash ≡ 32
    → decode_ref (list_item (cons (data_item key) (cons (data_item hash) nil)))
      ≡ ok (short_node (ks ++ []) (hash_node hash))
unfolding decode_ref short_of string_ref
short-extension key hash ks e small w = ground (arith, has_term-nibbles ks small, e)

full-branch :
    (is : Items) (cs : Nodes)
    → count is ≡ 17
    → decode_full is ≡ ok cs
    → decode_ref (list_item is) ≡ ok (full_node cs)
unfolding decode_ref
full-branch is cs n e = ground (arith, e)

module _ (keccak256 : Bytes → Bytes) (width : (x : Bytes) → length (keccak256 x) ≡ 32) where
  count-slot_items :
      (slots : Slots) (n : ℕ) (v : Bytes)
      → AreSlots n slots
      → count (slot_items keccak256 slots v) ≡ suc n
  unfolding slot_items AreSlots
  count-slot_items no_slots n v each = omega arith
  count-slot_items (nil_slot rest) n v (n', e, each) =
      omega (arith, count-slot_items rest n' v each)
  count-slot_items (slot t rest) n v (n', e, sub, each) =
      omega (arith, count-slot_items rest n' v each)

  decode-slots :
      (slots : Slots) (n : ℕ) (v : Bytes)
      → AreSlots n slots
      → decode_full (slot_items keccak256 slots v) ≡ ok (slot_nodes keccak256 slots v)
  unfolding slot_items slot_nodes AreSlots decode_full
  decode-slots no_slots n v each = refl
  decode-slots (nil_slot rest) n v (n', e, each) =
      decode_full-cons (data_item []) (slot_items keccak256 rest v) empty
        (slot_nodes keccak256 rest v) (omega (arith, count-slot_items rest n' v each))
        decode_ref-nil (decode-slots rest n' v each)
  decode-slots (slot t rest) n v (n', e, sub, each) =
      let h = keccak256 (encode_node keccak256 t) in
      decode_full-cons (data_item h) (slot_items keccak256 rest v) (hash_node h)
        (slot_nodes keccak256 rest v) (omega (arith, count-slot_items rest n' v each))
        (decode_ref-hash h (width (encode_node keccak256 t))) (decode-slots rest n' v each)

  item-node : (t : Trie) → IsTrie t → node_of_item (item_of keccak256 t) ≡ ok (node_of keccak256 t)
  unfolding node_of_item item_of node_of IsTrie
  item-node (leaf ks v) (small, _, _, _) =
      short-leaf (nibbles_to_compact ks true) v ks (compact_to_hex-nibbles_to_compact ks true small)
  item-node (branch slots v) (each, _, _) =
      full-branch (slot_items keccak256 slots v) (slot_nodes keccak256 slots v)
        (count-slot_items slots 16 v each) (decode-slots slots 16 v each)
  item-node (extension ks t) (small, _, sub) =
      let h = keccak256 (encode_node keccak256 t) in
      short-extension (nibbles_to_compact ks false) h ks
        (compact_to_hex-nibbles_to_compact ks false small) small (width (encode_node keccak256 t))
      ∙ ap (λ k. ok (short_node k (hash_node h))) (append-nil ks)

  decode_node-ok :
      (bs : Bytes) (i : Item) (n : ℕ)
      → 1 ≤ length bs
      → decode bs ≡ ok (i, n)
      → decode_node bs ≡ node_of_item i
  unfolding decode_node
  decode_node-ok [] i n some_bytes e = absurd (omega arith)
  decode_node-ok (b ∷ bs) i n some_bytes e = ground (arith, e)

  -- A node of the monitor is decoded to the node that it stands for.
  pub decode_node-encode_node :
      (t : Trie) → IsTrie t → decode_node (encode_node keccak256 t) ≡ ok (node_of keccak256 t)
  decode_node-encode_node t w =
      decode_node-ok (encode_node keccak256 t) (item_of keccak256 t)
        (length (encode_node keccak256 t)) (omega (arith, node-big keccak256 width t w))
        (decode-encode_node keccak256 width t w)
      ∙ item-node t w
