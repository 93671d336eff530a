-- ===== src/Monitor/Accept/Encoded.antt =====
-- A node of the monitor (monitor/trie.go) is the encoding of an item that the contract's decoder
-- (contract/rlp/decode.go) reads back.
use account_mapping.Prelude.{
  ℕ, ◌+◌, ◌*◌, ◌<◌, ◌≤◌, ◌^◌, ◌≡◌, refl, sym, ap, Bytes, [], ◌∷◌, ◌++◌, length, length-append,
  arith, append-nil, true, false,
}
use account_mapping.Result.{ok}
use account_mapping.Rlp.Encode.{encode_bytes, encode_list, concat, reencode_item, reencode_items}
use account_mapping.Rlp.Decode.{decode, max_depth, max_item_size}
use account_mapping.Rlp.Inverse.{IsDecodable, AreDecodable, decode-reencode_item}
use account_mapping.Monitor.Trie.{
  Trie, leaf, branch, extension, Slots, no_slots, nil_slot, slot, nibbles_to_compact, child_ref,
  encode_node, encode_slots,
}
use account_mapping.Monitor.Accept.{IsTrie, AreSlots, item_of, slot_items}
use account_mapping.Monitor.Accept.Sizes.{
  encode_bytes-size, encode_list-size, pair-size, compact-length, concat-length, child_ref-hash,
  node-big,
}

module _ (keccak256 : Bytes → Bytes) (width : (x : Bytes) → length (keccak256 x) ≡ 32) where
  slots-items :
      (slots : Slots) (n : ℕ) (v : Bytes)
      → AreSlots n slots
      → encode_slots keccak256 slots ++ encode_bytes v ∷ []
        ≡ reencode_items (slot_items keccak256 slots v)
  unfolding encode_slots slot_items reencode_items AreSlots
  slots-items no_slots n v each = refl
  slots-items (nil_slot rest) n v (n', _, each) =
      ap (λ t. encode_bytes [] ∷ t) (slots-items rest n' v each)
  slots-items (slot t rest) n v (n', _, sub, each) =
      rw (child_ref-hash keccak256 width (encode_node keccak256 t) (node-big keccak256 width t sub))
        (ap (λ s. encode_bytes (keccak256 (encode_node keccak256 t)) ∷ s)
          (slots-items rest n' v each))

  node-item : (t : Trie) → IsTrie t → encode_node keccak256 t ≡ reencode_item (item_of keccak256 t)
  unfolding encode_node item_of reencode_item IsTrie
  node-item (leaf ks v) w = refl
  node-item (branch slots v) (each, _, _) = ap encode_list (slots-items slots 16 v each)
  node-item (extension ks t) (_, _, sub) =
      rw (child_ref-hash keccak256 width (encode_node keccak256 t) (node-big keccak256 width t sub))
        refl

  slots-small :
      (slots : Slots) (n : ℕ)
      → AreSlots n slots
      → length (concat (encode_slots keccak256 slots)) ≤ n * 41
  unfolding encode_slots AreSlots
  slots-small no_slots n each = omega arith
  slots-small (nil_slot rest) n (n', e, each) = omega (
    arith,
    length-append (encode_bytes []) (concat (encode_slots keccak256 rest)),
    encode_bytes-size [],
    slots-small rest n' each,
  )
  slots-small (slot t rest) n (n', e, sub, each) =
      let s = encode_node keccak256 t in
      let there : length (child_ref keccak256 s) ≡ length (encode_bytes (keccak256 s)) =
        ap (λ x. length x) (child_ref-hash keccak256 width s (node-big keccak256 width t sub)) in
      let (_, _, high) = encode_bytes-size (keccak256 s) in
      omega (
        arith,
        width s,
        length-append (child_ref keccak256 s) (concat (encode_slots keccak256 rest)),
        slots-small rest n' each,
      )

  node-small : (t : Trie) → IsTrie t → length (encode_node keccak256 t) < 2 ^ 30
  unfolding encode_node IsTrie
  node-small (leaf ks v) (_, few, _, most) =
      omega (arith, (pair-size (nibbles_to_compact ks true) v).1, compact-length ks true)
  node-small (branch slots v) (each, _, most) =
      let (_, _, high) = encode_bytes-size v in
      omega (
        arith,
        (encode_list-size (encode_slots keccak256 slots ++ encode_bytes v ∷ [])).1,
        concat-length (encode_slots keccak256 slots) (encode_bytes v ∷ []),
        length-append (encode_bytes v) [],
        slots-small slots 16 each,
      )
  node-small (extension ks t) (_, few, sub) =
      let s = encode_node keccak256 t in
      rw (child_ref-hash keccak256 width s (node-big keccak256 width t sub)) (
        omega (
          arith,
          (pair-size (nibbles_to_compact ks false) (keccak256 s)).1,
          compact-length ks false,
          width s,
        ))

  slots-AreDecodable :
      (slots : Slots) (v : Bytes)
      → length v ≤ max_item_size
      → AreDecodable 20 (slot_items keccak256 slots v)
  unfolding slot_items AreDecodable
  slots-AreDecodable no_slots v most = ((omega arith, most), tt)
  slots-AreDecodable (nil_slot rest) v most =
      ((omega arith, omega arith), slots-AreDecodable rest v most)
  slots-AreDecodable (slot t rest) v most =
      let w = width (encode_node keccak256 t) in
      ((omega arith, omega arith), slots-AreDecodable rest v most)

  node-IsDecodable : (t : Trie) → IsTrie t → IsDecodable (max_depth + 1) (item_of keccak256 t)
  unfolding item_of IsDecodable IsTrie
  node-IsDecodable (leaf ks v) (_, few, _, most) =
      let key = compact-length ks true in
      (omega arith, ((omega arith, omega arith), ((omega arith, most), tt)))
  node-IsDecodable (branch slots v) (_, _, most) = (omega arith, slots-AreDecodable slots v most)
  node-IsDecodable (extension ks t) (_, few, _) =
      let key = compact-length ks false in
      let w = width (encode_node keccak256 t) in
      (omega arith, ((omega arith, omega arith), ((omega arith, omega arith), tt)))

  -- The decoder reads back the item of a node.
  pub decode-encode_node :
      (t : Trie)
      → IsTrie t
      → decode (encode_node keccak256 t)
        ≡ ok (item_of keccak256 t, length (encode_node keccak256 t))
  decode-encode_node t w =
      let e = node-item t w in
      let bare = append-nil (reencode_item (item_of keccak256 t)) in
      let small : length (reencode_item (item_of keccak256 t) ++ []) < 2 ^ 30 =
        rw (bare, sym e) (node-small t w) in
      rw e (rw bare at (decode-reencode_item (item_of keccak256 t) [] (node-IsDecodable t w) small))
