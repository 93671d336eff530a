-- ===== src/Monitor/Accept/Sizes.antt =====
-- The sizes of encoded nodes (monitor/trie.go): none is embedded in its parent, and all are small.
use account_mapping.Prelude.{
  ℕ, zero, suc, ◌+◌, ◌%◌, ◌/◌, ◌<◌, ◌≤◌, ◌≡◌, ap, Bytes, List, [], ◌∷◌, ◌++◌, length, length-append,
  arith, Bool, true, false,
}
use account_mapping.Rlp.Encode.{
  encode_bytes, encode_list, encode_length, concat, big_endian_uint64, be_digits,
}
use account_mapping.Monitor.Trie.{
  Trie, leaf, branch, extension, Slots, no_slots, nil_slot, slot, pack, nibbles_to_compact,
  child_ref, encode_node, encode_slots,
}
use account_mapping.Monitor.Accept.{IsTrie, AreSlots, TakesSlot}

be_digits-length :
    (rounds v : ℕ) (acc : Bytes) → length (be_digits rounds v acc) ≤ rounds + length acc
unfolding be_digits
be_digits-length zero v acc = omega arith
be_digits-length (suc rounds) v acc =
    ground (arith, be_digits-length rounds (v / 256) ((v % 256) ∷ acc))

encode_length-few :
    (n offset : ℕ) → (1 ≤ length (encode_length n offset)) × (length (encode_length n offset) ≤ 9)
unfolding encode_length big_endian_uint64
encode_length-few n offset = ground (arith, be_digits-length 8 n [])

pub encode_bytes-size :
    (b : Bytes)
    → (length b ≤ length (encode_bytes b))
      × (1 ≤ length (encode_bytes b))
      × (length (encode_bytes b) ≤ length b + 9)
unfolding encode_bytes
encode_bytes-size [] = let few = encode_length-few 0 0x80 in (omega arith, omega arith, omega arith)
encode_bytes-size (b ∷ []) =
    ground (arith, length-append (encode_length 1 0x80) (b ∷ []), encode_length-few 1 0x80)
encode_bytes-size (b ∷ c ∷ s) =
    let few = encode_length-few (length (b ∷ c ∷ s)) 0x80 in
    let n = length-append (encode_length (length (b ∷ c ∷ s)) 0x80) (b ∷ c ∷ s) in
    (omega arith, omega arith, omega arith)

pub encode_list-size :
    (items : List Bytes)
    → (length (concat items) < length (encode_list items))
      × (length (encode_list items) ≤ length (concat items) + 9)
unfolding encode_list
encode_list-size items =
    let few = encode_length-few (length (concat items)) 0xc0 in
    let n = length-append (encode_length (length (concat items)) 0xc0) (concat items) in
    (omega arith, omega arith)

pack-length : (ns : Bytes) → length (pack ns) ≤ length ns
unfolding pack
pack-length [] = omega arith
pack-length (a ∷ []) = omega arith
pack-length (a ∷ b ∷ ns) = let rest = pack-length ns in omega arith

pub compact-length :
    (ns : Bytes) (is_leaf : Bool) → length (nibbles_to_compact ns is_leaf) ≤ length ns + 1
unfolding nibbles_to_compact
compact-length [] is_leaf = ground (arith, pack-length [])
compact-length (n ∷ ns) is_leaf = ground (arith, pack-length (n ∷ ns), pack-length ns)

-- Two items.
pub pair-size :
    (a b : Bytes)
    → (length b < length (encode_list (encode_bytes a ∷ encode_bytes b ∷ [])))
      × (length (encode_list (encode_bytes a ∷ encode_bytes b ∷ [])) ≤ length a + length b + 27)
pair-size a b =
    let (low, high) = encode_list-size (encode_bytes a ∷ encode_bytes b ∷ []) in
    let (a-low, _, a-high) = encode_bytes-size a in
    let (b-low, _, b-high) = encode_bytes-size b in
    let n = length-append (encode_bytes a) (encode_bytes b ++ []) in
    let m = length-append (encode_bytes b) [] in (omega arith, omega arith)

pub concat-length :
    (xs ys : List Bytes) → length (concat (xs ++ ys)) ≡ length (concat xs) + length (concat ys)
concat-length [] ys = omega arith
concat-length (x ∷ xs) ys =
    let n = length-append x (concat (xs ++ ys)) in
    let m = length-append x (concat xs) in let rest = concat-length xs ys in omega arith

module _ (keccak256 : Bytes → Bytes) (width : (x : Bytes) → length (keccak256 x) ≡ 32) where
  pub child_ref-hash :
      (e : Bytes) → 32 ≤ length e → child_ref keccak256 e ≡ encode_bytes (keccak256 e)
  unfolding child_ref
  child_ref-hash e big = ground arith

  mutual
    unfolding encode_node IsTrie

    -- No node is embedded in its parent.
    pub node-big : (t : Trie) → IsTrie t → 32 ≤ length (encode_node keccak256 t)
    node-big (leaf ks v) (_, _, big, _) =
        omega (arith, (pair-size (nibbles_to_compact ks true) v).0)
    node-big (branch slots v) (each, some_slot, _) =
        let list = encode_list-size (encode_slots keccak256 slots ++ encode_bytes v ∷ []) in
        let n = concat-length (encode_slots keccak256 slots) (encode_bytes v ∷ []) in
        omega (arith, list.0, slots-big slots 16 each some_slot)
    node-big (extension ks t) (_, _, sub) =
        let child = child_ref-hash (encode_node keccak256 t) (node-big t sub) in
        rw child (
          omega (
            arith,
            (pair-size (nibbles_to_compact ks false) (keccak256 (encode_node keccak256 t))).0,
            width (encode_node keccak256 t),
          ))

    slots-big :
        (slots : Slots) (n : ℕ)
        → AreSlots n slots
        → TakesSlot slots
        → 32 ≤ length (concat (encode_slots keccak256 slots))
    slots-big no_slots n each taken = absurd (omega arith)
    slots-big (nil_slot rest) n (n', _, each) taken = omega (
      arith,
      length-append (encode_bytes []) (concat (encode_slots keccak256 rest)),
      slots-big rest n' each taken,
    )
    slots-big (slot t rest) n (n', _, sub, each) taken =
        let e = encode_node keccak256 t in
        let child = child_ref-hash e (node-big t sub) in
        let n = length-append (child_ref keccak256 e) (concat (encode_slots keccak256 rest)) in
        let size = (encode_bytes-size (keccak256 e)).0 in
        let there : length (child_ref keccak256 e) ≡ length (encode_bytes (keccak256 e)) =
          ap (λ s. length s) child in
        omega (arith, width e)
