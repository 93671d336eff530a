-- ===== src/Monitor/Trie.antt =====
-- monitor/trie.go: the tries of a block's transactions and receipts, their hashes and proofs.
use account_mapping.Prelude.{
  ℕ, zero, suc, ◌+◌, ◌*◌, ◌/◌, ◌%◌, Bool, true, false, Option, none, some, List, [], ◌∷◌, ◌++◌,
  Bytes, length, ltb, ◌==◌, if◌then◌else◌, drop, get_or,
}
use account_mapping.Rlp.Encode.{encode_bytes, encode_list}

-- `trieNode`; the children of a branch are in `Slots`, nil or not.
mutual
  pub data Trie : Type 0 where
    leaf : (key_nibbles value : Bytes) → Trie
    branch : Slots → (value : Bytes) → Trie
    extension : (key_nibbles : Bytes) → Trie → Trie

  pub data Slots : Type 0 where
    no_slots : Slots
    nil_slot : Slots → Slots
    slot : Trie → Slots → Slots

-- The two loops of `nibblesToCompact`: bytes from pairs of nibbles.
unfoldable pub pack : Bytes → Bytes
pack [] = []
pack (a ∷ []) = []
pack (a ∷ b ∷ s) = (a * 16 + b) ∷ pack s

abbrev pub leaf_flag : Bool → ℕ
leaf_flag is_leaf = if is_leaf then 2 else 0

unfoldable pub nibbles_to_compact : Bytes → (is_leaf : Bool) → Bytes
nibbles_to_compact nibbles is_leaf =
    if length nibbles % 2 == 1
    then ((leaf_flag is_leaf + 1) * 16 + get_or nibbles 0 0) ∷ pack (drop 1 nibbles)
    else (leaf_flag is_leaf * 16) ∷ pack nibbles

unfoldable pub key_to_nibbles : Bytes → Bytes
key_to_nibbles [] = []
key_to_nibbles (b ∷ s) = (b / 16) ∷ (b % 16) ∷ key_to_nibbles s

module _ (keccak256 : Bytes → Bytes) where
  -- A child as its parent holds it: embedded, or its hash.
  unfoldable pub child_ref : (encoding : Bytes) → Bytes
  child_ref encoding =
      if ltb (length encoding) 32 then encoding else encode_bytes (keccak256 encoding)

  unfoldable mutual
    unfolding nibbles_to_compact child_ref

    pub encode_node : Trie → Bytes
    encode_node (leaf key_nibbles value) =
        encode_list (encode_bytes (nibbles_to_compact key_nibbles true) ∷ encode_bytes value ∷ [])
    encode_node (branch slots value) = encode_list (encode_slots slots ++ encode_bytes value ∷ [])
    encode_node (extension key_nibbles child) =
        encode_list
          (encode_bytes (nibbles_to_compact key_nibbles false) ∷ child_ref (encode_node child) ∷ [])

    pub encode_slots : Slots → List Bytes
    encode_slots no_slots = []
    encode_slots (nil_slot rest) = encode_bytes [] ∷ encode_slots rest
    encode_slots (slot t rest) = child_ref (encode_node t) ∷ encode_slots rest

  -- `hash`: a leaf that is shorter than 32 bytes is its own hash here.
  unfoldable pub node_hash : Trie → Bytes
  unfolding encode_node
  node_hash (leaf key_nibbles value) =
      let encoding = encode_node (leaf key_nibbles value) in
      if ltb (length encoding) 32 then encoding else keccak256 encoding
  node_hash t = keccak256 (encode_node t)

  unfoldable pub trie_root : Option Trie → Bytes
  unfolding node_hash
  trie_root none = keccak256 (encode_bytes [])
  trie_root (some t) = node_hash t

  unfoldable mutual
    unfolding encode_node

    -- `collectProof`, from a node on, with the nibbles behind the depth.
    pub collect_proof : Trie → Bytes → List Bytes
    collect_proof (leaf key_nibbles value) key = encode_node (leaf key_nibbles value) ∷ []
    collect_proof (branch slots value) [] = encode_node (branch slots value) ∷ []
    collect_proof (branch slots value) (i ∷ key) =
        encode_node (branch slots value) ∷ collect_slot slots i key
    collect_proof (extension key_nibbles child) key =
        encode_node (extension key_nibbles child)
        ∷ collect_proof child (drop (length key_nibbles) key)

    pub collect_slot : Slots → ℕ → Bytes → List Bytes
    collect_slot no_slots i key = []
    collect_slot (nil_slot rest) zero key = []
    collect_slot (slot t rest) zero key = collect_proof t key
    collect_slot (nil_slot rest) (suc i) key = collect_slot rest i key
    collect_slot (slot t rest) (suc i) key = collect_slot rest i key

  unfoldable pub generate_proof : Option Trie → (key : Bytes) → List Bytes
  unfolding collect_proof
  generate_proof none key = []
  generate_proof (some t) key = collect_proof t (key_to_nibbles key)
