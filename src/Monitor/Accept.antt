-- ===== src/Monitor/Accept.antt =====
-- The contract accepts the monitor's proofs: nodes, and the tries they form.
pub mod Sizes
pub mod Encoded
pub mod Decoded
pub mod Walk
pub mod Follow
pub mod Proofs
pub mod Entries
pub mod Shared
pub mod Branch
pub mod Built
pub mod Whole
use account_mapping.Prelude.{
  ℕ, zero, suc, ◌+◌, ◌<◌, ◌≤◌, ◌≡◌, Bytes, List, [], ◌∷◌, ◌++◌, length, Option, none, some, drop,
  eqb, take, ltb, if◌then◌else◌, ◌⊎◌, Bool, true, false,
}
use account_mapping.Rlp.Item.{Item, Items, data_item, list_item, nil, cons}
use account_mapping.Rlp.Decode.{max_item_size}
use account_mapping.Mpt.Node.{
  Node, Nodes, no_nodes, node, empty, hash_node, value_node, short_node, full_node, value_slot,
}
use account_mapping.Monitor.Trie.{
  Trie, leaf, branch, extension, Slots, no_slots, nil_slot, slot, nibbles_to_compact, encode_node,
}
use account_mapping.Monitor.Compact.{AreNibbles}

-- The tries of transactions and receipts: keys of nibbles, values of 32 bytes to 64 KiB (or none in a
-- branch), branches with sixteen slots of which one is taken.
unfoldable mutual
  pub IsTrie : Trie → Type 0
  IsTrie (leaf ks v) =
      AreNibbles ks × (length ks ≤ 64) × (32 ≤ length v) × (length v ≤ max_item_size)
  IsTrie (branch slots v) = AreSlots 16 slots × TakesSlot slots × (length v ≤ max_item_size)
  IsTrie (extension ks t) = AreNibbles ks × (length ks ≤ 64) × IsTrie t

  pub AreSlots : ℕ → Slots → Type 0
  AreSlots n no_slots = n ≡ 0
  AreSlots n (nil_slot rest) = (n' : ℕ) × (n ≡ suc n') × AreSlots n' rest
  AreSlots n (slot t rest) = (n' : ℕ) × (n ≡ suc n') × IsTrie t × AreSlots n' rest

  pub TakesSlot : Slots → Type 0
  TakesSlot no_slots = zero ≡ 1
  TakesSlot (nil_slot rest) = TakesSlot rest
  TakesSlot (slot t rest) = Unit

-- What a key leads to.
unfoldable mutual
  pub lookup : Trie → Bytes → Option Bytes
  lookup (leaf ks v) key = if eqb ks key then some v else none
  lookup (branch slots v) [] = if ltb 0 (length v) then some v else none
  lookup (branch slots v) (i ∷ key) = lookup_slot slots i key
  lookup (extension ks t) key =
      let inner = lookup t (drop (length ks) key) in
      if ltb (length key) (length ks)
      then none
      else if eqb ks (take (length ks) key)
      then inner
      else none

  pub lookup_slot : Slots → ℕ → Bytes → Option Bytes
  lookup_slot no_slots i key = none
  lookup_slot (nil_slot rest) zero key = none
  lookup_slot (slot t rest) zero key = lookup t key
  lookup_slot (nil_slot rest) (suc i) key = lookup_slot rest i key
  lookup_slot (slot t rest) (suc i) key = lookup_slot rest i key

module _ (keccak256 : Bytes → Bytes) where
  -- The item that a node is encoded from, and the node that it is decoded to.
  unfoldable pub slot_items : Slots → Bytes → Items
  slot_items no_slots v = cons (data_item v) nil
  slot_items (nil_slot rest) v = cons (data_item []) (slot_items rest v)
  slot_items (slot t rest) v =
      cons (data_item (keccak256 (encode_node keccak256 t))) (slot_items rest v)

  unfoldable pub item_of : Trie → Item
  item_of (leaf ks v) =
      list_item (cons (data_item (nibbles_to_compact ks true)) (cons (data_item v) nil))
  item_of (branch slots v) = list_item (slot_items slots v)
  item_of (extension ks t) = list_item (
      cons (data_item (nibbles_to_compact ks false))
        (cons (data_item (keccak256 (encode_node keccak256 t))) nil))

  unfoldable pub slot_nodes : Slots → Bytes → Nodes
  slot_nodes no_slots v = node (value_slot v) no_nodes
  slot_nodes (nil_slot rest) v = node empty (slot_nodes rest v)
  slot_nodes (slot t rest) v =
      node (hash_node (keccak256 (encode_node keccak256 t))) (slot_nodes rest v)

  unfoldable pub node_of : Trie → Node
  node_of (leaf ks v) = short_node (ks ++ 16 ∷ []) (value_node v)
  node_of (branch slots v) = full_node (slot_nodes slots v)
  node_of (extension ks t) = short_node ks (hash_node (keccak256 (encode_node keccak256 t)))
