-- ===== src/Witness/Monitor.antt =====
-- A trie of two values, and the proof of one of them.
use account_mapping.Prelude.{
  ℕ, zero, suc, ◌≤◌, ◌≡◌, refl, ◌∙◌, sym, ap, inl, inr, Option, some, List, [], ◌∷◌, Bytes, length,
  replicate, get_or, arith, true, false,
}
use account_mapping.Result.{ok}
use account_mapping.Mpt.Agree.{AreApart, verify_proof-agree}
use account_mapping.Mpt.Verify.{verify_proof, max_proof_nodes}
use account_mapping.Monitor.Trie.{
  Trie, leaf, branch, Slots, no_slots, nil_slot, slot, key_to_nibbles, generate_proof, trie_root,
  encode_node,
}
use account_mapping.Monitor.Accept.{IsTrie, AreSlots, lookup}
use account_mapping.Monitor.Accept.Walk.{NoCollision}
use account_mapping.Monitor.Accept.Proofs.{proof_accepted}
use account_mapping.Monitor.Accept.Whole.{built_proof_accepted}
use account_mapping.Monitor.Build.{Entry, build_node, build_trie}
use account_mapping.Witness.World.{toy_hash}

abbrev nil_slots : ℕ → Slots
nil_slots zero = no_slots
nil_slots (suc n) = nil_slot (nil_slots n)

abbrev two_values : Trie
two_values =
    branch
      (nil_slot (
        slot (leaf (2 ∷ []) (replicate 32 7))
          (slot (leaf (3 ∷ []) (replicate 40 8)) (nil_slots 13))))
      []

toy_hash-length : (x : Bytes) → length (toy_hash x) ≡ 32
toy_hash-length [] = refl
toy_hash-length (b ∷ s) = refl

nil_slots-AreSlots : (n : ℕ) → AreSlots n (nil_slots n)
unfolding AreSlots
nil_slots-AreSlots zero = refl
nil_slots-AreSlots (suc n) = (n, refl, nil_slots-AreSlots n)

two_values-IsTrie : IsTrie two_values
unfolding IsTrie
two_values-IsTrie = (
  (
    15,
    refl,
    (
      14,
      refl,
      ((omega arith, tt), omega arith, omega arith, omega arith),
      (13, refl, ((omega arith, tt), omega arith, omega arith, omega arith), nil_slots-AreSlots 13),
    ),
  ),
  tt,
  omega arith,
)

two_values-lookup : lookup two_values (key_to_nibbles (0x12 ∷ [])) ≡ some (replicate 32 7)
unfolding lookup key_to_nibbles account_mapping.Prelude.eqb
two_values-lookup = refl

abbrev proof_of_two : List Bytes
proof_of_two = generate_proof toy_hash (some two_values) (0x12 ∷ [])

proof-few : length proof_of_two ≤ max_proof_nodes
unfolding generate_proof key_to_nibbles
proof-few = omega arith

branch-first : get_or (toy_hash (encode_node toy_hash two_values)) 0 0 ≡ 0xf8
unfolding account_mapping.Monitor.Trie.pack account_mapping.Rlp.Encode.encode_bytes
    account_mapping.Rlp.Encode.encode_list encode_node
branch-first = refl

leaf-first : get_or (toy_hash (encode_node toy_hash (leaf (2 ∷ []) (replicate 32 7)))) 0 0 ≡ 0xe2
unfolding account_mapping.Monitor.Trie.pack account_mapping.Rlp.Encode.encode_bytes
    account_mapping.Rlp.Encode.encode_list encode_node
leaf-first = refl

proof-NoCollision : NoCollision toy_hash proof_of_two
unfolding generate_proof key_to_nibbles
proof-NoCollision n m (inl a) (inl b) e = a ∙ sym b
proof-NoCollision n m (inl a) (inr (inl b)) e =
    let first : get_or (toy_hash n) 0 0 ≡ get_or (toy_hash m) 0 0 =
      ap (λ (s : Bytes). get_or s 0 0) e in
    let other = rw (a, b) at first in absurd (omega (arith, branch-first, leaf-first))
proof-NoCollision n m (inl a) (inr (inr b)) e = absurd (omega arith)
proof-NoCollision n m (inr (inl a)) (inl b) e =
    let first : get_or (toy_hash n) 0 0 ≡ get_or (toy_hash m) 0 0 =
      ap (λ (s : Bytes). get_or s 0 0) e in
    let other = rw (a, b) at first in absurd (omega (arith, branch-first, leaf-first))
proof-NoCollision n m (inr (inl a)) (inr (inl b)) e = a ∙ sym b
proof-NoCollision n m (inr (inl a)) (inr (inr b)) e = absurd (omega arith)
proof-NoCollision n m (inr (inr a)) b e = absurd (omega arith)

proof_accepted_example :
    verify_proof toy_hash (trie_root toy_hash (some two_values)) (0x12 ∷ []) proof_of_two
    ≡ ok (replicate 32 7)
proof_accepted_example =
    proof_accepted toy_hash two_values (0x12 ∷ []) {w = replicate 32 7} toy_hash-length
      two_values-IsTrie two_values-lookup proof-NoCollision proof-few

abbrev two_entries : List Entry
two_entries = (0x12 ∷ [], replicate 32 7) ∷ (0x23 ∷ [], replicate 40 8) ∷ []

two_entries-built : build_trie two_entries ≡ some two_values
unfolding build_trie build_node account_mapping.Monitor.Build.build_many
    account_mapping.Monitor.Build.longest account_mapping.Monitor.Build.common_prefix_len
    account_mapping.Monitor.Build.shortest account_mapping.Monitor.Build.common_from
    account_mapping.Monitor.Build.all_match account_mapping.Monitor.Build.with_nibble
    account_mapping.Monitor.Build.ended_value account_mapping.Monitor.Build.slots_from
    key_to_nibbles
two_entries-built = refl

two_entries-NoCollision :
    NoCollision toy_hash (generate_proof toy_hash (build_trie two_entries) (0x12 ∷ []))
two_entries-NoCollision = rw two_entries-built proof-NoCollision

two_entries-few :
    length (generate_proof toy_hash (build_trie two_entries) (0x12 ∷ [])) ≤ max_proof_nodes
two_entries-few = rw two_entries-built proof-few

built_proof_accepted_example :
    verify_proof toy_hash
      (trie_root toy_hash (build_trie two_entries))
      (0x12 ∷ [])
      (generate_proof toy_hash (build_trie two_entries) (0x12 ∷ []))
    ≡ ok (replicate 32 7)
unfolding account_mapping.Prelude.eqb
built_proof_accepted_example =
    built_proof_accepted toy_hash two_entries (0x12 ∷ []) (replicate 32 7) toy_hash-length
      (
        ((omega arith, tt), omega arith, omega arith, omega arith),
        (((omega arith, tt), omega arith, omega arith, omega arith), tt),
      )
      ((refl, tt), (tt, tt)) (inl refl) two_entries-NoCollision two_entries-few

abbrev first_value : Bytes
first_value = replicate 32 7

-- The nodes of the proof in the other order.
abbrev turned : List Bytes
turned =
    encode_node toy_hash (leaf (2 ∷ []) (replicate 32 7)) ∷ encode_node toy_hash two_values ∷ []

turned-ok :
    verify_proof toy_hash (trie_root toy_hash (some two_values)) (0x12 ∷ []) turned
    ≡ ok (replicate 32 7)
unfolding verify_proof encode_node trie_root account_mapping.Mpt.Node.decode_node
    account_mapping.Rlp.Decode.decode account_mapping.Rlp.Decode.decode_prefix
    account_mapping.Rlp.Decode.decode_long_list account_mapping.Rlp.Encode.encode_list
    account_mapping.Rlp.Encode.encode_bytes account_mapping.Monitor.Trie.pack
    account_mapping.Prelude.eqb account_mapping.Rlp.Decode.decode_long_length
    account_mapping.Rlp.Decode.decode_list_at account_mapping.Rlp.Decode.decode_children
    account_mapping.Rlp.Decode.decode_short_string account_mapping.Mpt.Node.decode_ref
    account_mapping.Mpt.Node.string_ref account_mapping.Monitor.Trie.child_ref
    account_mapping.Monitor.Trie.nibbles_to_compact account_mapping.Monitor.Trie.node_hash
    account_mapping.Mpt.Node.compact_to_hex account_mapping.Mpt.Node.get
    account_mapping.Mpt.Node.has_term account_mapping.Mpt.Node.keybytes_to_hex
    account_mapping.Mpt.Node.node_of_item account_mapping.Mpt.Node.short_of
    account_mapping.Mpt.Node.strip_flags account_mapping.Mpt.Verify.proof_node
    account_mapping.Mpt.Verify.walk account_mapping.Rlp.Decode.decode_item
    account_mapping.Rlp.Decode.decode_length account_mapping.Rlp.Decode.decode_length_from
    account_mapping.Rlp.Decode.decode_long_string account_mapping.Rlp.Encode.be_digits
    account_mapping.Rlp.Encode.big_endian_uint64 account_mapping.Rlp.Encode.encode_length
turned-ok = refl

turned-AreApart : AreApart toy_hash proof_of_two turned
unfolding generate_proof key_to_nibbles
turned-AreApart n m among (inl a) e = proof-NoCollision n m among (inr (inl a)) e
turned-AreApart n m among (inr (inl a)) e = proof-NoCollision n m among (inl a) e
turned-AreApart n m among (inr (inr a)) e = absurd (omega arith)

verify_proof-agree_example : first_value ≡ first_value
verify_proof-agree_example =
    verify_proof-agree toy_hash (trie_root toy_hash (some two_values)) (0x12 ∷ []) {v = first_value}
      {w = first_value} proof_of_two turned proof_accepted_example turned-ok turned-AreApart
