-- ===== src/Monitor/Accept/Proofs.antt =====
-- The contract (contract/mpt/verify.go) accepts the proofs of the monitor (monitor/trie.go).
use account_mapping.Prelude.{
  ℕ, zero, suc, ◌≤◌, ◌≡◌, refl, ◌∙◌, sym, ap, inl, inr, Bytes, List, [], ◌∷◌, ◌++◌, length, arith,
  append_assoc, ltb, drop, some, Bool-cases, subst,
}
use account_mapping.Result.{ok}
use account_mapping.Mpt.Node.{hash_node, value_node, short_node, get, keybytes_to_hex}
use account_mapping.Mpt.Agree.{IsAmong}
use account_mapping.Mpt.Verify.{walk, verify_proof, max_proof_nodes, proof_node}
use account_mapping.Monitor.Trie.{
  Trie, leaf, branch, extension, encode_node, collect_proof, generate_proof, trie_root, node_hash,
  key_to_nibbles,
}
use account_mapping.Monitor.Compact.{keybytes-key_to_nibbles}
use account_mapping.Monitor.Accept.{IsTrie, lookup, node_of}
use account_mapping.Monitor.Accept.Sizes.{node-big}
use account_mapping.Monitor.Accept.Decoded.{decode_node-encode_node}
use account_mapping.Monitor.Accept.Walk.{NoCollision, proof_node-hash, walk-value, walk-hash}
use account_mapping.Monitor.Accept.Follow.{
  get-short, get-leaf, get-extension, get-ended, slot-Leads,
}

-- All nodes of one list are among another.
abbrev pub AllAmong : List Bytes → List Bytes → Type 0
AllAmong ns all = (n : Bytes) → IsAmong n ns → IsAmong n all

module _ (keccak256 : Bytes → Bytes) (width : (x : Bytes) → length (keccak256 x) ≡ 32)
    (ns : List Bytes) (apart : NoCollision keccak256 ns) where
  at_node :
      (t : Trie) (key : Bytes)
      → AllAmong (collect_proof keccak256 t key) ns
      → proof_node keccak256 ns (keccak256 (encode_node keccak256 t))
        ≡ some (encode_node keccak256 t)
  unfolding collect_proof
  at_node (leaf ks v) key all =
      let n = encode_node keccak256 (leaf ks v) in
      proof_node-hash keccak256 ns n apart (all n (inl refl))
  at_node (branch slots v) [] all =
      let n = encode_node keccak256 (branch slots v) in
      proof_node-hash keccak256 ns n apart (all n (inl refl))
  at_node (branch slots v) (i ∷ key) all =
      let n = encode_node keccak256 (branch slots v) in
      proof_node-hash keccak256 ns n apart (all n (inl refl))
  at_node (extension ks t) key all =
      let n = encode_node keccak256 (extension ks t) in
      proof_node-hash keccak256 ns n apart (all n (inl refl))

  accepts :
      (fuel i : ℕ) (t : Trie) (key w : Bytes)
      → IsTrie t
      → lookup t key ≡ some w
      → AllAmong (collect_proof keccak256 t key) ns
      → length (collect_proof keccak256 t key) ≤ fuel
      → walk keccak256 fuel ns i (keccak256 (encode_node keccak256 t)) (key ++ 16 ∷ []) ≡ ok w
  unfolding collect_proof node_of IsTrie lookup get
  accepts zero i (leaf ks v) key w wf found all few = absurd (omega arith)
  accepts zero i (branch slots v) [] w wf found all few = absurd (omega arith)
  accepts zero i (branch slots v) (n ∷ key) w wf found all few = absurd (omega arith)
  accepts zero i (extension ks t) key w wf found all few = absurd (omega arith)
  accepts (suc fuel) i (leaf ks v) key w wf found all few =
      let t = leaf ks v in
      walk-value keccak256 fuel i ns (keccak256 (encode_node keccak256 t)) (key ++ 16 ∷ [])
        (encode_node keccak256 t) [] (node_of keccak256 t) w (at_node t key all)
        (decode_node-encode_node keccak256 width t wf) (get-leaf ks v key w found)
  accepts (suc fuel) i (branch slots v) [] w wf found all few =
      let t = branch slots v in
      let (each, _, _) = wf in
      elim (Bool-cases (ltb 0 (length v))) [
        | inl some_byte ↦
            let same : v ≡ w = ground arith in
            walk-value keccak256 fuel i ns (keccak256 (encode_node keccak256 t)) (16 ∷ [])
              (encode_node keccak256 t) [] (node_of keccak256 t) w (at_node t [] all)
              (decode_node-encode_node keccak256 width t wf)
              (get-ended keccak256 slots 16 v each (ground arith)
                ∙ ap (λ b. ([], value_node b)) same)
        | inr none_there ↦ absurd (ground arith)
      ]
  accepts (suc fuel) i (branch slots v) (n ∷ key) w wf found all few =
      let t = branch slots v in
      let l = slot-Leads keccak256 slots 16 n key v w wf.0 found in
      let n_few = ap (λ (ms : List Bytes). length ms) l.proof in
      walk-hash keccak256 fuel i ns (keccak256 (encode_node keccak256 t)) (n ∷ (key ++ 16 ∷ []))
        (encode_node keccak256 t) (key ++ 16 ∷ []) (node_of keccak256 t)
        (keccak256 (encode_node keccak256 l.child)) (at_node t (n ∷ key) all)
        (decode_node-encode_node keccak256 width t wf) l.held
      ∙ accepts fuel (suc i) l.child key w l.is_trie l.found
          (λ m a. all m (inr (subst (λ (ms : List Bytes). IsAmong m ms) (sym l.proof) a)))
          (omega arith)
  accepts (suc fuel) i (extension ks t) key w wf found all few =
      let whole = extension ks t in
      let rest = drop (length ks) key in
      let h = keccak256 (encode_node keccak256 t) in
      let (parts, inner) = get-extension ks key w t found in
      let here : get (short_node ks (hash_node h)) (key ++ 16 ∷ [])
          ≡ (rest ++ 16 ∷ [], hash_node h) =
        ap (λ (k : Bytes). get (short_node ks (hash_node h)) k)
          (ap (λ (k : Bytes). k ++ 16 ∷ []) parts ∙ append_assoc ks rest (16 ∷ []))
        ∙ get-short ks (rest ++ 16 ∷ []) (hash_node h) in
      walk-hash keccak256 fuel i ns (keccak256 (encode_node keccak256 whole)) (key ++ 16 ∷ [])
        (encode_node keccak256 whole) (rest ++ 16 ∷ []) (node_of keccak256 whole) h
        (at_node whole key all) (decode_node-encode_node keccak256 width whole wf) here
      ∙ accepts fuel (suc i) t rest w wf.2 inner (λ m a. all m (inr a)) (omega arith)

big-hash :
    (keccak256 : Bytes → Bytes) (t : Trie)
    → 32 ≤ length (encode_node keccak256 t)
    → node_hash keccak256 t ≡ keccak256 (encode_node keccak256 t)
unfolding node_hash
big-hash keccak256 (leaf ks v) big = ground arith
big-hash keccak256 (branch slots v) big = refl
big-hash keccak256 (extension ks t) big = refl

verify-walk :
    (keccak256 : Bytes → Bytes) (root key w : Bytes) (ns : List Bytes)
    → 1 ≤ length ns
    → length ns ≤ max_proof_nodes
    → walk keccak256 22 ns 0 root (keybytes_to_hex key) ≡ ok w
    → verify_proof keccak256 root key ns ≡ ok w
unfolding verify_proof
verify-walk keccak256 root key w ns some_node few e = ground (arith, e)

proof-some :
    (keccak256 : Bytes → Bytes) (t : Trie) (key : Bytes)
    → 1 ≤ length (collect_proof keccak256 t key)
unfolding collect_proof
proof-some keccak256 (leaf ks v) key = omega arith
proof-some keccak256 (branch slots v) [] = omega arith
proof-some keccak256 (branch slots v) (i ∷ key) = omega arith
proof-some keccak256 (extension ks t) key = omega arith

-- The contract accepts the monitor's proof of a key, against the monitor's root, and gets the value that
-- the trie has under it: for a trie whose keys are nibbles, whose values have 32 bytes to 64 KiB, and
-- whose branches have sixteen slots, one of them taken; when the hash has 32 bytes, no two nodes of the
-- proof have one hash, and the proof has the 20 nodes at most that the contract takes.
pub proof_accepted :
    (keccak256 : Bytes → Bytes) (t : Trie) (key : Bytes) {w : Bytes}
    → ((x : Bytes) → length (keccak256 x) ≡ 32)
    → IsTrie t
    → lookup t (key_to_nibbles key) ≡ some w
    → NoCollision keccak256 (generate_proof keccak256 (some t) key)
    → length (generate_proof keccak256 (some t) key) ≤ max_proof_nodes
    → verify_proof keccak256
        (trie_root keccak256 (some t))
        key
        (generate_proof keccak256 (some t) key)
      ≡ ok w
unfolding generate_proof trie_root
proof_accepted keccak256 t key {w} width wf found apart few =
    let nibbles = key_to_nibbles key in
    let ns = collect_proof keccak256 t nibbles in
    let root = big-hash keccak256 t (node-big keccak256 width t wf) in
    let followed =
      accepts keccak256 width ns apart 22 0 t nibbles w wf found (λ n a. a) (omega arith) in
    rw root (
      verify-walk keccak256 (keccak256 (encode_node keccak256 t)) key w ns
        (proof-some keccak256 t nibbles) few (rw (keybytes-key_to_nibbles key) followed))
