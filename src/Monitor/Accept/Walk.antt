-- ===== src/Monitor/Accept/Walk.antt =====
-- The contract (contract/mpt/verify.go) follows a proof of the monitor (monitor/trie.go) to the value.
use account_mapping.Prelude.{
  ℕ, suc, ◌≡◌, ◌∙◌, ap, inl, inr, Bytes, List, [], ◌∷◌, arith, true, eqb, eqb_refl, some,
  Option-cases,
}
use account_mapping.Result.{ok}
use account_mapping.Mpt.Node.{Node, hash_node, value_node, get, decode_node}
use account_mapping.Mpt.Agree.{IsAmong, proof_node-found}
use account_mapping.Mpt.Verify.{proof_node, walk}

module _ (keccak256 : Bytes → Bytes) where
  -- No two different nodes of the proof have one hash.
  abbrev pub NoCollision : List Bytes → Type 0
  NoCollision ns = (n m : Bytes) → IsAmong n ns → IsAmong m ns → keccak256 n ≡ keccak256 m → n ≡ m

  proof_node-some :
      (ns : List Bytes) (n : Bytes)
      → IsAmong n ns
      → (m : Bytes) × (proof_node keccak256 ns (keccak256 n) ≡ some m)
  unfolding proof_node
  proof_node-some [] n among = absurd (omega arith)
  proof_node-some (m ∷ ns) n among = elim (Option-cases (proof_node keccak256 ns (keccak256 n))) [
    | inr (k, f) ↦ (k, ground arith)
    | inl none_there ↦ elim among [
      | inl same ↦
          let here : eqb (keccak256 m) (keccak256 n) ≡ true = rw same (eqb_refl (keccak256 m)) in
          (m, ground arith)
      | inr later ↦ let (k, f) = proof_node-some ns n later in absurd (cc)
    ]
  ]

  -- The node behind its hash.
  pub proof_node-hash :
      (ns : List Bytes) (n : Bytes)
      → NoCollision ns
      → IsAmong n ns
      → proof_node keccak256 ns (keccak256 n) ≡ some n
  proof_node-hash ns n apart among =
      let (m, e) = proof_node-some ns n among in
      let (there, hash) = proof_node-found keccak256 ns (keccak256 n) m e in
      e ∙ ap (λ x. some x) (apart m n there among hash)

  -- One round of the walk.
  pub walk-value :
      (fuel i : ℕ) (ns : List Bytes) (want key buf rest : Bytes) (n : Node) (v : Bytes)
      → proof_node keccak256 ns want ≡ some buf
      → decode_node buf ≡ ok n
      → get n key ≡ (rest, value_node v)
      → walk keccak256 (suc fuel) ns i want key ≡ ok v
  unfolding walk
  walk-value fuel i ns want key buf rest n v e f g = ground (arith, e, f, g)

  pub walk-hash :
      (fuel i : ℕ) (ns : List Bytes) (want key buf rest : Bytes) (n : Node) (h : Bytes)
      → proof_node keccak256 ns want ≡ some buf
      → decode_node buf ≡ ok n
      → get n key ≡ (rest, hash_node h)
      → walk keccak256 (suc fuel) ns i want key ≡ walk keccak256 fuel ns (suc i) h rest
  unfolding walk
  walk-hash fuel i ns want key buf rest n h e f g = ground (arith, e, f, g)
