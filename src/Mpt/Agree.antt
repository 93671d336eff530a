-- ===== src/Mpt/Agree.antt =====
-- contract/mpt/verify.go: what a proof that `VerifyProof` accepts says of the root.
use account_mapping.Prelude.{
  ℕ, zero, suc, ◌≡◌, refl, ◌∙◌, sym, ap, ◌⊎◌, inl, inr, Bytes, List, [], ◌∷◌, arith, ◌==◌, eqb,
  eqb→eq, some, Bool-cases, Option-cases,
}
use account_mapping.Result.{ok}
use account_mapping.Host.Action.Laws.{Result-cases}
use account_mapping.Mpt.Node.{
  Node, empty, hash_node, value_node, short_node, full_node, get, decode_node, keybytes_to_hex,
}
use account_mapping.Mpt.Verify.{proof_node, walk, verify_proof}

-- A node among those of a proof.
abbrev pub IsAmong : Bytes → List Bytes → Type 0
IsAmong n [] = zero ≡ 1
IsAmong n (m ∷ ms) = (n ≡ m) ⊎ IsAmong n ms

module _ (keccak256 : Bytes → Bytes) where
  pub proof_node-found :
      (ns : List Bytes) (h m : Bytes)
      → proof_node keccak256 ns h ≡ some m
      → IsAmong m ns × (keccak256 m ≡ h)
  unfolding proof_node
  proof_node-found [] h m e = absurd (cc)
  proof_node-found (n ∷ ns) h m e = elim (Option-cases (proof_node keccak256 ns h)) [
    | inl none_there ↦ elim (Bool-cases (eqb (keccak256 n) h)) [
      | inl here ↦
          let same : m ≡ n = ground arith in
          (inl same, ap keccak256 same ∙ eqb→eq (keccak256 n) h here)
      | inr other ↦ absurd (ground arith)
    ]
    | inr (k, f) ↦
        let (there, hash) = proof_node-found ns h k f in
        let same : k ≡ m = ground arith in (inr (rw same at there), rw same at hash)
  ]

  -- A walk that ends with a value: the node of its hash is among those of the proof, and holds the value, or
  -- the hash from which the walk goes on.
  abbrev GoesOn : (fuel i : ℕ) → List Bytes → Bytes → Bytes → Node → Type 0
  GoesOn fuel i ns key v n =
      ((get n key).1 ≡ value_node v)
      ⊎ ((h : Bytes) × ((get n key).1 ≡ hash_node h)
          × (walk keccak256 fuel ns (suc i) h (get n key).0 ≡ ok v))

  walk-ok :
      (fuel i : ℕ) (ns : List Bytes) (want key v : Bytes)
      → walk keccak256 (suc fuel) ns i want key ≡ ok v
      → (buf : Bytes) × (n : Node) × (proof_node keccak256 ns want ≡ some buf)
        × (decode_node buf ≡ ok n)
        × GoesOn fuel i ns key v n
  unfolding walk
  walk-ok fuel i ns want key v h = elim (Option-cases (proof_node keccak256 ns want)) [
    | inl none_there ↦
        absurd (elim (Bool-cases (i == 0)) [ inl e ↦ ground arith | inr e ↦ ground arith ])
    | inr (buf, there) ↦ elim (Result-cases (decode_node buf)) [
      | inr (e, bad) ↦ absurd (ground arith)
      | inl (n, decoded) ↦ (buf, n, there, decoded, next-ok buf n there decoded (get n key).1 refl)
    ]
  ]
    where
      next-ok :
          (buf : Bytes) (n : Node)
          → proof_node keccak256 ns want ≡ some buf
          → decode_node buf ≡ ok n
          → (x : Node) → (get n key).1 ≡ x
          → GoesOn fuel i ns key v n
      next-ok buf n there decoded empty e = absurd (ground arith)
      next-ok buf n there decoded (hash_node m) e = inr (m, e, ground arith)
      next-ok buf n there decoded (value_node u) e =
          let same : u ≡ v = ground arith in inl (e ∙ ap (λ (w : Bytes). value_node w) same)
      next-ok buf n there decoded (short_node k m) e = absurd (ground arith)
      next-ok buf n there decoded (full_node cs) e = absurd (ground arith)

  -- No node of the one proof has the hash of another node of the other.
  abbrev pub AreApart : List Bytes → List Bytes → Type 0
  AreApart ns ms = (n m : Bytes) → IsAmong n ns → IsAmong m ms → keccak256 n ≡ keccak256 m → n ≡ m

  stuck :
      (i : ℕ) (ns : List Bytes) (want key v : Bytes)
      → walk keccak256 0 ns i want key ≡ ok v
      → zero ≡ 1
  unfolding walk
  stuck i ns want key v h = absurd (cc h)

  walk-agree :
      (f g i j : ℕ) (ns ms : List Bytes) (want key v w : Bytes)
      → AreApart ns ms
      → walk keccak256 f ns i want key ≡ ok v
      → walk keccak256 g ms j want key ≡ ok w
      → v ≡ w
  walk-agree zero g i j ns ms want key v w apart a b =
      absurd (omega (arith, stuck i ns want key v a))
  walk-agree (suc f) zero i j ns ms want key v w apart a b =
      absurd (omega (arith, stuck j ms want key w b))
  walk-agree (suc f) (suc g) i j ns ms want key v w apart a b =
      let (n_buf, n, n_there, n_decoded, n_next) = walk-ok f i ns want key v a in
      let (m_buf, m, m_there, m_decoded, m_next) = walk-ok g j ms want key w b in
      let (n_among, n_hash) = proof_node-found ns want n_buf n_there in
      let (m_among, m_hash) = proof_node-found ms want m_buf m_there in
      let one_buf : n_buf ≡ m_buf = apart n_buf m_buf n_among m_among (n_hash ∙ sym m_hash) in
      let one : n ≡ m = cc (one_buf, n_decoded, m_decoded) in
      elim n_next [
        | inl value ↦ elim m_next [
          | inl other ↦ cc (one, value, other)
          | inr (h, more, rest) ↦ absurd (cc (one, value, more))
        ]
        | inr (h, more, rest) ↦ elim m_next [
          | inl other ↦ absurd (cc (one, more, other))
          | inr (k, more_m, rest_m) ↦
              let one_hash : h ≡ k = cc (one, more, more_m) in
              let rest_n : walk keccak256 g ms (suc j) h (get n key).0 ≡ ok w =
                rw (one, one_hash) rest_m in
              walk-agree f g (suc i) (suc j) ns ms h (get n key).0 v w apart rest rest_n
        ]
      ]

  verify_proof-ok :
      (root key v : Bytes) (ns : List Bytes)
      → verify_proof keccak256 root key ns ≡ ok v
      → walk keccak256 22 ns 0 root (keybytes_to_hex key) ≡ ok v
  unfolding verify_proof
  verify_proof-ok root key v ns h = ground (arith, h)

  -- Two proofs of one key that are accepted against one root give one value, whoever made them and whatever they
  -- are: unless they show two different nodes with one hash.
  pub verify_proof-agree :
      (root key : Bytes) {v w : Bytes} (ns ms : List Bytes)
      → verify_proof keccak256 root key ns ≡ ok v
      → verify_proof keccak256 root key ms ≡ ok w
      → AreApart ns ms
      → v ≡ w
  verify_proof-agree root key {v} {w} ns ms a b apart =
      walk-agree 22 22 0 0 ns ms root (keybytes_to_hex key) v w apart
        (verify_proof-ok root key v ns a) (verify_proof-ok root key w ms b)
