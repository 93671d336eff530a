-- ===== src/Monitor/Accept/Follow.antt =====
-- Inside a node of the monitor (monitor/trie.go), the contract's `get` (contract/mpt/verify.go) goes
-- where the key leads.
use account_mapping.Prelude.{
  ℕ, zero, suc, ◌<◌, ◌≡◌, refl, ◌∙◌, sym, ap, Bytes, [], ◌∷◌, ◌++◌, length, length-append, arith,
  append-nil, ltb, eqb, eqb_refl, eqb→eq, take, drop, some, inl, inr, Bool-cases,
  take-append_length, drop-append_length,
}
use account_mapping.Mpt.Node.{Node, hash_node, value_node, short_node, get, get_child}
use account_mapping.Monitor.Trie.{
  Trie, leaf, extension, Slots, no_slots, nil_slot, slot, encode_node, collect_proof, collect_slot,
}
use account_mapping.Monitor.Accept.{IsTrie, AreSlots, lookup, lookup_slot, slot_nodes}

pub get-short : (k rest : Bytes) (n : Node) → get (short_node k n) (k ++ rest) ≡ get n rest
unfolding get
get-short k rest n = ground (
  arith,
  take-append_length (length k) k rest refl,
  ap (λ (s : Bytes). get n s) (drop-append_length (length k) k rest refl),
  eqb_refl k,
  length-append k rest,
)

take-drop : (n : ℕ) (xs : Bytes) → take n xs ++ drop n xs ≡ xs
take-drop zero xs = refl
take-drop (suc n) [] = refl
take-drop (suc n) (x ∷ xs) = ap (λ t. x ∷ t) (take-drop n xs)

pub get-leaf :
    (ks v key w : Bytes)
    → lookup (leaf ks v) key ≡ some w
    → get (short_node (ks ++ 16 ∷ []) (value_node v)) (key ++ 16 ∷ []) ≡ ([], value_node w)
unfolding lookup get
get-leaf ks v key w h = elim (Bool-cases (eqb ks key)) [
  | inl same ↦
      let k : ks ≡ key = eqb→eq ks key same in
      let e : v ≡ w = ground arith in
      let whole = get-short (key ++ 16 ∷ []) [] (value_node w) in
      let bare = append-nil (key ++ 16 ∷ []) in rw (k, e) (rw bare at whole)
  | inr other ↦ absurd (ground arith)
]

pub get-extension :
    (ks key w : Bytes) (t : Trie)
    → lookup (extension ks t) key ≡ some w
    → (key ≡ ks ++ drop (length ks) key) × (lookup t (drop (length ks) key) ≡ some w)
unfolding lookup
get-extension ks key w t h = elim (Bool-cases (ltb (length key) (length ks))) [
  | inl short ↦ absurd (ground arith)
  | inr long ↦ elim (Bool-cases (eqb ks (take (length ks) key))) [
    | inl same ↦
        let k : ks ≡ take (length ks) key = eqb→eq ks (take (length ks) key) same in
        let parts = sym (take-drop (length ks) key) in
        (parts ∙ ap (λ (p : Bytes). p ++ drop (length ks) key) (sym k), ground arith)
    | inr other ↦ absurd (ground arith)
  ]
]

module _ (keccak256 : Bytes → Bytes) where
  -- A key that ends at a branch leads to its value.
  pub get-ended :
      (slots : Slots) (n : ℕ) (v : Bytes)
      → AreSlots n slots
      → 0 < length v
      → get_child (slot_nodes keccak256 slots v) n [] ≡ ([], value_node v)
  unfolding get_child slot_nodes AreSlots
  get-ended no_slots n [] each some_byte = absurd (omega arith)
  get-ended no_slots n (b ∷ v) each some_byte = rw each refl
  get-ended (nil_slot rest) n v (n', e, each) some_byte = rw e (get-ended rest n' v each some_byte)
  get-ended (slot t rest) n v (n', e, sub, each) some_byte =
      rw e (get-ended rest n' v each some_byte)

  -- Where a slot leads: a child, its hash, and the rest of the proof.
  pub record Leads (slots : Slots) (v : Bytes) (i : ℕ) (key w : Bytes) : Type 0 where
    pub child : Trie
    pub is_trie : IsTrie child
    pub found : lookup child key ≡ some w
    pub held :
        get_child (slot_nodes keccak256 slots v) i (key ++ 16 ∷ [])
        ≡ (key ++ 16 ∷ [], hash_node (keccak256 (encode_node keccak256 child)))
    pub proof : collect_slot keccak256 slots i key ≡ collect_proof keccak256 child key

  pub slot-Leads :
      (slots : Slots) (n i : ℕ) (key v w : Bytes)
      → AreSlots n slots
      → lookup_slot slots i key ≡ some w
      → Leads slots v i key w
  unfolding get_child slot_nodes AreSlots lookup_slot collect_slot
  slot-Leads no_slots n i key v w each h = absurd (cc)
  slot-Leads (nil_slot rest) n zero key v w each h = absurd (cc)
  slot-Leads (slot t rest) n zero key v w (n', e, sub, each) h = record {
    child = t;
    is_trie = sub;
    found = h;
    held = refl;
    proof = refl;
  }
  slot-Leads (nil_slot rest) n (suc i) key v w (n', e, each) h =
      let l = slot-Leads rest n' i key v w each h in
      record {
        child = l.child;
        is_trie = l.is_trie;
        found = l.found;
        held = l.held;
        proof = l.proof;
      }
  slot-Leads (slot t rest) n (suc i) key v w (n', e, sub, each) h =
      let l = slot-Leads rest n' i key v w each h in
      record {
        child = l.child;
        is_trie = l.is_trie;
        found = l.found;
        held = l.held;
        proof = l.proof;
      }
