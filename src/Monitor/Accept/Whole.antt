-- ===== src/Monitor/Accept/Whole.antt =====
-- monitor/trie.go, `BuildTrie`, `GenerateProof`, and the contract's `verifyProof`: from the values of a block to the
-- proof of one of them.
use account_mapping.Prelude.{
  suc, ◌+◌, ◌/◌, ◌%◌, ◌<◌, ◌≤◌, ◌≡◌, refl, ap, inl, inr, true, Bytes, List, [], ◌∷◌, length, map,
  eqb, arith, Bool-cases,
}
use account_mapping.Result.{ok}
use account_mapping.Rlp.Decode.{max_item_size}
use account_mapping.Mpt.Verify.{verify_proof, max_proof_nodes}
use account_mapping.Monitor.Trie.{key_to_nibbles, generate_proof, trie_root}
use account_mapping.Monitor.Build.{Entry, longest, nibble_entry, build_trie}
use account_mapping.Monitor.Compact.{AreNibbles}
use account_mapping.Monitor.Accept.Walk.{NoCollision}
use account_mapping.Monitor.Accept.Proofs.{proof_accepted}
use account_mapping.Monitor.Accept.Entries.{IsEntry, AreGood, IsFresh, AreDistinct}
use account_mapping.Monitor.Accept.Branch.{IsBuilt}
use account_mapping.Monitor.Accept.Built.{node-IsBuilt}

-- A key of bytes, 32 at most, and a value of 32 bytes to 64 KiB.
abbrev pub AreBytes : Bytes → Type 0
AreBytes [] = Unit
AreBytes (b ∷ bs) = (b < 256) × AreBytes bs

abbrev pub AreProvable : List Entry → Type 0
AreProvable [] = Unit
AreProvable ((k, v) ∷ es) =
    (AreBytes k × (length k ≤ 32) × (32 ≤ length v) × (length v ≤ max_item_size)) × AreProvable es

nibbles-AreNibbles : (k : Bytes) → AreBytes k → AreNibbles (key_to_nibbles k)
unfolding key_to_nibbles
nibbles-AreNibbles [] h = tt
nibbles-AreNibbles (b ∷ k) (low, h) = (omega arith, (omega arith, nibbles-AreNibbles k h))

nibbles-length : (k : Bytes) → length (key_to_nibbles k) ≡ length k + length k
unfolding key_to_nibbles
nibbles-length [] = refl
nibbles-length (b ∷ k) = let n = nibbles-length k in omega arith

nibbles-AreGood : (es : List Entry) → AreProvable es → AreGood [] (map nibble_entry es)
nibbles-AreGood [] h = tt
nibbles-AreGood ((k, v) ∷ es) ((bytes, short, big, fits), h) =
    let n = nibbles-length k in
    (
      record {
        rest = key_to_nibbles k;
        behind = refl;
        nibbles = nibbles-AreNibbles k bytes;
        short = omega arith;
        big = big;
        fits = fits;
      },
      nibbles-AreGood es h,
    )

-- Different keys have different nibbles.
nibbles-eqb : (k l : Bytes) → eqb (key_to_nibbles k) (key_to_nibbles l) ≡ true → eqb k l ≡ true
unfolding key_to_nibbles eqb
nibbles-eqb [] [] h = refl
nibbles-eqb [] (c ∷ l) h = h
nibbles-eqb (b ∷ k) [] h = h
nibbles-eqb (b ∷ k) (c ∷ l) h =
    let rest = nibbles-eqb k l (ground arith) in
    let high : b / 16 ≡ c / 16 = ground arith in
    let low : b % 16 ≡ c % 16 = ground arith in let same : b ≡ c = omega arith in ground arith

nibbles-IsFresh :
    (k : Bytes) (es : List Entry) → IsFresh k es → IsFresh (key_to_nibbles k) (map nibble_entry es)
nibbles-IsFresh k [] h = tt
nibbles-IsFresh k ((l, w) ∷ es) (other, h) = (
  elim (Bool-cases (eqb (key_to_nibbles k) (key_to_nibbles l))) [
    | inl same ↦ let e = nibbles-eqb k l same in absurd (cc (e, other))
    | inr differ ↦ differ
  ],
  nibbles-IsFresh k es h,
)

nibbles-distinct : (es : List Entry) → AreDistinct es → AreDistinct (map nibble_entry es)
nibbles-distinct [] h = tt
nibbles-distinct ((k, v) ∷ es) (fresh, h) = (nibbles-IsFresh k es fresh, nibbles-distinct es h)

nibbles-at :
    (k v : Bytes) (es : List Entry)
    → IsEntry (k, v) es
    → IsEntry (key_to_nibbles k, v) (map nibble_entry es)
nibbles-at k v [] at = absurd (omega arith)
nibbles-at k v (e ∷ es) (inl same) = inl (ap (λ (x : Entry). nibble_entry x) same)
nibbles-at k v (e ∷ es) (inr at) = inr (nibbles-at k v es at)

nibbles-some :
    (k v : Bytes) (es : List Entry) → IsEntry (k, v) es → 1 ≤ length (map nibble_entry es)
nibbles-some k v [] at = absurd (omega arith)
nibbles-some k v (e ∷ es) at = omega arith

trie-IsBuilt :
    (es : List Entry)
    → AreProvable es
    → AreDistinct es
    → 1 ≤ length (map nibble_entry es)
    → IsBuilt (map nibble_entry es) [] (build_trie es)
unfolding build_trie
trie-IsBuilt es provable distinct some_key =
    node-IsBuilt (suc (longest (map nibble_entry es))) [] (map nibble_entry es)
      (nibbles-AreGood es provable) (nibbles-distinct es distinct) some_key (omega arith)

-- The contract accepts the proof of each value that the monitor puts in a trie, against the root of that trie, and
-- gets this value: when the keys are bytes, 32 at most, and all different, the values have 32 bytes to 64 KiB, the
-- hash has 32 bytes, no two nodes of the proof have one hash, and the proof has the 20 nodes at most that the
-- contract takes.
pub built_proof_accepted :
    (keccak256 : Bytes → Bytes) (es : List Entry) (key w : Bytes)
    → ((x : Bytes) → length (keccak256 x) ≡ 32)
    → AreProvable es
    → AreDistinct es
    → IsEntry (key, w) es
    → NoCollision keccak256 (generate_proof keccak256 (build_trie es) key)
    → length (generate_proof keccak256 (build_trie es) key) ≤ max_proof_nodes
    → verify_proof keccak256
        (trie_root keccak256 (build_trie es))
        key
        (generate_proof keccak256 (build_trie es) key)
      ≡ ok w
built_proof_accepted keccak256 es key w width provable distinct at apart few =
    let b = trie-IsBuilt es provable distinct (nibbles-some key w es at) in
    let found = b.finds (key_to_nibbles key) w (nibbles-at key w es at) in
    let apart_t = rw b.made at apart in
    let few_t = rw b.made at few in
    rw b.made (proof_accepted keccak256 b.tree key {w = w} width b.is_trie found apart_t few_t)
