-- ===== src/Monitor/Accept/Branch.antt =====
-- The branches of the trie that the monitor builds (monitor/trie.go, `buildNode`).
use account_mapping.Prelude.{
  ℕ, zero, suc, ◌+◌, ◌<◌, ◌≤◌, ◌≡◌, refl, ◌∙◌, ap, subst, ◌⊎◌, inl, inr, true, Bytes, List, [], ◌∷◌,
  ◌++◌, length, length-append, drop, get_or, eqb, eqb_refl, ltb, arith, Bool-cases, Option, none,
  some,
}
use account_mapping.Monitor.Trie.{Trie, branch, Slots, no_slots, nil_slot, slot}
use account_mapping.Monitor.Build.{Entry, with_nibble, ended_value, slots_from}
use account_mapping.Monitor.Compact.{AreNibbles}
use account_mapping.Monitor.Accept.{IsTrie, AreSlots, TakesSlot, lookup, lookup_slot}
use account_mapping.Monitor.Accept.Entries.{
  IsEntry, IsGood, AreGood, AreDistinct, IsGood-at, with_nibble-at,
}
use account_mapping.Monitor.Accept.Shared.{ended-key, ended-at, ended-fits}

-- A trie that has the entries behind a prefix.
pub record IsBuilt (es : List Entry) (p : Bytes) (result : Option Trie) : Type 0 where
  pub tree : Trie
  pub made : result ≡ some tree
  pub is_trie : IsTrie tree
  pub finds : (k v : Bytes) → IsEntry (k, v) es → lookup tree (drop (length p) k) ≡ some v

list-cases : (es : List Entry) → (es ≡ []) ⊎ (1 ≤ length es)
list-cases [] = inl refl
list-cases (e ∷ es) = inr (omega arith)

some-length : (e : Entry) (es : List Entry) → IsEntry e es → 1 ≤ length es
some-length e [] at = absurd (omega arith)
some-length e (f ∷ es) at = omega arith

lookup_slot-TakesSlot :
    (slots : Slots) (i : ℕ) (key w : Bytes) → lookup_slot slots i key ≡ some w → TakesSlot slots
unfolding lookup_slot TakesSlot
lookup_slot-TakesSlot no_slots i key w h = absurd (cc)
lookup_slot-TakesSlot (nil_slot rest) zero key w h = absurd (cc)
lookup_slot-TakesSlot (slot t rest) zero key w h = tt
lookup_slot-TakesSlot (nil_slot rest) (suc i) key w h = lookup_slot-TakesSlot rest i key w h
lookup_slot-TakesSlot (slot t rest) (suc i) key w h = tt

-- A slot of a branch, by what was built for it.
slots-none :
    (build : List Entry → Option Trie) (rounds n d : ℕ) (es : List Entry)
    → build (with_nibble d n es) ≡ none
    → slots_from build (suc rounds) n d es ≡ nil_slot (slots_from build rounds (suc n) d es)
unfolding slots_from
slots-none build rounds n d es e = ground (arith, e)

slots-some :
    (build : List Entry → Option Trie) (rounds n d : ℕ) (es : List Entry) (t : Trie)
    → build (with_nibble d n es) ≡ some t
    → slots_from build (suc rounds) n d es ≡ slot t (slots_from build rounds (suc n) d es)
unfolding slots_from
slots-some build rounds n d es t e = ground (arith, e)

slots-zero :
    (build : List Entry → Option Trie) (n d : ℕ) (es : List Entry)
    → slots_from build 0 n d es ≡ no_slots
unfolding slots_from
slots-zero build n d es = refl

-- The slots of a branch, whose children are built.
module _ (build : List Entry → Option Trie) (p : Bytes) (es : List Entry)
    (nothing : build [] ≡ none)
    (child : (n : ℕ)
      → 1 ≤ length (with_nibble (length p) n es)
      → IsBuilt
          (with_nibble (length p) n es)
          (p ++ n ∷ [])
          (build (with_nibble (length p) n es))) where
  nothing_there :
      (n : ℕ) → with_nibble (length p) n es ≡ [] → build (with_nibble (length p) n es) ≡ none
  nothing_there n e = ap build e ∙ nothing

  slots-AreSlots : (rounds n : ℕ) → AreSlots rounds (slots_from build rounds n (length p) es)
  unfolding AreSlots
  slots-AreSlots zero n = rw (slots-zero build n (length p) es) refl
  slots-AreSlots (suc rounds) n = elim (list-cases (with_nibble (length p) n es)) [
    | inl e ↦
        rw (slots-none build rounds n (length p) es (nothing_there n e))
          (rounds, refl, slots-AreSlots rounds (suc n))
    | inr some_key ↦
        let b = child n some_key in
        rw (slots-some build rounds n (length p) es b.tree b.made)
          (rounds, refl, b.is_trie, slots-AreSlots rounds (suc n))
  ]

  slots-lookup :
      (rounds i j n : ℕ) (k v : Bytes)
      → i < rounds
      → j + i ≡ n
      → IsEntry (k, v) (with_nibble (length p) n es)
      → lookup_slot (slots_from build rounds j (length p) es) i (drop (length (p ++ n ∷ [])) k)
        ≡ some v
  unfolding lookup_slot
  slots-lookup zero i j n k v lt e at = absurd (omega arith)
  slots-lookup (suc rounds) zero j n k v lt e at =
      let same : j ≡ n = omega arith in
      let b = child n (some-length (k, v) (with_nibble (length p) n es) at) in
      rw (same, slots-some build rounds n (length p) es b.tree b.made) (b.finds k v at)
  slots-lookup (suc rounds) (suc i) j n k v lt e at =
      let rest = slots-lookup rounds i (suc j) n k v (omega arith) (omega arith) at in
      elim (list-cases (with_nibble (length p) j es)) [
        | inl f ↦ rw (slots-none build rounds j (length p) es (nothing_there j f)) rest
        | inr some_key ↦
            let b = child j some_key in
            rw (slots-some build rounds j (length p) es b.tree b.made) rest
      ]

drop-step : (n : ℕ) (xs : Bytes) → n < length xs → drop n xs ≡ get_or xs n 0 ∷ drop (suc n) xs
drop-step n [] h = absurd (omega arith)
drop-step zero (x ∷ xs) h = refl
drop-step (suc n) (x ∷ xs) h = drop-step n xs (omega arith)

drop-all : (xs : Bytes) → drop (length xs) xs ≡ []
drop-all [] = refl
drop-all (x ∷ xs) = drop-all xs

nibble-at : (ks : Bytes) (i : ℕ) → AreNibbles ks → get_or ks i 0 < 16
nibble-at [] i h = omega arith
nibble-at (k ∷ ks) zero (low, h) = low
nibble-at (k ∷ ks) (suc i) (low, h) = nibble-at ks i h

pub good-length : (p k v : Bytes) → IsGood p k v → length p ≤ length k
good-length p k v g =
    let n = ap (λ (s : Bytes). length s) g.behind in omega (arith, length-append p g.rest)

-- A branch, whose children are built.
module _ (build : List Entry → Option Trie) (p : Bytes) (es : List Entry)
    (nothing : build [] ≡ none)
    (child : (n : ℕ)
      → 1 ≤ length (with_nibble (length p) n es)
      → IsBuilt (with_nibble (length p) n es) (p ++ n ∷ []) (build (with_nibble (length p) n es)))
    (good : AreGood p es) (distinct : AreDistinct es) where
  abbrev children : Slots
  children = slots_from build 16 0 (length p) es

  children-lookup :
      (k v : Bytes)
      → IsEntry (k, v) es
      → length p < length k
      → lookup_slot children (get_or k (length p) 0) (drop (suc (length p)) k) ≡ some v
  children-lookup k v at longer =
      let n = get_or k (length p) 0 in
      let g = IsGood-at p k v es good at in
      let sub = with_nibble-at (length p) n k v es longer refl at in
      let one_more : length (p ++ n ∷ []) ≡ suc (length p) =
        omega (arith, length-append p (n ∷ [])) in
      let found =
        slots-lookup build p es nothing child 16 n 0 n k v (nibble-at k (length p) g.nibbles)
          (omega arith) sub in
      rw one_more at found

  children-TakesSlot : (k v : Bytes) → IsEntry (k, v) es → length p < length k → TakesSlot children
  children-TakesSlot k v at longer =
      lookup_slot-TakesSlot children (get_or k (length p) 0) (drop (suc (length p)) k) v
        (children-lookup k v at longer)

  branch-lookup :
      (k v : Bytes)
      → IsEntry (k, v) es
      → lookup (branch children (ended_value (length p) [] es)) (drop (length p) k) ≡ some v
  unfolding lookup
  branch-lookup k v at =
      let g = IsGood-at p k v es good at in
      elim (Bool-cases (ltb (length p) (length k))) [
        | inl longer ↦
            rw (drop-step (length p) k (ground arith)) (children-lookup k v at (ground arith))
        | inr ends ↦
            let n = good-length p k v g in
            let same = ended-key p k v g (ground arith) in
            let here : IsEntry (p, v) es = subst (λ (q : Bytes). IsEntry (q, v) es) same at in
            let value = ended-at p v [] es good distinct here in
            let none_left : drop (length p) k ≡ [] = rw same (drop-all p) in
            let big : ltb 0 (length v) ≡ true = let b = g.big in ground arith in
            rw (none_left, value, big) refl
      ]

-- What keys that share no nibble behind the prefix make.
pub branch-IsBuilt :
    (build : List Entry → Option Trie) (p k v l w : Bytes) (es : List Entry)
    → build [] ≡ none
    → ((n : ℕ)
        → 1 ≤ length (with_nibble (length p) n ((k, v) ∷ (l, w) ∷ es))
        → IsBuilt
            (with_nibble (length p) n ((k, v) ∷ (l, w) ∷ es))
            (p ++ n ∷ [])
            (build (with_nibble (length p) n ((k, v) ∷ (l, w) ∷ es))))
    → AreGood p ((k, v) ∷ (l, w) ∷ es)
    → AreDistinct ((k, v) ∷ (l, w) ∷ es)
    → IsBuilt ((k, v) ∷ (l, w) ∷ es) p (
        some (
          branch
            (slots_from build 16 0 (length p) ((k, v) ∷ (l, w) ∷ es))
            (ended_value (length p) [] ((k, v) ∷ (l, w) ∷ es))))
unfolding IsTrie
branch-IsBuilt build p k v l w es nothing child (one, (two, good)) ((other, fresh), distinct) =
    let all = (k, v) ∷ (l, w) ∷ es in
    let slots = slots_from build 16 0 (length p) all in
    let takes =
      children-TakesSlot build p all nothing child (one, (two, good)) ((other, fresh), distinct) in
    let taken : TakesSlot slots = elim (Bool-cases (ltb (length p) (length k))) [
      | inl longer ↦ takes k v (inl refl) (ground arith)
      | inr ends ↦ elim (Bool-cases (ltb (length p) (length l))) [
        | inl longer ↦ takes l w (inr (inl refl)) (ground arith)
        | inr both ↦
            let n = good-length p k v one in
            let m = good-length p l w two in
            let k_p = ended-key p k v one (ground arith) in
            let l_p = ended-key p l w two (ground arith) in
            let same : eqb k l ≡ true = rw (k_p, l_p) (eqb_refl p) in absurd (cc (same, other))
      ]
    ] in
    record {
      tree = branch slots (ended_value (length p) [] all);
      made = refl;
      is_trie = (
        slots-AreSlots build p all nothing child 16 0,
        taken,
        ended-fits (length p) p [] all (one, (two, good)) (omega arith),
      );
      finds = branch-lookup build p all nothing child (one, (two, good)) ((other, fresh), distinct);
    }
