-- ===== src/Monitor/Accept/Entries.antt =====
-- The entries that a trie is built from (monitor/trie.go, `buildNode`), and what its loops make of them.
use account_mapping.Prelude.{
  ℕ, zero, suc, ◌<◌, ◌≤◌, ◌≡◌, refl, ◌∙◌, sym, ap, subst, ◌⊎◌, inl, inr, true, false, ◌&&◌, Bytes,
  List, [], ◌∷◌, ◌++◌, length, length-append, append_assoc, take, drop, get_or, eqb, ltb, ◌==◌,
  arith, Bool-cases, get_or-drop, drop-append_length,
}
use account_mapping.Rlp.Decode.{max_item_size}
use account_mapping.Monitor.Build.{Entry, longest, with_nibble}
use account_mapping.Monitor.Compact.{AreNibbles}

abbrev pub IsEntry : Entry → List Entry → Type 0
IsEntry e [] = zero ≡ 1
IsEntry e (f ∷ es) = (e ≡ f) ⊎ IsEntry e es

-- A key of nibbles behind a prefix, and a value that can be proved.
pub record IsGood (p k v : Bytes) : Type 0 where
  pub rest : Bytes
  pub behind : k ≡ p ++ rest
  pub nibbles : AreNibbles k
  pub short : length k ≤ 64
  pub big : 32 ≤ length v
  pub fits : length v ≤ max_item_size

abbrev pub AreGood : Bytes → List Entry → Type 0
AreGood p [] = Unit
AreGood p ((k, v) ∷ es) = IsGood p k v × AreGood p es

-- No key of the list is this one; all keys are different.
abbrev pub IsFresh : Bytes → List Entry → Type 0
IsFresh k [] = Unit
IsFresh k ((l, v) ∷ es) = (eqb k l ≡ false) × IsFresh k es

abbrev pub AreDistinct : List Entry → Type 0
AreDistinct [] = Unit
AreDistinct ((k, v) ∷ es) = IsFresh k es × AreDistinct es

pub IsGood-at : (p k v : Bytes) (es : List Entry) → AreGood p es → IsEntry (k, v) es → IsGood p k v
IsGood-at p k v [] good at = absurd (omega arith)
IsGood-at p k v ((l, w) ∷ es) (one, rest) (inl e) =
    subst (λ (x : Entry). IsGood p x.0 x.1) (sym e) one
IsGood-at p k v ((l, w) ∷ es) (one, rest) (inr at) = IsGood-at p k v es rest at

pub longest-at : (k v : Bytes) (es : List Entry) → IsEntry (k, v) es → length k ≤ longest es
unfolding longest
longest-at k v [] at = absurd (omega arith)
longest-at k v ((l, w) ∷ es) (inl e) =
    let same : length k ≡ length l = ap (λ (x : Entry). length x.0) e in omega arith
longest-at k v ((l, w) ∷ es) (inr at) = let below = longest-at k v es at in omega arith

-- A key behind a prefix.
pub good-drop : (p k v : Bytes) (g : IsGood p k v) → drop (length p) k ≡ g.rest
good-drop p k v g =
    ap (λ (s : Bytes). drop (length p) s) g.behind ∙ drop-append_length (length p) p g.rest refl

pub AreNibbles-drop : (n : ℕ) (ks : Bytes) → AreNibbles ks → AreNibbles (drop n ks)
AreNibbles-drop zero ks h = h
AreNibbles-drop (suc n) [] h = tt
AreNibbles-drop (suc n) (k ∷ ks) (_, h) = AreNibbles-drop n ks h

pub AreNibbles-take : (n : ℕ) (ks : Bytes) → AreNibbles ks → AreNibbles (take n ks)
AreNibbles-take zero ks h = tt
AreNibbles-take (suc n) [] h = tt
AreNibbles-take (suc n) (k ∷ ks) (low, h) = (low, AreNibbles-take n ks h)

-- The entries that go on with a nibble.
pub IsGood-longer :
    (p k v : Bytes) (n : ℕ)
    → IsGood p k v
    → length p < length k
    → get_or k (length p) 0 ≡ n
    → IsGood (p ++ n ∷ []) k v
IsGood-longer p k v n g longer e = longer_rest g.rest refl
  where
    longer_rest : (rest : Bytes) → g.rest ≡ rest → IsGood (p ++ n ∷ []) k v
    longer_rest [] none_left =
        let whole =
          ap (λ (s : Bytes). length s) (g.behind ∙ ap (λ (s : Bytes). p ++ s) none_left) in
        absurd (omega (arith, length-append p []))
    longer_rest (m ∷ rest) f =
        let here : get_or k (length p) 0 ≡ m =
          get_or-drop (length p) 0 (length p) k (omega arith)
          ∙ ap (λ (s : Bytes). get_or s 0 0) (good-drop p k v g ∙ f) in
        let same : m ≡ n = sym here ∙ e in
        record {
          rest = rest;
          behind =
              g.behind
              ∙ (ap (λ (s : Bytes). p ++ s) f
                  ∙ (ap (λ (j : ℕ). p ++ j ∷ rest) same ∙ sym (append_assoc p (n ∷ []) rest)));
          nibbles = g.nibbles;
          short = g.short;
          big = g.big;
          fits = g.fits;
        }

pub with_nibble-good :
    (p : Bytes) (n : ℕ) (es : List Entry)
    → AreGood p es
    → AreGood (p ++ n ∷ []) (with_nibble (length p) n es)
unfolding with_nibble
with_nibble-good p n [] good = tt
with_nibble-good p n ((k, v) ∷ es) (one, good) =
    elim (Bool-cases (ltb (length p) (length k) && get_or k (length p) 0 == n)) [
      | inl goes_on ↦
          rw goes_on
            (IsGood-longer p k v n one (ground arith) (ground arith), with_nibble-good p n es good)
      | inr other ↦ rw other (with_nibble-good p n es good)
    ]

with_nibble-IsFresh :
    (d n : ℕ) (k : Bytes) (es : List Entry) → IsFresh k es → IsFresh k (with_nibble d n es)
unfolding with_nibble
with_nibble-IsFresh d n k [] h = tt
with_nibble-IsFresh d n k ((l, v) ∷ es) (one, h) =
    elim (Bool-cases (ltb d (length l) && get_or l d 0 == n)) [
      | inl goes_on ↦ rw goes_on (one, with_nibble-IsFresh d n k es h)
      | inr other ↦ rw other (with_nibble-IsFresh d n k es h)
    ]

pub with_nibble-distinct :
    (d n : ℕ) (es : List Entry) → AreDistinct es → AreDistinct (with_nibble d n es)
unfolding with_nibble
with_nibble-distinct d n [] h = tt
with_nibble-distinct d n ((l, v) ∷ es) (one, h) =
    elim (Bool-cases (ltb d (length l) && get_or l d 0 == n)) [
      | inl goes_on ↦ rw goes_on (with_nibble-IsFresh d n l es one, with_nibble-distinct d n es h)
      | inr other ↦ rw other (with_nibble-distinct d n es h)
    ]

pub with_nibble-longest : (d n : ℕ) (es : List Entry) → longest (with_nibble d n es) ≤ longest es
unfolding with_nibble longest
with_nibble-longest d n [] = omega arith
with_nibble-longest d n ((l, v) ∷ es) =
    let rest = with_nibble-longest d n es in
    elim (Bool-cases (ltb d (length l) && get_or l d 0 == n)) [
      | inl goes_on ↦ rw goes_on (omega arith)
      | inr other ↦ rw other (omega arith)
    ]

pub with_nibble-at :
    (d n : ℕ) (k v : Bytes) (es : List Entry)
    → d < length k
    → get_or k d 0 ≡ n
    → IsEntry (k, v) es
    → IsEntry (k, v) (with_nibble d n es)
unfolding with_nibble
with_nibble-at d n k v [] longer e at = absurd (omega arith)
with_nibble-at d n k v ((l, w) ∷ es) longer e (inl same) =
    let k_l : k ≡ l = ap (λ (x : Entry). x.0) same in
    let mine : (ltb d (length k) && get_or k d 0 == n) ≡ true = ground arith in
    let goes_on : (ltb d (length l) && get_or l d 0 == n) ≡ true = rw k_l at mine in
    rw goes_on (inl same)
with_nibble-at d n k v ((l, w) ∷ es) longer e (inr at) =
    let rest = with_nibble-at d n k v es longer e at in
    elim (Bool-cases (ltb d (length l) && get_or l d 0 == n)) [
      | inl goes_on ↦ rw goes_on (inr rest)
      | inr other ↦ rw other rest
    ]
