-- ===== src/Monitor/Accept/Shared.antt =====
-- What `commonPrefixLen` finds, and the values of the keys that end (monitor/trie.go).
use account_mapping.Prelude.{
  ℕ, zero, suc, ◌+◌, ◌-◌, ◌<◌, ◌≤◌, ◌≡◌, refl, ◌∙◌, sym, ap, subst, inl, inr, true, Bytes, List, [],
  ◌∷◌, ◌++◌, length, length-append, append_assoc, append-nil, take, drop, get_or, eqb, eqb_refl,
  ltb, ◌==◌, arith, Bool-cases,
}
use account_mapping.Rlp.Decode.{max_item_size}
use account_mapping.Monitor.Build.{
  Entry, shortest, all_match, common_from, common_prefix_len, ended_value,
}
use account_mapping.Monitor.Accept.Entries.{
  IsEntry, IsGood, AreGood, IsFresh, AreDistinct, IsGood-longer, good-drop,
}

-- All keys are at least so long.
abbrev pub AreLong : ℕ → List Entry → Type 0
AreLong m [] = Unit
AreLong m ((k, v) ∷ es) = (m ≤ length k) × AreLong m es

AreLong-mono : (m n : ℕ) (es : List Entry) → n ≤ m → AreLong m es → AreLong n es
AreLong-mono m n [] le h = tt
AreLong-mono m n ((k, v) ∷ es) le (one, h) = (omega arith, AreLong-mono m n es le h)

shortest-AreLong : (n : ℕ) (es : List Entry) → (shortest n es ≤ n) × AreLong (shortest n es) es
unfolding shortest
shortest-AreLong n [] = (omega arith, tt)
shortest-AreLong n ((k, v) ∷ es) = elim (Bool-cases (ltb (length k) n)) [
  | inl less ↦
      let (low, long) = shortest-AreLong (length k) es in
      let e : shortest n ((k, v) ∷ es) ≡ shortest (length k) es = ground arith in
      (
        ground arith,
        (
          omega arith,
          AreLong-mono (shortest (length k) es) (shortest n ((k, v) ∷ es)) es (omega arith) long,
        ),
      )
  | inr more ↦
      let (low, long) = shortest-AreLong n es in
      let e : shortest n ((k, v) ∷ es) ≡ shortest n es = ground arith in
      (
        omega arith,
        (
          ground arith,
          AreLong-mono (shortest n es) (shortest n ((k, v) ∷ es)) es (omega arith) long,
        ),
      )
]

match-good :
    (p : Bytes) (n m : ℕ) (es : List Entry)
    → AreGood p es
    → AreLong m es
    → length p < m
    → all_match (length p) n es ≡ true
    → AreGood (p ++ n ∷ []) es
unfolding all_match
match-good p n m [] good long lt h = tt
match-good p n m ((k, v) ∷ es) (one, good) (here, long) lt h = (
  IsGood-longer p k v n one (omega arith) (ground arith),
  match-good p n m es good long lt (ground arith),
)

take-step :
    (n c : ℕ) (xs : Bytes)
    → n < length xs
    → take (suc c) (drop n xs) ≡ get_or xs n 0 ∷ take c (drop (suc n) xs)
take-step n c [] h = absurd (omega arith)
take-step zero c (x ∷ xs) h = refl
take-step (suc n) c (x ∷ xs) h = take-step n c xs (omega arith)

take-length_le : (c : ℕ) (xs : Bytes) → c ≤ length xs → length (take c xs) ≡ c
take-length_le zero xs h = refl
take-length_le (suc c) [] h = absurd (omega arith)
take-length_le (suc c) (x ∷ xs) h = ap suc (take-length_le c xs (omega arith))

-- What the keys share behind a prefix.
common_from-good :
    (rounds : ℕ) (p first : Bytes) (es : List Entry)
    → AreGood p es
    → AreLong (length p + rounds) es
    → length p + rounds ≤ length first
    → AreGood (p ++ take (common_from rounds (length p) first es) (drop (length p) first)) es
      × (common_from rounds (length p) first es ≤ rounds)
unfolding common_from
common_from-good zero p first es good long enough =
    (subst (λ (q : Bytes). AreGood q es) (sym (append-nil p)) good, omega arith)
common_from-good (suc rounds) p first es good long enough =
    elim (Bool-cases (all_match (length p) (get_or first (length p) 0) es)) [
      | inr differ ↦
          rw differ (subst (λ (q : Bytes). AreGood q es) (sym (append-nil p)) good, omega arith)
      | inl same ↦
          let n = get_or first (length p) 0 in
          let longer = p ++ n ∷ [] in
          let len : length longer ≡ suc (length p) = omega (arith, length-append p (n ∷ [])) in
          let more = match-good p n (length p + suc rounds) es good long (omega arith) same in
          let (rest, few) =
            common_from-good rounds longer first es more
              (AreLong-mono (length p + suc rounds) (length longer + rounds) es (omega arith) long)
              (omega arith) in
          let c = common_from rounds (suc (length p)) first es in
          let there : AreGood (longer ++ take c (drop (suc (length p)) first)) es =
            rw len at rest in
          let few' : c ≤ rounds = rw len at few in
          let whole : longer ++ take c (drop (suc (length p)) first)
              ≡ p ++ take (suc c) (drop (length p) first) =
            append_assoc p (n ∷ []) (take c (drop (suc (length p)) first))
            ∙ ap (λ (q : Bytes). p ++ q) (sym (take-step (length p) c first (omega arith))) in
          rw same (subst (λ (q : Bytes). AreGood q es) whole there, omega arith)
    ]

-- The keys that end at a prefix.
nil_of_length : (xs : Bytes) → length xs ≡ 0 → xs ≡ []
nil_of_length [] e = refl
nil_of_length (x ∷ xs) e = absurd (omega arith)

pub ended-key : (p k v : Bytes) → IsGood p k v → length k ≡ length p → k ≡ p
ended-key p k v g e =
    let whole = ap (λ (s : Bytes). length s) g.behind in
    let none_left = nil_of_length g.rest (omega (arith, length-append p g.rest)) in
    g.behind ∙ (ap (λ (s : Bytes). p ++ s) none_left ∙ append-nil p)

no_ended :
    (p found : Bytes) (es : List Entry)
    → AreGood p es
    → IsFresh p es
    → ended_value (length p) found es ≡ found
unfolding ended_value
no_ended p found [] good fresh = refl
no_ended p found ((l, w) ∷ es) (one, good) (other, fresh) =
    elim (Bool-cases (length l == length p)) [
      | inr differ ↦ rw differ (no_ended p found es good fresh)
      | inl same ↦
          let here = ended-key p l w one (ground arith) in
          let is_p : eqb p l ≡ true = rw here (eqb_refl p) in absurd (cc (other, is_p))
    ]

pub ended-at :
    (p v found : Bytes) (es : List Entry)
    → AreGood p es
    → AreDistinct es
    → IsEntry (p, v) es
    → ended_value (length p) found es ≡ v
unfolding ended_value
ended-at p v found [] good distinct at = absurd (omega arith)
ended-at p v found ((l, w) ∷ es) (one, good) (fresh, distinct) (inl e) =
    let key : p ≡ l = ap (λ (x : Entry). x.0) e in
    let value : v ≡ w = ap (λ (x : Entry). x.1) e in
    let ends : (length l == length p) ≡ true =
      let n = ap (λ (s : Bytes). length s) key in ground arith in
    let fresh_p : IsFresh p es = subst (λ (k : Bytes). IsFresh k es) (sym key) fresh in
    rw ends (no_ended p w es good fresh_p ∙ sym value)
ended-at p v found ((l, w) ∷ es) (one, good) (fresh, distinct) (inr at) =
    elim (Bool-cases (length l == length p)) [
      | inl ends ↦ rw ends (ended-at p v w es good distinct at)
      | inr goes_on ↦ rw goes_on (ended-at p v found es good distinct at)
    ]

pub ended-fits :
    (d : ℕ) (p found : Bytes) (es : List Entry)
    → AreGood p es
    → length found ≤ max_item_size
    → length (ended_value d found es) ≤ max_item_size
unfolding ended_value
ended-fits d p found [] good h = h
ended-fits d p found ((l, w) ∷ es) (one, good) h = elim (Bool-cases (length l == d)) [
  | inl ends ↦ rw ends (ended-fits d p w es good one.fits)
  | inr goes_on ↦ rw goes_on (ended-fits d p found es good h)
]

take-drop : (n : ℕ) (xs : Bytes) → take n xs ++ drop n xs ≡ xs
take-drop zero xs = refl
take-drop (suc n) [] = refl
take-drop (suc n) (x ∷ xs) = ap (λ t. x ∷ t) (take-drop n xs)

rest-length : (p k v : Bytes) (g : IsGood p k v) → length k ≡ length p + length g.rest
rest-length p k v g = ap (λ (s : Bytes). length s) g.behind ∙ length-append p g.rest

good-AreLong : (p : Bytes) (es : List Entry) → AreGood p es → AreLong (length p) es
good-AreLong p [] good = tt
good-AreLong p ((k, v) ∷ es) (one, good) =
    let n = rest-length p k v one in (omega arith, good-AreLong p es good)

-- A key is behind any part of its rest.
IsGood-part : (p k v : Bytes) (c : ℕ) → IsGood p k v → IsGood (p ++ take c (drop (length p) k)) k v
IsGood-part p k v c g = record {
  rest = drop c g.rest;
  behind =
      g.behind
      ∙ (ap (λ (s : Bytes). p ++ s) (sym (take-drop c g.rest))
          ∙ (sym (append_assoc p (take c g.rest) (drop c g.rest))
              ∙ ap (λ (s : Bytes). (p ++ take c s) ++ drop c g.rest) (sym (good-drop p k v g))));
  nibbles = g.nibbles;
  short = g.short;
  big = g.big;
  fits = g.fits;
}

-- The keys are good behind what they share, and it is as long as it says.
pub common_prefix_len-good :
    (p k v l w : Bytes) (es : List Entry)
    → AreGood p ((k, v) ∷ (l, w) ∷ es)
    → (let c = common_prefix_len ((k, v) ∷ (l, w) ∷ es) (length p) in
        AreGood (p ++ take c (drop (length p) k)) ((k, v) ∷ (l, w) ∷ es)
        × (length (take c (drop (length p) k)) ≡ c))
unfolding common_prefix_len
common_prefix_len-good p k v l w es (one, others) =
    let d = length p in
    let m = shortest (length k) ((l, w) ∷ es) in
    let (low, long) = shortest-AreLong (length k) ((l, w) ∷ es) in
    let n = rest-length p k v one in
    let all_long : AreLong (d + (m - d)) ((l, w) ∷ es) = elim (Bool-cases (ltb m d)) [
      | inl below ↦
          AreLong-mono d (d + (m - d)) ((l, w) ∷ es) (ground arith)
            (good-AreLong p ((l, w) ∷ es) others)
      | inr above ↦ AreLong-mono m (d + (m - d)) ((l, w) ∷ es) (ground arith) long
    ] in
    let (shared, few) = common_from-good (m - d) p k ((l, w) ∷ es) others all_long (omega arith) in
    let c = common_from (m - d) d k ((l, w) ∷ es) in
    let len : length (drop d k) ≡ length one.rest =
      ap (λ (s : Bytes). length s) (good-drop p k v one) in
    ((IsGood-part p k v c one, shared), take-length_le c (drop d k) (omega arith))
