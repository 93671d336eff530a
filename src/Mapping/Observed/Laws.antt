-- ===== src/Mapping/Observed/Laws.antt =====
-- The list of processed deposits holds what was put on it (contract/mapping/observed.go).
use account_mapping.Prelude.{
  ℕ, zero, suc, ◌+◌, ◌*◌, ◌≤◌, ◌<◌, ◌≡◌, refl, ◌∙◌, sym, ap, true, Option, none, some, [], ◌∷◌,
  ◌++◌, append-nil, Bytes, eqb_refl, length, length-append, take, drop, take-append_self, arith,
  ==_iff, ◌==◌, eqb, inl, inr, Bool-cases, Option-cases, subst,
}
use account_mapping.Host.State.{State}
use account_mapping.Mapping.Observed.{
  make_entry, has_entry, is_observed, append_entry, mark_observed,
}

drop-append_le : (n : ℕ) (xs ys : Bytes) → n ≤ length xs → drop n (xs ++ ys) ≡ drop n xs ++ ys
drop-append_le zero xs ys h = refl
drop-append_le (suc n) [] ys h = absurd (omega arith)
drop-append_le (suc n) (x ∷ xs) ys h = drop-append_le n xs ys (omega arith)

length-drop_le : (n : ℕ) (xs : Bytes) → n ≤ length xs → length (drop n xs) + n ≡ length xs
length-drop_le zero xs h = omega arith
length-drop_le (suc n) [] h = absurd (omega arith)
length-drop_le (suc n) (x ∷ xs) h = omega (arith, length-drop_le n xs (omega arith))

take-all : (n : ℕ) (xs : Bytes) → length xs ≡ n → take n xs ≡ xs
take-all n xs h = rw (← h) (ap (take (length xs)) (sym (append-nil xs)) ∙ take-append_self xs [])

-- A whole number of entries.
abbrev pub IsAligned : Bytes → Type 0
IsAligned entries = (k : ℕ) × (length entries ≡ k * 34)

-- An entry at the end of whole entries is found.
has_entry-append :
    (k n : ℕ) (entries entry : Bytes)
    → length entries ≡ k * 34
    → length entry ≡ 34
    → k < n
    → has_entry n (entries ++ entry) entry ≡ true
unfolding has_entry
has_entry-append k zero entries entry h e lt = absurd (omega arith)
has_entry-append zero (suc n) [] entry h e lt = ground (arith, take-all 34 entry e, eqb_refl entry)
has_entry-append zero (suc n) (x ∷ xs) entry h e lt = absurd (omega arith)
has_entry-append (suc k) (suc n) entries entry h e lt = ground (
  arith,
  length-append entries entry,
  drop-append_le 34 entries entry (omega arith),
  has_entry-append k n (drop 34 entries) entry
      (omega (arith, length-drop_le 34 entries (omega arith))) e (omega arith),
)

-- After the append the entry is found.
found-append :
    (o : Option Bytes) (entry : Bytes)
    → length entry ≡ 34
    → ((entries : Bytes) → o ≡ some entries → IsAligned entries)
    → has_entry (length (append_entry o entry)) (append_entry o entry) entry ≡ true
unfolding append_entry
found-append none entry e aligned = has_entry-append 0 (length entry) [] entry refl e (omega arith)
found-append (some entries) entry e aligned =
    let (k, h) = aligned entries refl in
    has_entry-append k (length (entries ++ entry)) entries entry h e
      (omega (arith, length-append entries entry))

-- A deposit that was marked is observed.
pub is_observed-mark_observed :
    (height : ℕ) (tx_hash : Bytes) (index : ℕ) (st : State)
    → length tx_hash ≡ 32
    → ((entries : Bytes) → st.observed height ≡ some entries → IsAligned entries)
    → is_observed (mark_observed height tx_hash index st) height tx_hash index ≡ true
unfolding is_observed mark_observed make_entry
is_observed-mark_observed height tx_hash index st e aligned =
    let entry = make_entry tx_hash index in
    rw (is_observed, (==_iff height height).1 refl)
      (found-append (st.observed height) entry (length-append tx_hash _ ∙ rw e) aligned)

take-append_le : (n : ℕ) (xs ys : Bytes) → n ≤ length xs → take n (xs ++ ys) ≡ take n xs
take-append_le zero xs ys h = refl
take-append_le (suc n) [] ys h = absurd (omega arith)
take-append_le (suc n) (x ∷ xs) ys h = ap (λ t. x ∷ t) (take-append_le n xs ys (omega arith))

-- An entry that is found among whole entries is found when others follow, in as many rounds or more.
has_entry-prefix :
    (k n m : ℕ) (entries others entry : Bytes)
    → length entries ≡ k * 34
    → n ≤ m
    → has_entry n entries entry ≡ true
    → has_entry m (entries ++ others) entry ≡ true
unfolding has_entry
has_entry-prefix k zero m entries others entry h le found = absurd (cc found)
has_entry-prefix k (suc n) zero entries others entry h le found = absurd (omega arith)
has_entry-prefix zero (suc n) (suc m) entries others entry h le found = absurd (ground arith)
has_entry-prefix (suc k) (suc n) (suc m) entries others entry h le found =
    elim (Bool-cases (eqb (take 34 entries) entry)) [
      | inl here ↦
          ground
            (arith, length-append entries others, take-append_le 34 entries others (omega arith))
      | inr other ↦
          let rest =
            has_entry-prefix k n m (drop 34 entries) others entry
              (omega (arith, length-drop_le 34 entries (omega arith))) (omega arith)
              (ground arith) in
          ground (
            arith,
            rest,
            length-append entries others,
            take-append_le 34 entries others (omega arith),
            drop-append_le 34 entries others (omega arith),
          )
    ]

-- The lists of processed deposits are whole.
abbrev pub AllAligned : State → Type 0
AllAligned st = (h : ℕ) (entries : Bytes) → st.observed h ≡ some entries → IsAligned entries

kept-append :
    (o : Option Bytes) (entries added entry : Bytes)
    → o ≡ some entries
    → IsAligned entries
    → has_entry (length entries) entries entry ≡ true
    → has_entry (length (append_entry o added)) (append_entry o added) entry ≡ true
unfolding append_entry
kept-append none entries added entry e aligned found = absurd (cc e)
kept-append (some known) entries added entry e (k, h) found =
    let same : known ≡ entries = ground (arith, e) in
    rw same (
      has_entry-prefix k (length entries) (length (entries ++ added)) entries added entry h
        (omega (arith, length-append entries added)) found)

-- What was observed stays so when another deposit is marked, at the same height or at another one.
pub is_observed-kept :
    (height height' : ℕ) (tx_hash tx_hash' : Bytes) (index index' : ℕ) (st : State)
    → AllAligned st
    → is_observed st height tx_hash index ≡ true
    → is_observed (mark_observed height' tx_hash' index' st) height tx_hash index ≡ true
unfolding is_observed mark_observed
is_observed-kept height height' tx_hash tx_hash' index index' st aligned seen =
    elim (Option-cases (st.observed height)) [
      | inl none_there ↦ absurd (ground arith)
      | inr (entries, e) ↦ elim (Bool-cases (height' == height)) [
        | inr differ ↦ ground arith
        | inl same ↦
            let one : height' ≡ height = (==_iff height' height).0 same in
            let kept =
              kept-append (st.observed height) entries (make_entry tx_hash' index')
                (make_entry tx_hash index) e (aligned height entries e) (ground arith) in
            rw (one, is_observed, (==_iff height height).1 refl) kept
      ]
    ]

append-IsAligned :
    (o : Option Bytes) (entry : Bytes)
    → length entry ≡ 34
    → ((entries : Bytes) → o ≡ some entries → IsAligned entries)
    → IsAligned (append_entry o entry)
unfolding append_entry
append-IsAligned none entry e aligned = (1, omega arith)
append-IsAligned (some entries) entry e aligned =
    let (k, h) = aligned entries refl in (suc k, omega (arith, length-append entries entry))

-- A marked deposit of a hash of 32 bytes leaves the lists whole.
pub mark_observed-AllAligned :
    (height : ℕ) (tx_hash : Bytes) (index : ℕ) (st : State)
    → length tx_hash ≡ 32
    → AllAligned st
    → AllAligned (mark_observed height tx_hash index st)
unfolding mark_observed make_entry
mark_observed-AllAligned height tx_hash index st e aligned h entries f =
    elim (Bool-cases (h == height)) [
      | inr differ ↦ aligned h entries (ground arith)
      | inl same ↦
          let whole =
            append-IsAligned (st.observed height) (make_entry tx_hash index)
              (length-append tx_hash _ ∙ rw e) (aligned height) in
          let is_it : append_entry (st.observed height) (make_entry tx_hash index) ≡ entries =
            ground arith in
          subst (λ (s : Bytes). IsAligned s) is_it whole
    ]
