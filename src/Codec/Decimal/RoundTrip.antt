-- ===== src/Codec/Decimal/RoundTrip.antt =====
-- A decimal text reads back as the number that it was written from.
use account_mapping.Prelude.{
  ℕ, zero, suc, ◌+◌, ◌*◌, ◌/◌, ◌%◌, ◌<◌, ◌≤◌, ◌≡◌, ◌∙◌, inl, inr, some, [], ◌∷◌, Bytes, ltb,
  Bool-cases, arith, ℤ, pos, negsuc,
}
use account_mapping.Codec.Decimal.{
  digits_from, format_uint, parse_digits, parse_nat, set_string, big_int_string, parse_amount,
}

parse_digits-digit :
    (acc d : ℕ) (s : Bytes)
    → d < 10
    → parse_digits acc ((b'0' + d) ∷ s) ≡ parse_digits (acc * 10 + d) s
unfolding parse_digits
parse_digits-digit acc d s h = ground arith

-- The digits of `n` read as `n`, whatever follows them.
parse_digits-digits_from :
    (fuel n : ℕ) (s : Bytes) → n < fuel → parse_digits 0 (digits_from fuel n s) ≡ parse_digits n s
unfolding digits_from
parse_digits-digits_from zero n s h = absurd (omega arith)
parse_digits-digits_from (suc fuel) n s h = elim (Bool-cases (ltb n 10)) [
  | inl small ↦ rw small (parse_digits-digit 0 n s (ground arith) ∙ rw (zero_times n))
  | inr large ↦ rw large (
      parse_digits-digits_from fuel (n / 10) ((b'0' + n % 10) ∷ s) (ground arith)
      ∙ (parse_digits-digit (n / 10) (n % 10) s (omega arith) ∙ rw (whole n)))
]
  where
    zero_times : (n : ℕ) → 0 * 10 + n ≡ n
    zero_times n = omega arith

    whole : (n : ℕ) → n / 10 * 10 + n % 10 ≡ n
    whole n = omega arith

-- The first character of a number is a digit, so no sign.
digits_from-head :
    (fuel n : ℕ) (s : Bytes)
    → n < fuel
    → (c : ℕ) × (r : Bytes) × (digits_from fuel n s ≡ c ∷ r) × (b'0' ≤ c) × (c ≤ b'9')
unfolding digits_from
digits_from-head zero n s h = absurd (omega arith)
digits_from-head (suc fuel) n s h = elim (Bool-cases (ltb n 10)) [
  | inl small ↦ (b'0' + n, s, rw small, omega arith, ground arith)
  | inr large ↦ rw large (digits_from-head fuel (n / 10) ((b'0' + n % 10) ∷ s) (ground arith))
]

pub parse_nat-format_uint : (n : ℕ) → parse_nat (format_uint n) ≡ some n
unfolding parse_nat format_uint parse_digits
parse_nat-format_uint n =
    let (c, r, e, lo, hi) = digits_from-head (suc n) n [] (omega arith) in
    let read : parse_digits 0 (digits_from (suc n) n []) ≡ some n =
      parse_digits-digits_from (suc n) n [] (omega arith) in
    rw e (rw e at read)

pub set_string-format_uint : (n : ℕ) → set_string (format_uint n) ≡ some (pos n)
unfolding set_string format_uint
set_string-format_uint n =
    let (c, r, e, lo, hi) = digits_from-head (suc n) n [] (omega arith) in
    let read : parse_nat (digits_from (suc n) n []) ≡ some n = parse_nat-format_uint n in
    let read' : parse_nat (c ∷ r) ≡ some n = rw e at read in rw e (ground (arith, read'))

-- `v.String()` reads back by `SetString` as `v`, for every integer.
pub set_string-big_int_string : (v : ℤ) → set_string (big_int_string v) ≡ some v
unfolding big_int_string
set_string-big_int_string (pos n) = set_string-format_uint n
set_string-big_int_string (negsuc n) = unfold set_string in rw (parse_nat-format_uint (suc n))

-- A stored amount reads back as itself: `parseAmount` of `v.String()` is `v`, for every integer.
pub parse_amount-big_int_string : (v : ℤ) → parse_amount (big_int_string v) ≡ v
unfolding parse_amount
parse_amount-big_int_string v = rw (set_string-big_int_string v, parse_amount)
