-- ===== src/Codec/Decimal.antt =====
-- Decimal numbers: strconv.FormatUint and ParseUint, and big.Int's String and SetString to base 10.
pub mod RoundTrip
use account_mapping.Prelude.{
  ℕ, zero, suc, ◌+◌, ◌-◌, ◌*◌, ◌/◌, ◌%◌, ◌^◌, Bool, true, false, ◌&&◌, Option, none, some, List, [],
  ◌∷◌, ◌++◌, Bytes, bytes, ltb, leb, ◌==◌, if◌then◌else◌, ℤ, pos, negsuc,
}

-- The digits of `n` in front of `acc`; a number has at most `n + 1` of them.
unfoldable pub digits_from : ℕ → ℕ → Bytes → Bytes
digits_from zero n acc = acc
digits_from (suc fuel) n acc =
    let rest = digits_from fuel (n / 10) ((b'0' + n % 10) ∷ acc) in
    if ltb n 10 then (b'0' + n) ∷ acc else rest

-- `strconv.FormatUint(n, 10)`
unfoldable pub format_uint : ℕ → Bytes
unfolding digits_from
format_uint n = digits_from (suc n) n []

unfoldable pub parse_digits : ℕ → Bytes → Option ℕ
parse_digits acc [] = some acc
parse_digits acc (c ∷ s) =
    let rest = parse_digits (acc * 10 + (c - b'0')) s in
    if leb b'0' c && leb c b'9' then rest else none

-- An empty text is no number.
unfoldable pub parse_nat : Bytes → Option ℕ
unfolding parse_digits
parse_nat [] = none
parse_nat (c ∷ s) = parse_digits 0 (c ∷ s)

-- `v, _ := strconv.ParseUint(s, 10, 64)`: 0 on a syntax error, the largest value on a range error.
unfoldable pub parse_uint64 : Bytes → ℕ
unfolding parse_nat
parse_uint64 s = elim (parse_nat s) [ none ↦ 0 | some n ↦ if ltb n (2 ^ 64) then n else 2 ^ 64 - 1 ]

abbrev pub negate : ℕ → ℤ
negate zero = pos 0
negate (suc n) = negsuc n

abbrev pub with_sign : Bool → Option ℕ → Option ℤ
with_sign minus none = none
with_sign true (some n) = some (negate n)
with_sign false (some n) = some (pos n)

-- `new(big.Int).SetString(s, 10)`: an optional sign, then digits.
unfoldable pub set_string : Bytes → Option ℤ
unfolding parse_nat
set_string [] = none
set_string (c ∷ s) =
    if c == b'-'
    then with_sign true (parse_nat s)
    else if c == b'+'
    then with_sign false (parse_nat s)
    else with_sign false (parse_nat (c ∷ s))

-- `v.String()`
unfoldable pub big_int_string : ℤ → Bytes
unfolding format_uint
big_int_string (pos n) = format_uint n
big_int_string (negsuc n) = b'-' ∷ format_uint (suc n)

-- `parseAmount` of contract/mapping/balance.go: garbage reads as zero.
unfoldable pub parse_amount : Bytes → ℤ
unfolding set_string
parse_amount s = elim (set_string s) [ none ↦ pos 0 | some v ↦ v ]
