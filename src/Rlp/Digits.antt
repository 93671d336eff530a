-- ===== src/Rlp/Digits.antt =====
-- The big-endian digits of lengths and numbers (`bigEndianUint64`, `big.Int.Bytes`), read back.
use account_mapping.Prelude.{
  ℕ, zero, suc, ◌+◌, ◌*◌, ◌/◌, ◌%◌, ◌^◌, ◌<◌, ◌≤◌, ◌≡◌, ap, false, [], ◌∷◌, Bytes, ◌==◌, length,
  get_or, arith,
}
use account_mapping.Rlp.Item.{be_from}
use account_mapping.Rlp.Encode.{be_digits, big_endian_uint64, big_int_bytes}
use account_mapping.Rlp.Decode.{decode_length, decode_length_from}

-- The digits of a length: one to four bytes, the first not zero, which the decoder reads back.
pub record IsLength (n : ℕ) (ds : Bytes) : Type 0 where
  pub some_bytes : 1 ≤ length ds
  pub few_bytes : length ds ≤ 4
  pub minimal : (get_or ds 0 0 == 0) ≡ false
  pub reads : decode_length ds ≡ n

big_endian-1 : (n : ℕ) → 0 < n → n < 2 ^ 8 → big_endian_uint64 n ≡ n ∷ []
unfolding big_endian_uint64 be_digits
big_endian-1 n h k = ground arith

big_endian-2 :
    (n : ℕ) → 2 ^ 8 ≤ n → n < 2 ^ 16 → big_endian_uint64 n ≡ (n / 2 ^ 8) ∷ (n % 2 ^ 8) ∷ []
unfolding big_endian_uint64 be_digits
big_endian-2 n h k = ground arith

big_endian-3 :
    (n : ℕ)
    → 2 ^ 16 ≤ n
    → n < 2 ^ 24
    → big_endian_uint64 n ≡ (n / 2 ^ 16) ∷ (n / 2 ^ 8 % 2 ^ 8) ∷ (n % 2 ^ 8) ∷ []
unfolding big_endian_uint64 be_digits
big_endian-3 n h k = ground arith

big_endian-4 :
    (n : ℕ)
    → 2 ^ 24 ≤ n
    → n < 2 ^ 32
    → big_endian_uint64 n
      ≡ (n / 2 ^ 24) ∷ (n / 2 ^ 16 % 2 ^ 8) ∷ (n / 2 ^ 8 % 2 ^ 8) ∷ (n % 2 ^ 8) ∷ []
unfolding big_endian_uint64 be_digits
big_endian-4 n h k = ground arith

-- The length of a string or list in front of it: from 56 on it is written in such digits.
pub big_endian-IsLength : (n : ℕ) → 0 < n → n < 2 ^ 31 → IsLength n (big_endian_uint64 n)
unfolding decode_length decode_length_from
big_endian-IsLength n low high =
    ground (arith, big_endian-1 n low, big_endian-2 n, big_endian-3 n, big_endian-4 n)

-- `rounds` digits are enough for `v`.
abbrev pub Fits : ℕ → ℕ → Type 0
Fits zero v = v ≡ 0
Fits (suc rounds) v = Fits rounds (v / 256)

be_from-be_digits :
    (rounds v : ℕ) (acc : Bytes)
    → Fits rounds v
    → be_from 0 (be_digits rounds v acc) ≡ be_from v acc
unfolding be_digits
be_from-be_digits zero v acc h = ap (λ (k : ℕ). be_from k acc) (zero_is v h)
  where
    zero_is : (v : ℕ) → v ≡ 0 → 0 ≡ v
    zero_is v h = omega arith
be_from-be_digits (suc rounds) v acc h =
    let whole : v / 256 * 256 + v % 256 ≡ v = omega arith in
    let small : v / 256 ≡ 0 → v % 256 ≡ v = λ (e : v / 256 ≡ 0). omega arith in
    ground (
      arith,
      be_from-be_digits rounds (v / 256) ((v % 256) ∷ acc) h,
      ap (λ (k : ℕ). be_from k acc) whole,
      small,
    )

Fits-self : (rounds v : ℕ) → v ≤ rounds → Fits rounds v
Fits-self zero v h = omega arith
Fits-self (suc rounds) v h = Fits-self rounds (v / 256) (omega arith)

-- The number that the digits of a uint64 stand for is the number.
pub be_from-big_endian_uint64 : (v : ℕ) → v < 2 ^ 64 → be_from 0 (big_endian_uint64 v) ≡ v
unfolding big_endian_uint64
be_from-big_endian_uint64 v h =
    let fits : Fits 8 v = omega arith in ground (arith, be_from-be_digits 8 v [] fits)

-- So is that of the bytes of a big.Int, whatever its size.
pub be_from-big_int_bytes : (v : ℕ) → be_from 0 (big_int_bytes v) ≡ v
unfolding big_int_bytes
be_from-big_int_bytes v = ground (arith, be_from-be_digits v v [] (Fits-self v v (omega arith)))
