-- ===== src/Monitor/Hex.antt =====
-- monitor/receipt.go and monitor/tx_encode.go: the hexadecimal texts of a node's JSON, which are ASCII.
use account_mapping.Prelude.{
  ℕ, ◌+◌, ◌*◌, ◌%◌, ◌^◌, ◌||◌, Option, none, some, [], ◌∷◌, Bytes, bytes, eqb, ◌==◌, if◌then◌else◌,
}
use account_mapping.Codec.Hex.{hex_value, trim_0x}
use account_mapping.Rlp.Encode.{encode_bytes, encode_big_int}

-- `hex.DecodeString` with the error ignored: the bytes in front of the first bad digit.
unfoldable pub decoded_prefix : Bytes → Bytes
decoded_prefix [] = []
decoded_prefix (h ∷ []) = []
decoded_prefix (h ∷ l ∷ s) = elim (hex_value h) [
  | none ↦ []
  | some high ↦ elim (hex_value l) [ none ↦ [] | some low ↦ (high * 16 + low) ∷ decoded_prefix s ]
]

unfoldable pub hex_to_bytes : Bytes → Bytes
hex_to_bytes s = decoded_prefix (trim_0x s)

-- Each character shifts by 4 in 64 bits; one that is no digit adds nothing.
unfoldable pub hex_to_uint_from : ℕ → Bytes → ℕ
hex_to_uint_from v [] = v
hex_to_uint_from v (c ∷ s) =
    let shifted = (v * 16) % 2 ^ 64 in
    hex_to_uint_from (elim (hex_value c) [ none ↦ shifted | some d ↦ shifted + d ]) s

unfoldable pub hex_to_uint : Bytes → ℕ
hex_to_uint s = hex_to_uint_from 0 (trim_0x s)

-- The digits of `SetString(s, 16)`.
unfoldable pub hex_digits : ℕ → Bytes → Option ℕ
hex_digits acc [] = some acc
hex_digits acc (c ∷ s) = elim (hex_value c) [ none ↦ none | some d ↦ hex_digits (acc * 16 + d) s ]

-- At least one digit.
unfoldable pub hex_nat : Bytes → Option ℕ
hex_nat [] = none
hex_nat (c ∷ s) = hex_digits 0 (c ∷ s)

-- `SetString(s, 16)`, by its absolute value, which is what `Bytes` writes.
unfoldable pub hex_magnitude : Bytes → Option ℕ
hex_magnitude [] = none
hex_magnitude (c ∷ s) = if c == b'-' || c == b'+' then hex_nat s else hex_nat (c ∷ s)

unfoldable pub encode_big_hex : Bytes → Bytes
encode_big_hex s =
    let t = trim_0x s in
    if eqb t [] || eqb t (bytes "0")
    then encode_bytes []
    else elim (hex_magnitude t) [ none ↦ encode_bytes [] | some v ↦ encode_big_int v ]
