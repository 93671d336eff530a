-- ===== src/Codec/Hex.antt =====
-- encoding/hex, and `HexToAddress`, `AddressToHex`, `AddressToDID` of contract/crypto/crypto.go.
use account_mapping.Prelude.{
  ℕ, ◌+◌, ◌-◌, ◌*◌, ◌/◌, ◌%◌, true, false, ◌&&◌, Option, none, some, [], ◌∷◌, ◌++◌, Bytes, bytes,
  ltb, leb, ◌==◌, if◌then◌else◌, length, replicate,
}
use account_mapping.Codec.Decimal.{format_uint}
use account_mapping.Result.{Result, ◌>>◌, reject_if, present, input, invalid_hex}

unfoldable pub hex_value : ℕ → Option ℕ
hex_value c =
    if leb b'0' c && leb c b'9'
    then some (c - b'0')
    else if leb b'a' c && leb c b'f'
    then some (c - b'a' + 10)
    else if leb b'A' c && leb c b'F'
    then some (c - b'A' + 10)
    else none

abbrev pub add_byte : Option ℕ → Option ℕ → Option Bytes → Option Bytes
add_byte (some h) (some l) (some bs) = some ((h * 16 + l) ∷ bs)
add_byte h l bs = none

-- `hex.DecodeString`; `none` is its error, on an odd length or a bad digit.
unfoldable pub decode_string : Bytes → Option Bytes
unfolding hex_value
decode_string [] = some []
decode_string (h ∷ []) = none
decode_string (h ∷ l ∷ s) = add_byte (hex_value h) (hex_value l) (decode_string s)

unfoldable pub hex_digit : ℕ → ℕ
hex_digit n = if ltb n 10 then b'0' + n else b'a' + (n - 10)

-- `hex.EncodeToString`
unfoldable pub encode_to_string : Bytes → Bytes
unfolding hex_digit
encode_to_string [] = []
encode_to_string (b ∷ bs) = hex_digit (b / 16) ∷ hex_digit (b % 16) ∷ encode_to_string bs

-- `strings.TrimPrefix(s, "0x")`
unfoldable pub trim_0x : Bytes → Bytes
trim_0x [] = []
trim_0x (a ∷ []) = a ∷ []
trim_0x (a ∷ b ∷ s) = if a == b'0' && b == b'x' then s else a ∷ b ∷ s

unfoldable pub hex_to_address : Bytes → Result Bytes
unfolding trim_0x decode_string
hex_to_address s = do
  reject_if (if length (trim_0x s) == 40 then false else true) input "invalid address length"
  present (decode_string (trim_0x s)) invalid_hex "address decode"

abbrev pub zero_address : Bytes
zero_address = replicate 20 0

unfoldable pub address_to_hex : Bytes → Bytes
unfolding encode_to_string
address_to_hex addr = bytes "0x" ++ encode_to_string addr

unfoldable pub address_to_did : Bytes → ℕ → Bytes
unfolding address_to_hex format_uint
address_to_did addr chain_id =
    bytes "did:pkh:eip155:" ++ (format_uint chain_id ++ (bytes ":" ++ address_to_hex addr))
