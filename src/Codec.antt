-- ===== src/Codec.antt =====
-- Text encodings of the Go standard library that the contract calls: encoding/hex, and the decimal
-- numbers of strconv and math/big; contract/crypto/crypto.go for addresses.
pub mod Hex
pub mod Decimal
