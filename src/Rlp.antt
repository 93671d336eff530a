-- ===== src/Rlp.antt =====
-- contract/rlp: items, the encoder and the decoder.
pub mod Item
pub mod Encode
pub mod Decode
pub mod Bounds
pub mod Digits
pub mod RoundTrip
pub mod Inverse
