-- ===== src/Witness/Rlp.antt =====
-- RLP: two strings in a list, read back.
use account_mapping.Prelude.{◌<◌, ◌≤◌, ◌≡◌, refl, [], ◌∷◌, ◌++◌, Bytes, length, arith}
use account_mapping.Result.{ok}
use account_mapping.Rlp.Item.{Item, data_item, list_item, nil, cons}
use account_mapping.Rlp.Encode.{reencode_item}
use account_mapping.Rlp.Decode.{decode, decode_children, decode_item}
use account_mapping.Rlp.Bounds.{decode_bounds, decode_children_terminates}
use account_mapping.Rlp.Inverse.{IsDecodable, decode-reencode_item}

abbrev cat_dog : Item
cat_dog = list_item (cons (data_item (99 ∷ 97 ∷ 116 ∷ [])) (cons (data_item (5 ∷ [])) nil))

abbrev cat_dog_bytes : Bytes
cat_dog_bytes = 0xc5 ∷ 0x83 ∷ 99 ∷ 97 ∷ 116 ∷ 5 ∷ []

cat_dog-decoded : decode cat_dog_bytes ≡ ok (cat_dog, 6)
unfolding account_mapping.Rlp.Decode.decode_list_at account_mapping.Rlp.Decode.decode_prefix
    account_mapping.Rlp.Decode.decode_short_string decode decode_children
cat_dog-decoded = refl

decode_bounds_example : (0 < 6) × (6 ≤ length cat_dog_bytes)
decode_bounds_example =
    decode_bounds cat_dog_bytes {i = cat_dog} {n = 6} (omega arith) cat_dog-decoded

decode_children_terminates_example :
    decode_children (decode_item 20 cat_dog_bytes) 6 1 6
    ≡ decode_children (decode_item 20 cat_dog_bytes) 100 1 6
decode_children_terminates_example =
    decode_children_terminates 20 6 100 1 6 cat_dog_bytes (omega arith) (omega arith) (omega arith)
      (omega arith)

cat_dog-IsDecodable : IsDecodable 21 cat_dog
unfolding IsDecodable
cat_dog-IsDecodable = (omega arith, ((omega arith, omega arith), ((omega arith, omega arith), tt)))

cat_dog-short : length (reencode_item cat_dog ++ 7 ∷ []) < 1_073_741_824
unfolding account_mapping.Rlp.Encode.encode_bytes account_mapping.Rlp.Encode.encode_list
    reencode_item
cat_dog-short = omega arith

decode-reencode_item_example :
    decode (reencode_item cat_dog ++ 7 ∷ []) ≡ ok (cat_dog, length (reencode_item cat_dog))
decode-reencode_item_example =
    decode-reencode_item cat_dog (7 ∷ []) cat_dog-IsDecodable cat_dog-short
