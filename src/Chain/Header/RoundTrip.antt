-- ===== src/Chain/Header/RoundTrip.antt =====
-- A stored header reads back as the header that was stored.
use account_mapping.Prelude.{
  ℕ, zero, suc, ◌+◌, ◌^◌, ◌<◌, ◌≡◌, refl, ◌∙◌, sym, ap, append-nil, false, List, [], ◌∷◌, ◌++◌,
  Bytes, ltb, arith, length, get_or, take, drop, length-append, take-append_length,
}
use account_mapping.Result.{ok}
use account_mapping.Chain.Header.{
  EthBlockHeader, uint64_bytes, read_uint64, serialize, deserialize_header,
}

-- The ranges that Go's types give: uint64 numbers and 32-byte roots.
pub record IsWellFormed (h : EthBlockHeader) : Type 0 where
  pub number_fits : h.block_number < 2 ^ 64
  pub state_32 : length h.state_root ≡ 32
  pub transactions_32 : length h.transactions_root ≡ 32
  pub receipts_32 : length h.receipts_root ≡ 32
  pub fee_fits : h.base_fee_per_gas < 2 ^ 64
  pub limit_fits : h.gas_limit < 2 ^ 64
  pub time_fits : h.timestamp < 2 ^ 64
  pub chain_fits : h.chain_id < 2 ^ 64

get_or-skip : (xs ys : Bytes) (o j : ℕ) → j ≡ length xs + o → get_or (xs ++ ys) j 0 ≡ get_or ys o 0
get_or-skip [] ys o j e = rw e (ap (λ k. get_or ys k 0) (zero_plus o))
  where
    zero_plus : (o : ℕ) → 0 + o ≡ o
    zero_plus o = omega arith
get_or-skip (x ∷ xs) ys o zero e = absurd (omega arith)
get_or-skip (x ∷ xs) ys o (suc j) e = get_or-skip xs ys o j (omega arith)

drop-skip : (xs ys : Bytes) (o j : ℕ) → j ≡ length xs + o → drop j (xs ++ ys) ≡ drop o ys
drop-skip [] ys o j e = rw e (ap (λ k. drop k ys) (zero_plus o))
  where
    zero_plus : (o : ℕ) → 0 + o ≡ o
    zero_plus o = omega arith
drop-skip (x ∷ xs) ys o zero e = absurd (omega arith)
drop-skip (x ∷ xs) ys o (suc j) e = drop-skip xs ys o j (omega arith)

read_uint64-skip :
    (xs ys : Bytes) (o j : ℕ) → j ≡ length xs + o → read_uint64 (xs ++ ys) j ≡ read_uint64 ys o
unfolding read_uint64
read_uint64-skip xs ys o j e = simp (
  get_or-skip xs ys o j e,
  get_or-skip xs ys (o + 1) (j + 1) (omega arith),
  get_or-skip xs ys (o + 2) (j + 2) (omega arith),
  get_or-skip xs ys (o + 3) (j + 3) (omega arith),
  get_or-skip xs ys (o + 4) (j + 4) (omega arith),
  get_or-skip xs ys (o + 5) (j + 5) (omega arith),
  get_or-skip xs ys (o + 6) (j + 6) (omega arith),
  get_or-skip xs ys (o + 7) (j + 7) (omega arith),
)

-- Eight bytes read back as the number.
read_uint64-bytes : (v : ℕ) (rest : Bytes) → v < 2 ^ 64 → read_uint64 (uint64_bytes v ++ rest) 0 ≡ v
unfolding read_uint64 uint64_bytes
read_uint64-bytes v rest h = omega arith

length-uint64_bytes : (v : ℕ) → length (uint64_bytes v) ≡ 8
unfolding uint64_bytes
length-uint64_bytes v = refl

-- Segments in front of a rest, and their size.
abbrev join : List Bytes → Bytes → Bytes
join [] rest = rest
join (x ∷ xs) rest = x ++ join xs rest

abbrev size : List Bytes → ℕ
size [] = 0
size (x ∷ xs) = length x + size xs

read_uint64-join :
    (pre : List Bytes) (rest : Bytes) (j : ℕ)
    → j ≡ size pre
    → read_uint64 (join pre rest) j ≡ read_uint64 rest 0
read_uint64-join [] rest j e = rw e
read_uint64-join (x ∷ xs) rest j e =
    read_uint64-skip x (join xs rest) (size xs) j e ∙ read_uint64-join xs rest (size xs) refl

drop-join : (pre : List Bytes) (rest : Bytes) (j : ℕ) → j ≡ size pre → drop j (join pre rest) ≡ rest
drop-join [] rest j e = rw e
drop-join (x ∷ xs) rest j e =
    drop-skip x (join xs rest) (size xs) j e ∙ drop-join xs rest (size xs) refl

length-join : (pre : List Bytes) (rest : Bytes) → length (join pre rest) ≡ size pre + length rest
length-join [] rest = omega arith
length-join (x ∷ xs) rest = omega (arith, length-append x (join xs rest), length-join xs rest)

-- The field that stands behind `pre` in a serialized header.
read_field :
    (pre : List Bytes) (v : ℕ) (rest : Bytes) (j : ℕ)
    → v < 2 ^ 64
    → j ≡ size pre
    → read_uint64 (join pre (uint64_bytes v ++ rest)) j ≡ v
read_field pre v rest j fits e =
    read_uint64-join pre (uint64_bytes v ++ rest) j e ∙ read_uint64-bytes v rest fits

-- The last field has nothing behind it.
read_last :
    (pre : List Bytes) (v j : ℕ)
    → v < 2 ^ 64
    → j ≡ size pre
    → read_uint64 (join pre (uint64_bytes v)) j ≡ v
read_last pre v j fits e =
    ap (λ b. read_uint64 (join pre b) j) (sym (append-nil (uint64_bytes v)))
    ∙ read_field pre v [] j fits e

root_field :
    (pre : List Bytes) (root rest : Bytes) (j : ℕ)
    → length root ≡ 32
    → j ≡ size pre
    → take 32 (drop j (join pre (root ++ rest))) ≡ root
root_field pre root rest j len e =
    ap (take 32) (drop-join pre (root ++ rest) j e) ∙ take-append_length 32 root rest len

ruleset sizes = (arith, length-uint64_bytes)

-- Reading a serialized header gives that header, for every header whose numbers fit 64 bits and
-- whose roots have 32 bytes.
pub deserialize_header-serialize :
    (h : EthBlockHeader) → IsWellFormed h → deserialize_header (serialize h) ≡ ok h
unfolding deserialize_header serialize
deserialize_header-serialize h w =
    let u = uint64_bytes in
    let s₁ : List Bytes = (1 ∷ []) ∷ [] in
    let s₂ : List Bytes = (1 ∷ []) ∷ u h.block_number ∷ [] in
    let s₃ : List Bytes = (1 ∷ []) ∷ u h.block_number ∷ h.state_root ∷ [] in
    let s₄ : List Bytes = (1 ∷ []) ∷ u h.block_number ∷ h.state_root ∷ h.transactions_root ∷ [] in
    let s₅ : List Bytes =
      (1 ∷ []) ∷ u h.block_number ∷ h.state_root ∷ h.transactions_root ∷ h.receipts_root ∷ [] in
    let s₆ : List Bytes =
      (1 ∷ [])
      ∷ u h.block_number
      ∷ h.state_root
      ∷ h.transactions_root
      ∷ h.receipts_root
      ∷ u h.base_fee_per_gas
      ∷ [] in
    let s₇ : List Bytes =
      (1 ∷ [])
      ∷ u h.block_number
      ∷ h.state_root
      ∷ h.transactions_root
      ∷ h.receipts_root
      ∷ u h.base_fee_per_gas
      ∷ u h.gas_limit
      ∷ [] in
    let s₈ : List Bytes =
      (1 ∷ [])
      ∷ u h.block_number
      ∷ h.state_root
      ∷ h.transactions_root
      ∷ h.receipts_root
      ∷ u h.base_fee_per_gas
      ∷ u h.gas_limit
      ∷ u h.timestamp
      ∷ [] in
    let long : ltb (length (serialize h)) 137 ≡ false = ground (
      arith,
      length-join s₈ (u h.chain_id),
      length-uint64_bytes h.block_number,
      length-uint64_bytes h.base_fee_per_gas,
      length-uint64_bytes h.gas_limit,
      length-uint64_bytes h.timestamp,
      length-uint64_bytes h.chain_id,
    ) in
    let f₁ : read_uint64 (serialize h) 1 ≡ h.block_number =
      read_field s₁ h.block_number _ 1 w.number_fits (omega sizes) in
    let f₂ : take 32 (drop 9 (serialize h)) ≡ h.state_root =
      root_field s₂ h.state_root _ 9 w.state_32 (omega sizes) in
    let f₃ : take 32 (drop 41 (serialize h)) ≡ h.transactions_root =
      root_field s₃ h.transactions_root _ 41 w.transactions_32 (omega sizes) in
    let f₄ : take 32 (drop 73 (serialize h)) ≡ h.receipts_root =
      root_field s₄ h.receipts_root _ 73 w.receipts_32 (omega sizes) in
    let f₅ : read_uint64 (serialize h) 105 ≡ h.base_fee_per_gas =
      read_field s₅ h.base_fee_per_gas _ 105 w.fee_fits (omega sizes) in
    let f₆ : read_uint64 (serialize h) 113 ≡ h.gas_limit =
      read_field s₆ h.gas_limit _ 113 w.limit_fits (omega sizes) in
    let f₇ : read_uint64 (serialize h) 121 ≡ h.timestamp =
      read_field s₇ h.timestamp _ 121 w.time_fits (omega sizes) in
    let f₈ : read_uint64 (serialize h) 129 ≡ h.chain_id =
      read_last s₈ h.chain_id 129 w.chain_fits (omega sizes) in
    cc (long, f₁, f₂, f₃, f₄, f₅, f₆, f₇, f₈)
