-- ===== src/Rlp/RoundTrip.antt =====
-- The decoder reads back what the encoder wrote (contract/rlp/encode.go, decode.go), wherever it
-- stands in the data.
use account_mapping.Prelude.{
  ℕ, ◌+◌, ◌-◌, ◌^◌, ◌<◌, ◌≤◌, ◌≡◌, refl, ◌∙◌, ap, append_assoc, inl, inr, false, ◌&&◌, [], ◌∷◌,
  ◌++◌, Bytes, leb, ◌==◌, length, length-append, get_or, slice, drop, Bool-cases, arith,
  get_or-drop, slice-at, drop-after,
}
use account_mapping.Result.{Result, ok}
use account_mapping.Rlp.Item.{Item, Items, data_item, list_item}
use account_mapping.Rlp.Encode.{encode_length, encode_bytes, big_endian_uint64}
use account_mapping.Rlp.Decode.{
  decode_children, decode_list_at, decode_short_string, decode_long_length, decode_long_string,
  decode_long_list, decode_prefix, decode_length, max_item_size,
}
use account_mapping.Rlp.Digits.{IsLength, big_endian-IsLength}

-- `s` stands in the data at an offset, with `rest` behind it.
pub record Stands (data' : Bytes) (offset : ℕ) (s rest : Bytes) : Type 0 where
  pub there : drop offset data' ≡ s ++ rest
  pub size : offset + (length s + length rest) ≡ length data'

-- The two parts of what stands somewhere.
pub Stands-left :
    {data' : Bytes} {offset : ℕ} (s t rest : Bytes)
    → Stands data' offset (s ++ t) rest
    → Stands data' offset s (t ++ rest)
Stands-left s t rest h = record {
  there = h.there ∙ append_assoc s t rest;
  size = omega (arith, h.size, length-append s t, length-append t rest);
}

pub Stands-right :
    {data' : Bytes} {offset : ℕ} (s t rest : Bytes)
    → Stands data' offset (s ++ t) rest
    → Stands data' (offset + length s) t rest
Stands-right {data'} {offset} s t rest h = record {
  there =
      drop-after data' s (t ++ rest) offset (offset + length s) (h.there ∙ append_assoc s t rest)
        refl;
  size = omega (arith, h.size, length-append s t);
}

-- The byte at the offset.
head-Stands :
    {data' : Bytes} {offset : ℕ} (b : ℕ) (s rest : Bytes)
    → Stands data' offset (b ∷ s) rest
    → get_or data' offset 0 ≡ b
head-Stands {data'} {offset} b s rest h =
    get_or-drop offset 0 offset data' (omega arith) ∙ ap (λ (xs : Bytes). get_or xs 0 0) h.there

first-Stands :
    {data' : Bytes} {offset : ℕ} (s rest : Bytes)
    → 1 ≤ length s
    → Stands data' offset s rest
    → get_or data' offset 0 ≡ get_or s 0 0
first-Stands [] rest some_bytes h = absurd (omega arith)
first-Stands (b ∷ s) rest some_bytes h = head-Stands b s rest h

slice-Stands :
    {data' : Bytes} {offset : ℕ} (s rest : Bytes) (end : ℕ)
    → Stands data' offset s rest
    → end ≡ offset + length s
    → slice data' offset end ≡ s
slice-Stands {data'} {offset} s rest end h e = slice-at data' s rest offset end h.there e

-- A long length behind its prefix is read.
long_length-Stands :
    {data' : Bytes} {offset : ℕ} (prefix n : ℕ) (ds rest : Bytes)
    → IsLength n ds
    → 55 < n
    → n < 2 ^ 31
    → Stands data' offset (prefix ∷ ds) rest
    → decode_long_length data' offset (length ds) ≡ ok n
unfolding decode_long_length
long_length-Stands {data'} {offset} prefix n ds rest w long small h =
    let digits = Stands-right (prefix ∷ []) ds rest h in
    let read : slice data' (offset + 1) (offset + 1 + length ds) ≡ ds =
      slice-Stands ds rest (offset + 1 + length ds) digits refl in
    let first : get_or data' (offset + 1) 0 ≡ get_or ds 0 0 =
      first-Stands ds rest w.some_bytes digits in
    ground (arith, w.reads, w.minimal, ap decode_length read, digits.size)

canonical-Stands :
    {data' : Bytes} {offset : ℕ} (s rest : Bytes)
    → (length s == 1 && leb (get_or s 0 0) 0x7f) ≡ false
    → Stands data' offset s rest
    → (length s == 1 && leb (get_or data' offset 0) 0x7f) ≡ false
canonical-Stands [] rest c h = refl
canonical-Stands (b ∷ s) rest c h = ground (arith, head-Stands b s rest h)

-- A string of at most 55 bytes behind its prefix.
short_string-Stands :
    {data' : Bytes} {offset : ℕ} (s rest : Bytes)
    → length s ≤ 55
    → (length s == 1 && leb (get_or s 0 0) 0x7f) ≡ false
    → Stands data' offset ((0x80 + length s) ∷ s) rest
    → decode_short_string data' offset (0x80 + length s) ≡ ok (data_item s, offset + (1 + length s))
unfolding decode_short_string
short_string-Stands {data'} {offset} s rest short canonical h =
    let n : 0x80 + length s - 0x80 ≡ length s = omega arith in
    let body = Stands-right ((0x80 + length s) ∷ []) s rest h in
    let read : slice data' (offset + 1) (offset + 1 + length s) ≡ s =
      slice-Stands s rest (offset + 1 + length s) body refl in
    let shown : (length s == 1 && leb (get_or data' (offset + 1) 0) 0x7f) ≡ false =
      canonical-Stands s rest canonical body in
    rw n (ground (arith, read, shown, body.size))

long_string-Stands :
    {data' : Bytes} {offset : ℕ} (s ds rest : Bytes)
    → IsLength (length s) ds
    → 55 < length s
    → length s ≤ max_item_size
    → length data' < 2 ^ 30
    → Stands data' offset ((0xb7 + length ds) ∷ (ds ++ s)) rest
    → decode_long_string data' offset (0xb7 + length ds)
      ≡ ok (data_item s, offset + (1 + (length ds + length s)))
unfolding decode_long_string
long_string-Stands {data'} {offset} s ds rest w long few small h =
    let k : 0xb7 + length ds - 0xb7 ≡ length ds = omega arith in
    let prefix : Bytes = (0xb7 + length ds) ∷ [] in
    let n =
      long_length-Stands (0xb7 + length ds) (length s) ds (s ++ rest) w long (omega arith)
        (Stands-left ((0xb7 + length ds) ∷ ds) s rest h) in
    let body = Stands-right ds s rest (Stands-right prefix (ds ++ s) rest h) in
    let read : slice data' (offset + 1 + length ds) (offset + 1 + length ds + length s) ≡ s =
      slice-Stands s rest (offset + 1 + length ds + length s) body refl in
    rw k (ground (arith, n, read, body.size))

-- What stands in front of a body: one byte up to 55 bytes, and a long length from 56 on.
encode_length-short :
    (n offset : ℕ) → n ≤ 55 → offset ≤ 0xc0 → encode_length n offset ≡ (offset + n) ∷ []
unfolding encode_length
encode_length-short n offset h k = ground arith

encode_length-long :
    (n offset : ℕ)
    → 55 < n
    → offset ≤ 0xc0
    → IsLength n (big_endian_uint64 n)
    → encode_length n offset ≡ (offset + 55 + length (big_endian_uint64 n)) ∷ big_endian_uint64 n
unfolding encode_length
encode_length-long n offset h k w = ground (arith, w.few_bytes)

-- A list whose items are read.
list_at-Stands :
    (item : ℕ → Result (Item × ℕ)) (data' : Bytes) (start end : ℕ) (is : Items)
    → end ≤ length data'
    → decode_children item (length data' + 1) start end ≡ ok (is, end)
    → decode_list_at item data' start end ≡ ok (list_item is, end)
unfolding decode_list_at
list_at-Stands item data' start end is inside h = ground arith

module _ (item : ℕ → Result (Item × ℕ)) {data' : Bytes} {offset : ℕ} where
  -- A string with its length in front.
  string-Stands :
      (s rest : Bytes)
      → length s ≤ max_item_size
      → length data' < 2 ^ 30
      → (length s == 1 && leb (get_or s 0 0) 0x7f) ≡ false
      → Stands data' offset (encode_length (length s) 0x80 ++ s) rest
      → decode_prefix item data' offset (get_or data' offset 0)
        ≡ ok (data_item s, offset + length (encode_length (length s) 0x80 ++ s))
  unfolding decode_prefix
  string-Stands s rest few small canonical h = elim (Bool-cases (leb (length s) 55)) [
    | inl short ↦
        let e = encode_length-short (length s) 0x80 (ground arith) (omega arith) in
        let h' : Stands data' offset ((0x80 + length s) ∷ s) rest = rw e at h in
        rw (head-Stands (0x80 + length s) s rest h', e)
          (ground (arith, short_string-Stands s rest (ground arith) canonical h'))
    | inr long ↦
        let ds = big_endian_uint64 (length s) in
        let w = big_endian-IsLength (length s) (ground arith) (ground arith) in
        let e = encode_length-long (length s) 0x80 (ground arith) (omega arith) w in
        let h' : Stands data' offset ((0xb7 + length ds) ∷ (ds ++ s)) rest = rw e at h in
        rw (head-Stands (0xb7 + length ds) (ds ++ s) rest h', e)
          (ground (
            arith,
            length-append ds s,
            w.some_bytes,
            w.few_bytes,
            long_string-Stands s ds rest w (ground arith) few small h',
          ))
  ]

  -- `EncodeBytes`, with the single bytes that are their own encoding.
  pub bytes-Stands :
      (s rest : Bytes)
      → length s ≤ max_item_size
      → length data' < 2 ^ 30
      → Stands data' offset (encode_bytes s) rest
      → decode_prefix item data' offset (get_or data' offset 0)
        ≡ ok (data_item s, offset + length (encode_bytes s))
  unfolding encode_bytes decode_prefix
  bytes-Stands [] rest few small h =
      rw (head-Stands 0x80 [] rest h)
        (ground (arith, short_string-Stands [] rest (omega arith) refl h))
  bytes-Stands (b ∷ []) rest few small h = elim (Bool-cases (leb b 0x7f)) [
    | inl own ↦
        let h' : Stands data' offset (b ∷ []) rest = rw own at h in
        let read = slice-Stands (b ∷ []) rest (offset + 1) h' refl in
        rw (head-Stands b [] rest h', own) (ground (arith, read))
    | inr other ↦
        let h' : Stands data' offset (encode_length 1 0x80 ++ b ∷ []) rest = rw other at h in
        rw other (string-Stands (b ∷ []) rest few small (ground arith) h')
  ]
  bytes-Stands (b ∷ c ∷ s) rest few small h =
      string-Stands (b ∷ c ∷ s) rest few small (ground arith) h

  pub list-Stands :
      (is : Items) (s rest : Bytes)
      → length data' < 2 ^ 30
      → Stands data' offset (encode_length (length s) 0xc0 ++ s) rest
      → ((start : ℕ)
          → Stands data' start s rest
          → decode_children item (length data' + 1) start (start + length s)
            ≡ ok (is, start + length s))
      → decode_prefix item data' offset (get_or data' offset 0)
        ≡ ok (list_item is, offset + length (encode_length (length s) 0xc0 ++ s))
  unfolding decode_prefix decode_long_list
  list-Stands is s rest small h body = elim (Bool-cases (leb (length s) 55)) [
    | inl short ↦
        let e = encode_length-short (length s) 0xc0 (ground arith) (omega arith) in
        let h' : Stands data' offset ((0xc0 + length s) ∷ s) rest = rw e at h in
        let at = Stands-right ((0xc0 + length s) ∷ []) s rest h' in
        let n : 0xc0 + length s - 0xc0 ≡ length s = omega arith in
        rw (head-Stands (0xc0 + length s) s rest h', e)
          (ground (
            arith,
            n,
            list_at-Stands item data' (offset + 1) (offset + 1 + length s) is
                (omega (arith, at.size)) (body (offset + 1) at),
          ))
    | inr long ↦
        let ds = big_endian_uint64 (length s) in
        let w =
          big_endian-IsLength (length s) (ground arith)
            (omega (arith, h.size, length-append (encode_length (length s) 0xc0) s)) in
        let e = encode_length-long (length s) 0xc0 (ground arith) (omega arith) w in
        let h' : Stands data' offset ((0xf7 + length ds) ∷ (ds ++ s)) rest = rw e at h in
        let k : 0xf7 + length ds - 0xf7 ≡ length ds = omega arith in
        let n =
          long_length-Stands (0xf7 + length ds) (length s) ds (s ++ rest) w (ground arith)
            (omega (arith, h.size, length-append (encode_length (length s) 0xc0) s))
            (Stands-left ((0xf7 + length ds) ∷ ds) s rest h') in
        let at =
          Stands-right ds s rest (Stands-right ((0xf7 + length ds) ∷ []) (ds ++ s) rest h') in
        rw (head-Stands (0xf7 + length ds) (ds ++ s) rest h', e)
          (ground (
            arith,
            k,
            n,
            length-append ds s,
            w.some_bytes,
            list_at-Stands item data' (offset + 1 + length ds) (offset + 1 + length ds + length s)
                is (omega (arith, at.size)) (body (offset + 1 + length ds) at),
          ))
  ]
