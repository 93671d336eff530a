-- ===== src/Monitor/Compact.antt =====
-- The compact keys of monitor/trie.go are read back by contract/mpt/verify.go.
use account_mapping.Prelude.{
  ℕ, ◌+◌, ◌*◌, ◌/◌, ◌%◌, ◌<◌, ◌≡◌, refl, ◌∙◌, sym, ap, Bool, true, false, [], ◌∷◌, ◌++◌, Bytes,
  length, drop, ◌==◌, if◌then◌else◌, arith, inl, inr, Bool-cases, append-nil,
}
use account_mapping.Mpt.Node.{keybytes_to_hex, compact_to_hex, strip_flags, drop_last}
use account_mapping.Monitor.Trie.{pack, nibbles_to_compact, key_to_nibbles, leaf_flag}

abbrev pub AreNibbles : Bytes → Type 0
AreNibbles [] = Unit
AreNibbles (n ∷ ns) = (n < 16) × AreNibbles ns

-- The terminator of a leaf's key.
abbrev pub terminator : Bool → Bytes
terminator is_leaf = if is_leaf then 16 ∷ [] else []

-- The contract's nibbles of a key are the monitor's, with the terminator.
pub keybytes-key_to_nibbles : (k : Bytes) → keybytes_to_hex k ≡ key_to_nibbles k ++ 16 ∷ []
unfolding keybytes_to_hex key_to_nibbles
keybytes-key_to_nibbles [] = refl
keybytes-key_to_nibbles (b ∷ k) = ap (λ t. (b / 16) ∷ (b % 16) ∷ t) (keybytes-key_to_nibbles k)

keybytes-pack :
    (ns : Bytes)
    → AreNibbles ns
    → (length ns % 2 == 1) ≡ false
    → keybytes_to_hex (pack ns) ≡ ns ++ 16 ∷ []
unfolding keybytes_to_hex pack
keybytes-pack [] small even = refl
keybytes-pack (a ∷ []) small even = ground arith
keybytes-pack (a ∷ b ∷ ns) (low, (low', small)) even =
    let high : (a * 16 + b) / 16 ≡ a = omega arith in
    let rest : (a * 16 + b) % 16 ≡ b = omega arith in
    let tail = keybytes-pack ns small (ground arith) in rw (high, rest, tail) refl

drop_last-append : (xs : Bytes) (y : ℕ) → drop_last (xs ++ y ∷ []) ≡ xs
drop_last-append [] y = refl
drop_last-append (x ∷ []) y = refl
drop_last-append (x ∷ z ∷ xs) y = ap (λ t. x ∷ t) (drop_last-append (z ∷ xs) y)

strip-odd :
    (n : ℕ) (ns : Bytes) (is_leaf : Bool)
    → strip_flags ((leaf_flag is_leaf + 1) ∷ n ∷ (ns ++ 16 ∷ [])) ≡ n ∷ (ns ++ terminator is_leaf)
unfolding strip_flags
strip-odd n ns true = refl
strip-odd n ns false = drop_last-append (n ∷ ns) 16 ∙ ap (λ t. n ∷ t) (sym (append-nil ns))

strip-even :
    (ns : Bytes) (is_leaf : Bool)
    → strip_flags (leaf_flag is_leaf ∷ 0 ∷ (ns ++ 16 ∷ [])) ≡ ns ++ terminator is_leaf
unfolding strip_flags
strip-even ns true = refl
strip-even ns false = ap (λ t. drop 1 t) (drop_last-append (0 ∷ ns) 16) ∙ sym (append-nil ns)

compact-step :
    (b : ℕ) (bs : Bytes)
    → compact_to_hex (b ∷ bs) ≡ strip_flags ((b / 16) ∷ (b % 16) ∷ keybytes_to_hex bs)
unfolding compact_to_hex keybytes_to_hex
compact-step b bs = refl

compact-odd :
    (n : ℕ) (ns : Bytes) (is_leaf : Bool)
    → AreNibbles (n ∷ ns)
    → (length ns % 2 == 1) ≡ false
    → compact_to_hex (((leaf_flag is_leaf + 1) * 16 + n) ∷ pack ns) ≡ n ∷ (ns ++ terminator is_leaf)
compact-odd n ns is_leaf (low, small) even =
    let flag = leaf_flag is_leaf in
    let high : ((flag + 1) * 16 + n) / 16 ≡ flag + 1 = omega arith in
    let rest : ((flag + 1) * 16 + n) % 16 ≡ n = omega arith in
    compact-step ((flag + 1) * 16 + n) (pack ns)
    ∙ rw (high, rest, keybytes-pack ns small even) (strip-odd n ns is_leaf)

compact-even :
    (ns : Bytes) (is_leaf : Bool)
    → AreNibbles ns
    → (length ns % 2 == 1) ≡ false
    → compact_to_hex ((leaf_flag is_leaf * 16) ∷ pack ns) ≡ ns ++ terminator is_leaf
compact-even ns is_leaf small even =
    let flag = leaf_flag is_leaf in
    let high : flag * 16 / 16 ≡ flag = omega arith in
    let rest : flag * 16 % 16 ≡ 0 = omega arith in
    compact-step (flag * 16) (pack ns)
    ∙ rw (high, rest, keybytes-pack ns small even) (strip-even ns is_leaf)

-- The contract reads back the compact key of a list of nibbles, and adds the terminator to that of a
-- leaf.
pub compact_to_hex-nibbles_to_compact :
    (ns : Bytes) (is_leaf : Bool)
    → AreNibbles ns
    → compact_to_hex (nibbles_to_compact ns is_leaf) ≡ ns ++ terminator is_leaf
unfolding nibbles_to_compact
compact_to_hex-nibbles_to_compact [] is_leaf small = compact-even [] is_leaf small refl
compact_to_hex-nibbles_to_compact (n ∷ ns) is_leaf small =
    elim (Bool-cases (length (n ∷ ns) % 2 == 1)) [
      | inl odd ↦ rw odd (compact-odd n ns is_leaf small (ground arith))
      | inr even ↦ rw even (compact-even (n ∷ ns) is_leaf small even)
    ]
