-- ===== src/Prelude/Text.antt =====
-- Byte strings: Go's `string` and `[]byte` are both lists of bytes here.
use Prim.Native.Nat.{ℕ, ◌-◌}
use Prim.Native.Char.{code}
use Prim.Native.String.{String}
use mathlib.Core.Path.{◌≡◌, refl, ap}
use mathlib.Core.Logic.{◌↔◌}
use mathlib.Core.Bool.{Bool, true, false, ◌&&◌}
use mathlib.Core.List.{List, [], ◌∷◌, ◌++◌}
use native.Mathlib.Omega.{arith}
use account_mapping.Prelude.Tests.{◌==◌}
use account_mapping.Prelude.Lists.{take, drop, length}

abbrev pub Bytes : Type 0
Bytes = List ℕ

-- An ASCII literal as the bytes that Go stores for it.
abbrev pub bytes : String → Bytes
bytes String.[] = []
bytes (String.◌∷◌ c s) = code c ∷ bytes s

-- `a == b` on strings and on byte arrays.
unfoldable pub eqb : Bytes → Bytes → Bool
eqb [] [] = true
eqb [] (b ∷ bs) = false
eqb (a ∷ as₁) [] = false
eqb (a ∷ as₁) (b ∷ bs) = a == b && eqb as₁ bs

pub eqb_refl : (a : Bytes) → eqb a a ≡ true
unfolding eqb
eqb_refl [] = refl
eqb_refl (a ∷ as₁) = ground (arith, eqb_refl as₁)

pub eqb→eq : (a b : Bytes) → eqb a b ≡ true → a ≡ b
unfolding eqb
eqb→eq [] [] h = refl
eqb→eq [] (b ∷ bs) h = cc
eqb→eq (a ∷ as₁) [] h = cc
eqb→eq (a ∷ as₁) (b ∷ bs) h = ground (arith, eqb→eq as₁ bs)

pub eqb_iff : (a b : Bytes) → (eqb a b ≡ true) ↔ (a ≡ b)
eqb_iff a b = (eqb→eq a b, λ e. cc (eqb_refl a, ap (eqb a) e))

-- `data[from:to]`, in range.
abbrev pub slice : Bytes → ℕ → ℕ → Bytes
slice data' from to = take (to - from) (drop from data')

pub drop-append_self {ℓ} : {A : Type ℓ} (xs ys : List A) → drop (length xs) (xs ++ ys) ≡ ys
drop-append_self [] ys = refl
drop-append_self (x ∷ xs) ys = drop-append_self xs ys

pub take-append_self {ℓ} : {A : Type ℓ} (xs ys : List A) → take (length xs) (xs ++ ys) ≡ xs
take-append_self [] ys = refl
take-append_self (x ∷ xs) ys = ap (λ zs. x ∷ zs) (take-append_self xs ys)

pub append-cancel_left {ℓ} : {A : Type ℓ} (p : List A) {a b : List A} → p ++ a ≡ p ++ b → a ≡ b
append-cancel_left [] h = h
append-cancel_left (x ∷ p) h = append-cancel_left p (cc)
