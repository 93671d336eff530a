-- ===== src/Prelude/Parts.antt =====
-- Reading a byte string from an offset on.
use Prim.Native.Nat.{ℕ, zero, suc, ◌+◌, ◌-◌}
use mathlib.Core.Path.{◌≡◌, refl, ap, sym, ◌∙◌}
use mathlib.Core.List.{[], ◌∷◌, ◌++◌}
use native.Mathlib.Omega.{arith}
use account_mapping.Prelude.Lists.{take, drop, get_or, length}
use account_mapping.Prelude.Text.{Bytes, slice, take-append_self, drop-append_self}

pub drop-nil : (n : ℕ) → drop {A = ℕ} n [] ≡ []
drop-nil zero = refl
drop-nil (suc n) = refl

-- What stands at an offset behind another one.
pub drop-drop : (o k j : ℕ) (xs : Bytes) → j ≡ o + k → drop j xs ≡ drop k (drop o xs)
drop-drop zero k j xs e = let e' : j ≡ k = omega arith in ap (λ (n : ℕ). drop n xs) e'
drop-drop (suc o) k zero xs e = absurd (omega arith)
drop-drop (suc o) k (suc j) [] e = sym (drop-nil k)
drop-drop (suc o) k (suc j) (x ∷ xs) e = drop-drop o k j xs (omega arith)

pub get_or-drop : (o k j : ℕ) (xs : Bytes) → j ≡ o + k → get_or xs j 0 ≡ get_or (drop o xs) k 0
get_or-drop zero k j xs e = let e' : j ≡ k = omega arith in ap (λ (n : ℕ). get_or xs n 0) e'
get_or-drop (suc o) k zero xs e = absurd (omega arith)
get_or-drop (suc o) k (suc j) [] e = refl
get_or-drop (suc o) k (suc j) (x ∷ xs) e = get_or-drop o k j xs (omega arith)

pub take-append_length : (n : ℕ) (xs ys : Bytes) → length xs ≡ n → take n (xs ++ ys) ≡ xs
take-append_length n xs ys e = rw (← e) (take-append_self xs ys)

pub drop-append_length : (n : ℕ) (xs ys : Bytes) → length xs ≡ n → drop n (xs ++ ys) ≡ ys
drop-append_length n xs ys e = rw (← e) (drop-append_self xs ys)

-- `data[from:to]` of a string that has `xs` there.
pub slice-at :
    (data' xs rest : Bytes) (from to : ℕ)
    → drop from data' ≡ xs ++ rest
    → to ≡ from + length xs
    → slice data' from to ≡ xs
slice-at data' xs rest from to e t =
    let n : to - from ≡ length xs = omega arith in rw (e, n) (take-append_self xs rest)

-- Behind `xs`.
pub drop-after :
    (data' xs rest : Bytes) (from to : ℕ)
    → drop from data' ≡ xs ++ rest
    → to ≡ from + length xs
    → drop to data' ≡ rest
drop-after data' xs rest from to e t =
    drop-drop from (length xs) to data' t ∙ rw e (drop-append_self xs rest)
