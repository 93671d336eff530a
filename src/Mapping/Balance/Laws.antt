-- ===== src/Mapping/Balance/Laws.antt =====
-- The laws of balances and allowances, with the texts of the storage behind them.
use account_mapping.Prelude.{
  ◌≡◌, refl, ◌∙◌, sym, ap, subst, inl, inr, Bool, true, false, some, List, [], ◌∷◌, ◌++◌, Bytes,
  bytes, eqb, eqb_iff, eqb_refl, Bool-cases, if◌then◌else◌, arith, ℤ, pos, ◌+ℤ◌, int_laws,
}
use mathlib.Core.List.{append_cancel_right}
use account_mapping.Codec.Decimal.{big_int_string}
use account_mapping.Codec.Decimal.RoundTrip.{parse_amount-big_int_string}
use account_mapping.Host.State.{State}
use account_mapping.Mapping.Balance.{
  balance_key, allowance_key, stored_amount, get_balance, set_balance, get_allowance, set_allowance,
}

pub stored_amount-some : (v : ℤ) → stored_amount (some (big_int_string v)) ≡ v
unfolding stored_amount
stored_amount-some v = parse_amount-big_int_string v

pub get_balance-set_balance :
    (a s b t : Bytes) (v : ℤ) (st : State)
    → get_balance (set_balance a s v st) b t
      ≡ (if eqb (balance_key a s) (balance_key b t) then v else get_balance st b t)
unfolding get_balance set_balance
get_balance-set_balance a s b t v st = elim (Bool-cases (eqb (balance_key a s) (balance_key b t))) [
  | inl same ↦ rw same (stored_amount-some v)
  | inr other ↦ rw other
]

pub get_allowance-set_allowance :
    (o p s : Bytes) (v : ℤ) (st : State) → get_allowance (set_allowance o p s v st) o p s ≡ v
unfolding get_allowance set_allowance
get_allowance-set_allowance o p s v st = rw (eqb_refl (allowance_key o p s)) (stored_amount-some v)

pub get_balance-set_allowance :
    (o p s b t : Bytes) (v : ℤ) (st : State)
    → get_balance (set_allowance o p s v st) b t ≡ get_balance st b t
unfolding get_balance set_allowance
get_balance-set_allowance o p s b t v st = refl

-- Two accounts share the key of an asset only if they are one.
pub balance_key-eqb : (a b s : Bytes) → eqb (balance_key a s) (balance_key b s) ≡ eqb a b
unfolding balance_key
balance_key-eqb a b s = elim (Bool-cases (eqb a b)) [
  | inl same ↦ rw same (
      subst (λ c. eqb (a ++ (bytes "-" ++ s)) (c ++ (bytes "-" ++ s)) ≡ true) ((eqb_iff a b).0 same)
        (eqb_refl (a ++ (bytes "-" ++ s))))
  | inr other ↦ elim (Bool-cases (eqb (a ++ (bytes "-" ++ s)) (b ++ (bytes "-" ++ s)))) [
    | inl same ↦
        cc
          (eqb_refl a, ap (eqb a) (append_cancel_right a b (bytes "-" ++ s) ((eqb_iff _ _).0 same)))
    | inr keys ↦ rw keys (sym other)
  ]
]

-- A write to one account of an asset, read at another.
pub get_balance-set_balance_asset :
    (a b s : Bytes) (v : ℤ) (st : State)
    → get_balance (set_balance a s v st) b s ≡ (if eqb a b then v else get_balance st b s)
get_balance-set_balance_asset a b s v st =
    get_balance-set_balance a s b s v st
    ∙ ap (λ c. if c then v else get_balance st b s) (balance_key-eqb a b s)

abbrev pub contains : Bytes → List Bytes → Bool
contains a [] = false
contains a (b ∷ bs) = if eqb a b then true else contains a bs

-- No account is listed twice.
abbrev pub IsDistinct : List Bytes → Type 0
IsDistinct [] = Unit
IsDistinct (a ∷ as₁) = (contains a as₁ ≡ false) × IsDistinct as₁

-- What a list of accounts holds of an asset.
unfoldable pub total : State → Bytes → List Bytes → ℤ
total st s [] = pos 0
total st s (a ∷ as₁) = get_balance st a s +ℤ total st s as₁

pub total-set_balance_absent :
    (a s : Bytes) (v : ℤ) (st : State) (accounts : List Bytes)
    → contains a accounts ≡ false
    → total (set_balance a s v st) s accounts ≡ total st s accounts
unfolding total
total-set_balance_absent a s v st [] h = refl
total-set_balance_absent a s v st (b ∷ bs) h =
    ground (arith, get_balance-set_balance_asset a b s v st, total-set_balance_absent a s v st bs)

pub total-set_balance :
    (a s : Bytes) (v : ℤ) (st : State) (accounts : List Bytes)
    → IsDistinct accounts
    → contains a accounts ≡ true
    → total (set_balance a s v st) s accounts +ℤ get_balance st a s ≡ total st s accounts +ℤ v
unfolding total
total-set_balance a s v st [] d h = cc
total-set_balance a s v st (b ∷ bs) d h = grind (
  int_laws,
  eqb_iff a b,
  get_balance-set_balance_asset a b s v st,
  total-set_balance_absent a s v st bs,
  total-set_balance a s v st bs d.1,
)
