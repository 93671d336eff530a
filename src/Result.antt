-- ===== src/Result.antt =====
-- contract/contracterrors: errors carry a symbol and a message; a handler returns a value or one
-- of them.
use account_mapping.Prelude.{String, Bool, true, false, Option, none, some}

-- The symbols of contracterrors/errors.go that the modelled code uses; `plain` is `errors.New`, and
-- `aborted` a call of `sdk.Abort` or a trap, after which the handler does not go on.
pub data Symbol : Type 0 where
  json invalid_hex input no_permission state_access initialization intent auth balance transaction
        arithmetic plain aborted :
      Symbol

pub data Error : Type 0 where
  contract_error : Symbol → String → Error

pub data Result {ℓ} (A : Type ℓ) : Type ℓ where
  ok : A → Result A
  err : Error → Result A

-- The next step of a handler runs where there is no error.
infixl 5 ◌>>=◌
abbrev pub ◌>>=◌ {ℓ κ} : {A : Type ℓ} {B : Type κ} → Result A → (A → Result B) → Result B
err failed >>= next = err failed
ok value >>= next = next value

-- A check, and what follows it.
infixl 5 ◌>>◌
abbrev pub ◌>>◌ {ℓ} : {B : Type ℓ} → Result (Unit {0}) → Result B → Result B
check >> next = check >>= λ _. next

-- `if bad { return err }`
abbrev pub reject_if : Bool → Symbol → String → Result (Unit {0})
reject_if true s m = err (contract_error s m)
reject_if false s m = ok tt

-- `if v == nil { return err }`
abbrev pub present {ℓ} : {A : Type ℓ} → Option A → Symbol → String → Result A
present none s m = err (contract_error s m)
present (some a) s m = ok a

-- `if err != nil { return other }`
abbrev pub or_else {ℓ} : {A : Type ℓ} → Result A → Symbol → String → Result A
or_else (ok a) s m = ok a
or_else (err e) s m = err (contract_error s m)

abbrev pub is_ok {ℓ} : {A : Type ℓ} → Result A → Bool
is_ok (ok _) = true
is_ok (err _) = false
