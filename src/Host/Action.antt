-- ===== src/Host/Action.antt =====
-- A handler: storage and errors. The storage comes back after an error too, as the handler left it;
-- main.go aborts the call on every error, and the host then drops what was written.
pub mod Laws
use account_mapping.Prelude.{String, Bool, true, false, Option, none, some, if◌then◌else◌}
use account_mapping.Result.{Result, Error, Symbol, ok, err, contract_error}
use account_mapping.Host.State.{State}

abbrev pub Action : Type 0 → Type 0
Action A = State → Result A × State

abbrev pub pure : {A : Type 0} → A → Action A
pure a st = (ok a, st)

abbrev pub lift : {A : Type 0} → Result A → Action A
lift r st = (r, st)

abbrev pub gets : {A : Type 0} → (State → A) → Action A
gets f st = (ok (f st), st)

abbrev pub modify : (State → State) → Action (Unit {0})
modify f st = (ok tt, f st)

infixl 5 ◌>>=◌ ◌>>◌
abbrev pub ◌>>=◌ : {A B : Type 0} → Action A → (A → Action B) → Action B
◌>>=◌ m f st = elim (m st).0 [ ok a ↦ f a (m st).1 | err e ↦ (err e, (m st).1) ]

abbrev pub ◌>>◌ : {A B : Type 0} → Action A → Action B → Action B
m >> k = m >>= λ _. k

abbrev pub fail_if : Bool → Symbol → String → Action (Unit {0})
fail_if b s m st = (if b then err (contract_error s m) else ok tt, st)

-- An exported function of main.go: on an error the call is aborted, and the storage is as before.
unfoldable pub exported : {A : Type 0} → Action A → Action A
exported m st = elim (m st).0 [ ok a ↦ (ok a, (m st).1) | err e ↦ (err e, st) ]
