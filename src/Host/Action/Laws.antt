-- ===== src/Host/Action/Laws.antt =====
-- Inversion of handlers that succeed, one step at a time.
use account_mapping.Prelude.{◌≡◌, refl, ◌⊎◌, inl, inr, Bool, true, false, String, arith}
use account_mapping.Result.{Result, Error, Symbol, ok, err}
use account_mapping.Host.State.{State}
use account_mapping.Host.Action.{Action, lift, fail_if, exported, ◌>>=◌, ◌>>◌}

pub Result-cases :
    {A : Type 0} (r : Result A) → ((a : A) × (r ≡ ok a)) ⊎ ((e : Error) × (r ≡ err e))
Result-cases (ok a) = inl (a, refl)
Result-cases (err e) = inr (e, refl)

module _ {A B : Type 0} where
  pub >>=-ok :
      (m : Action A) (f : A → Action B) (st : State) {b : B} {st' : State}
      → (m >>= f) st ≡ (ok b, st')
      → (a : A) × ((m st).0 ≡ ok a) × (f a (m st).1 ≡ (ok b, st'))
  >>=-ok m f st {b} {st'} h = go (m st).0 refl h
    where
      go :
          (r : Result A)
          → (m st).0 ≡ r
          → (let x : Result B × State = elim r [
            | ok a ↦ f a (m st).1
            | err e ↦ (err e, (m st).1)
          ] in
              x)
            ≡ (ok b, st')
          → (a : A) × ((m st).0 ≡ ok a) × (f a (m st).1 ≡ (ok b, st'))
      go (ok a) e k = (a, e, k)
      go (err x) e k = cc

  pub lift-ok :
      (r : Result A) (f : A → Action B) (st : State) {b : B} {st' : State}
      → (lift r >>= f) st ≡ (ok b, st')
      → (a : A) × (r ≡ ok a) × (f a st ≡ (ok b, st'))
  lift-ok (ok a) f st h = (a, refl, h)
  lift-ok (err e) f st h = cc

module _ {B : Type 0} where
  pub fail_if-ok :
      (t : Bool) (s : Symbol) (m : String) (k : Action B) (st : State) {b : B} {st' : State}
      → (fail_if t s m >> k) st ≡ (ok b, st')
      → (t ≡ false) × (k st ≡ (ok b, st'))
  fail_if-ok true s m k st h = cc
  fail_if-ok false s m k st h = (refl, h)

-- An exported function that fails leaves the storage as it was.
pub exported-err :
    {A : Type 0} (m : Action A) (st : State) {e : Error}
    → (exported m st).0 ≡ err e
    → (exported m st).1 ≡ st
unfolding exported
exported-err m st h = ground arith
