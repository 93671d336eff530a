-- ===== src/Mapping/Solvency.antt =====
-- The invariant between contract/mapping/supply.go and balance.go: the user total of an asset is
-- what a list of accounts holds of it, and none of them holds less than nothing.
use account_mapping.Prelude.{
  ◌≡◌, refl, true, List, [], ◌∷◌, Bytes, eqb_iff, arith, ℤ, pos, ◌+ℤ◌, ◌-ℤ◌, ◌≤ℤ◌, int_laws,
}
use account_mapping.Host.State.{State}
use account_mapping.Mapping.Balance.{get_balance, set_balance, inc_balance, dec_balance}
use account_mapping.Mapping.Balance.Laws.{
  get_balance-set_balance_asset, contains, IsDistinct, total,
}
use account_mapping.Mapping.Supply.{get_supply}
use account_mapping.Mapping.Transfers.Laws.{dec_balance_lem, total-inc_balance, total-dec_balance}

-- No account of the list has a negative balance.
abbrev pub AllNonneg : State → Bytes → List Bytes → Type 0
AllNonneg st s [] = Unit
AllNonneg st s (a ∷ as₁) = (pos 0 ≤ℤ get_balance st a s) × AllNonneg st s as₁

pub record IsSolvent (s : Bytes) (accounts : List Bytes) (st : State) : Type 0 where
  pub backed : (get_supply st s).user ≡ total st s accounts
  pub nonneg : AllNonneg st s accounts

-- Balances are read from the storage of balances alone.
pub get_balance-frame :
    (st st' : State) (a s : Bytes)
    → st'.balances ≡ st.balances
    → get_balance st' a s ≡ get_balance st a s
unfolding get_balance
get_balance-frame st st' a s e = cc

pub total-frame :
    (st st' : State) (s : Bytes) (accounts : List Bytes)
    → st'.balances ≡ st.balances
    → total st' s accounts ≡ total st s accounts
unfolding total
total-frame st st' s [] e = refl
total-frame st st' s (a ∷ as₁) e = cc (get_balance-frame st st' a s e, total-frame st st' s as₁ e)

pub AllNonneg-frame :
    (st st' : State) (s : Bytes) (accounts : List Bytes)
    → st'.balances ≡ st.balances
    → AllNonneg st s accounts
    → AllNonneg st' s accounts
AllNonneg-frame st st' s [] e h = tt
AllNonneg-frame st st' s (a ∷ as₁) e h =
    (rw (get_balance-frame st st' a s e) h.0, AllNonneg-frame st st' s as₁ e h.1)

pub AllNonneg-set_balance :
    (a s : Bytes) (v : ℤ) (st : State) (accounts : List Bytes)
    → pos 0 ≤ℤ v
    → AllNonneg st s accounts
    → AllNonneg (set_balance a s v st) s accounts
AllNonneg-set_balance a s v st [] p h = tt
AllNonneg-set_balance a s v st (b ∷ bs) p h = (
  rw (get_balance-set_balance_asset a b s v st) (ground arith),
  AllNonneg-set_balance a s v st bs p h.1,
)

total_nonneg :
    (st : State) (s : Bytes) (accounts : List Bytes)
    → AllNonneg st s accounts
    → pos 0 ≤ℤ total st s accounts
unfolding total
total_nonneg st s [] h = omega arith
total_nonneg st s (a ∷ as₁) h = omega (int_laws, total_nonneg st s as₁ h.1)

-- An account holds no more than all of them.
pub get_balance-le-total :
    (st : State) (a s : Bytes) (accounts : List Bytes)
    → AllNonneg st s accounts
    → contains a accounts ≡ true
    → (get_balance st a s ≤ℤ total st s accounts) × (pos 0 ≤ℤ get_balance st a s)
unfolding total
get_balance-le-total st a s [] h m = cc
get_balance-le-total st a s (b ∷ bs) h m =
    grind (int_laws, eqb_iff a b, total_nonneg st s bs h.1, get_balance-le-total st a s bs h.1)

-- What is not about balances or user totals keeps the invariant.
pub IsSolvent-frame :
    (s : Bytes) (accounts : List Bytes) (st st' : State)
    → st'.balances ≡ st.balances
    → (get_supply st' s).user ≡ (get_supply st s).user
    → IsSolvent s accounts st
    → IsSolvent s accounts st'
IsSolvent-frame s accounts st st' e u h = record {
  backed = cc (h.backed, total-frame st st' s accounts e, u);
  nonneg = AllNonneg-frame st st' s accounts e h.nonneg;
}

-- A debit with the same fall of the user total keeps it.
pub IsSolvent-debit :
    (a s : Bytes) (v : ℤ) (accounts : List Bytes) (st st' : State)
    → IsDistinct accounts
    → contains a accounts ≡ true
    → (dec_balance a s v st).0 ≡ true
    → st'.balances ≡ (dec_balance a s v st).1.balances
    → (get_supply st' s).user ≡ (get_supply st s).user -ℤ v
    → IsSolvent s accounts st
    → IsSolvent s accounts st'
IsSolvent-debit a s v accounts st st' d m done e u h =
    let (_, covered, written) = dec_balance_lem a s v st done in
    let after = set_balance a s (get_balance st a s -ℤ v) st in
    record {
      backed = cc (
        h.backed,
        u,
        total-frame (dec_balance a s v st).1 st' s accounts e,
        total-dec_balance a s v st accounts done d m,
      );
      nonneg = AllNonneg-frame after st' s accounts (rw written at e) (
          AllNonneg-set_balance a s (get_balance st a s -ℤ v) st accounts (omega int_laws)
            h.nonneg);
    }

-- A credit with the same rise of the user total keeps it.
pub IsSolvent-credit :
    (a s : Bytes) (v : ℤ) (accounts : List Bytes) (st st' : State)
    → IsDistinct accounts
    → contains a accounts ≡ true
    → pos 0 ≤ℤ v
    → st'.balances ≡ (inc_balance a s v st).balances
    → (get_supply st' s).user ≡ (get_supply st s).user +ℤ v
    → IsSolvent s accounts st
    → IsSolvent s accounts st'
unfolding inc_balance
IsSolvent-credit a s v accounts st st' d m p e u h = record {
  backed = cc (
    h.backed,
    u,
    total-frame (inc_balance a s v st) st' s accounts e,
    total-inc_balance a s v st accounts d m,
  );
  nonneg = AllNonneg-frame (inc_balance a s v st) st' s accounts e (
      AllNonneg-set_balance a s (get_balance st a s +ℤ v) st accounts
        (omega (int_laws, get_balance-le-total st a s accounts h.nonneg m)) h.nonneg);
}
