-- ===== src/Mapping/Deposits/Kept.antt =====
-- What was marked as processed stays so, whatever deposits are mapped afterwards (contract/mapping/observed.go,
-- and `routeDeposit` of contract/mapping/handlers.go).
use account_mapping.Prelude.{
  ℕ, ◌++◌, ◌≡◌, refl, ◌∙◌, sym, ap, true, ◌⊎◌, inl, inr, List, [], Bytes, bytes, length, arith, ℤ,
}
use account_mapping.Codec.Decimal.{big_int_string}
use account_mapping.Codec.Hex.{address_to_did}
use account_mapping.Host.State.{State, Env, DexInstruction}
use account_mapping.Mapping.Balance.{inc_balance, set_balance, dec_balance, set_allowance}
use account_mapping.Mapping.Observed.{is_observed, mark_observed}
use account_mapping.Mapping.Observed.Laws.{AllAligned, is_observed-kept, mark_observed-AllAligned}
use account_mapping.Mapping.Deposits.{
  read_instructions, router_of, self_address, Route, route, route_deposit, swap_deposit,
}

-- From one storage to another: the lists of processed deposits stay whole, and what was observed is.
abbrev pub KeepsDeposits : State → State → Type 0
KeepsDeposits st st' =
    AllAligned st
    → AllAligned st'
      × ((height : ℕ) (tx_hash : Bytes) (index : ℕ)
          → is_observed st height tx_hash index ≡ true
          → is_observed st' height tx_hash index ≡ true)

-- The contracts that are called, which may call this one, keep the deposits.
abbrev pub RouterKeeps : Env → Type 0
RouterKeeps env =
    (c : Bytes) (i : DexInstruction) (st : State) → KeepsDeposits st (env.contract_call c i st).1

AllAligned-same : (st st' : State) → st'.observed ≡ st.observed → AllAligned st → AllAligned st'
AllAligned-same st st' e aligned h entries f = aligned h entries (ap (λ o. o h) (sym e) ∙ f)

pub is_observed-frame :
    (st st' : State) (height : ℕ) (tx_hash : Bytes) (index : ℕ)
    → st'.observed height ≡ st.observed height
    → is_observed st' height tx_hash index ≡ is_observed st height tx_hash index
unfolding is_observed
is_observed-frame st st' height tx_hash index e = rw (is_observed, e)

pub KeepsDeposits-same : (st st' : State) → st'.observed ≡ st.observed → KeepsDeposits st st'
KeepsDeposits-same st st' e aligned = (
  AllAligned-same st st' e aligned,
  λ height tx_hash index seen.
      is_observed-frame st st' height tx_hash index (ap (λ o. o height) e) ∙ seen,
)

pub KeepsDeposits-trans :
    (a b c : State) → KeepsDeposits a b → KeepsDeposits b c → KeepsDeposits a c
KeepsDeposits-trans a b c first second aligned =
    let (b_aligned, b_seen) = first aligned in
    let (c_aligned, c_seen) = second b_aligned in
    (
      c_aligned,
      λ height tx_hash index seen. c_seen height tx_hash index (b_seen height tx_hash index seen),
    )

pub mark-KeepsDeposits :
    (height : ℕ) (tx_hash : Bytes) (index : ℕ) (st : State)
    → length tx_hash ≡ 32
    → KeepsDeposits st (mark_observed height tx_hash index st)
mark-KeepsDeposits height tx_hash index st e aligned = (
  mark_observed-AllAligned height tx_hash index st e aligned,
  λ height' tx_hash' index' seen.
      is_observed-kept height' height tx_hash' tx_hash index' index st aligned seen,
)

-- The lists after the swap are those that the router left.
swap-observed :
    (env : Env) (router : Bytes) (r : Route) (asset : Bytes) (v : ℤ) (st : State)
    → (i : DexInstruction) × (before : State) × (before.observed ≡ st.observed)
      × ((swap_deposit env router r asset v st).1.observed
          ≡ (env.contract_call router i before).1.observed)
unfolding swap_deposit set_allowance inc_balance dec_balance set_balance
swap-observed env router r asset v st = (
  record {
    asset_in = asset;
    amount_in = big_int_string v;
    asset_out = r.asset_out;
    recipient = r.swap_to;
    destination_chain = r.dest_chain;
  },
  set_allowance (self_address env) (bytes "contract:" ++ router) asset v
      (inc_balance (self_address env) asset v st),
  refl,
  ground arith,
)

swap-KeepsDeposits :
    (env : Env) (router : Bytes) (r : Route) (asset : Bytes) (v : ℤ) (st : State)
    → RouterKeeps env
    → KeepsDeposits st (swap_deposit env router r asset v st).1
swap-KeepsDeposits env router r asset v st keeps =
    let (i, before, same, e) = swap-observed env router r asset v st in
    let called = (env.contract_call router i before).1 in
    let swapped = (swap_deposit env router r asset v st).1 in
    KeepsDeposits-trans st before swapped (KeepsDeposits-same st before same) (
      KeepsDeposits-trans before called swapped (keeps router i before)
        (KeepsDeposits-same called swapped e))

pub route-KeepsDeposits :
    (env : Env) (sender : Bytes) (is : List Bytes) (asset : Bytes) (v : ℤ) (st : State)
    → RouterKeeps env
    → KeepsDeposits st (route env sender is asset v st).1
unfolding route route_deposit
route-KeepsDeposits env sender is asset v st keeps =
    let r =
      read_instructions is (record {
        dest = address_to_did sender 1;
        swap_to = [];
        asset_out = [];
        dest_chain = [];
      }) in
    let result = (route_deposit env sender is asset v st).1 in
    let swapped = (swap_deposit env (router_of st) r asset v st).1 in
    let cases : (result.observed ≡ st.observed) ⊎ (result.observed ≡ swapped.observed) =
      ground arith in
    elim cases [
      | inl e ↦ KeepsDeposits-same st result e
      | inr e ↦
          KeepsDeposits-trans st swapped result
            (swap-KeepsDeposits env (router_of st) r asset v st keeps)
            (KeepsDeposits-same swapped result e)
    ]
