-- ===== src/Mapping/Queue/Same.antt =====
-- What the steps before the end of a withdrawal leave alone: the nonces and the spends; and what the
-- end of one writes.
use account_mapping.Prelude.{ℕ, ◌+◌, ◌<◌, ◌^◌, ◌≡◌, refl, ◌∙◌, false, Bytes, arith, ℤ}
use account_mapping.Host.State.{State, Env, PendingSpend, add64, set_num}
use account_mapping.Mapping.Balance.{dec_balance, set_balance, set_allowance}
use account_mapping.Mapping.Supply.{track_withdrawal, set_supply}
use account_mapping.Mapping.Gas.{deduct_gas_reserve, set_gas_reserve}
use account_mapping.Mapping.Registry.{tss_sign}
use account_mapping.Mapping.Withdrawal.{
  get_confirmed_nonce, get_pending_nonce, has_pending_withdrawal, set_pending_nonce,
  store_pending_spend,
}
use account_mapping.Mapping.Transfers.{TransferParams}
use account_mapping.Mapping.UnmapFrom.{FromPlan, build_unmap_from}
use account_mapping.Mapping.Queue.{
  Queue, idle, busy, submit, Represents, Steps, HasRoom, has_pending-idle, submit-Represents,
}

-- What the three have in common: a spend is stored under the pending nonce, which goes up.
pub record Queued (st st' : State) : Type 0 where
  pub spend : PendingSpend
  pub named : spend.nonce ≡ get_pending_nonce st
  pub stored : st'.spends ≡ set_num (get_pending_nonce st) spend st.spends
  pub same_head : get_confirmed_nonce st' ≡ get_confirmed_nonce st
  pub next : get_pending_nonce st' ≡ add64 (get_pending_nonce st) 1

pub Queued-Steps :
    (st st' : State) (q : Queue)
    → Represents st q
    → HasRoom q
    → has_pending_withdrawal st ≡ false
    → Queued st st'
    → Steps q st'
Queued-Steps st st' q r room free w =
    let (n, e) = has_pending-idle st q r free in
    let at_idle : Represents st (idle n) = rw e at r in
    let fits : n + 1 < 2 ^ 64 = rw e at room in
    let named : w.spend.nonce ≡ n = w.named ∙ at_idle.1 in
    let stored : st'.spends ≡ set_num n w.spend st.spends = rw at_idle.1 at w.stored in
    (
      busy n w.spend,
      rw e (submit n w.spend),
      submit-Represents st st' n w.spend at_idle fits named stored w.same_head w.next,
    )

-- Same queue.
pub record SameQueue (st st' : State) : Type 0 where
  pub spends : st'.spends ≡ st.spends
  pub confirmed : st'.confirmed_nonce ≡ st.confirmed_nonce
  pub pending : st'.pending_nonce ≡ st.pending_nonce

pub SameQueue-refl : (st : State) → SameQueue st st
SameQueue-refl st = record { spends = refl; confirmed = refl; pending = refl }

pub SameQueue-track : (s : Bytes) (v : ℤ) (st : State) → SameQueue st (track_withdrawal s v st).1
unfolding track_withdrawal set_supply
SameQueue-track s v st = record {
  spends = ground arith;
  confirmed = ground arith;
  pending = ground arith;
}

pub SameQueue-debit : (a s : Bytes) (v : ℤ) (st : State) → SameQueue st (dec_balance a s v st).1
unfolding dec_balance set_balance
SameQueue-debit a s v st = record {
  spends = ground arith;
  confirmed = ground arith;
  pending = ground arith;
}

pub SameQueue-gas : (v : ℤ) (st : State) → SameQueue st (deduct_gas_reserve v st)
unfolding deduct_gas_reserve set_gas_reserve
SameQueue-gas v st = record {
  spends = ground arith;
  confirmed = ground arith;
  pending = ground arith;
}

pub SameQueue-build :
    (env : Env) (p : TransferParams) (plan : FromPlan) (chain_id nonce : ℕ) (st : State)
    → SameQueue st (build_unmap_from env p plan chain_id nonce st).1
unfolding build_unmap_from deduct_gas_reserve set_gas_reserve
SameQueue-build env p plan chain_id nonce st = record {
  spends = ground arith;
  confirmed = ground arith;
  pending = ground arith;
}

pub SameQueue-sign : (h : Bytes) (st : State) → SameQueue st (tss_sign h st)
unfolding tss_sign
SameQueue-sign h st = record { spends = refl; confirmed = refl; pending = refl }

pub SameQueue-allow : (o q s : Bytes) (v : ℤ) (st : State) → SameQueue st (set_allowance o q s v st)
unfolding set_allowance
SameQueue-allow o q s v st = record { spends = refl; confirmed = refl; pending = refl }

pub SameQueue-trans :
    {st st' st'' : State} → SameQueue st st' → SameQueue st' st'' → SameQueue st st''
SameQueue-trans a b = record {
  spends = cc (a.spends, b.spends);
  confirmed = cc (a.confirmed, b.confirmed);
  pending = cc (a.pending, b.pending);
}

-- The end of each withdrawal.
pub Queued-end :
    (st mid st' : State) (spend : PendingSpend)
    → SameQueue st mid
    → spend.nonce ≡ get_pending_nonce st
    → st' ≡ set_pending_nonce (add64 spend.nonce 1) (store_pending_spend spend mid)
    → Queued st st'
unfolding get_pending_nonce get_confirmed_nonce set_pending_nonce store_pending_spend
Queued-end st mid st' spend same named written = record {
  spend = spend;
  named = named;
  stored = rw (written, named, same.spends);
  same_head = rw (written, same.confirmed);
  next = rw (written, named);
}

pub SameQueue-pending :
    {st st' : State} → SameQueue st st' → get_pending_nonce st' ≡ get_pending_nonce st
unfolding get_pending_nonce
SameQueue-pending same = cc same.pending
