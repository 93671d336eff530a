-- ===== src/Mapping/Queue.antt =====
-- The queue of withdrawals that contract/mapping/withdrawal.go keeps in the two nonces and the
-- spends, as a state machine: at most one withdrawal is pending.

pub mod Same
pub mod Submit
pub mod Close
pub mod Trace
use account_mapping.Prelude.{
  ℕ, ◌+◌, ◌<◌, ◌^◌, ◌≡◌, refl, ◌∙◌, sym, Bool, true, false, Bool-cases, inl, inr, Option, none,
  some, Bytes, ◌==◌, if◌then◌else◌, arith,
}
use account_mapping.Host.State.{State, PendingSpend, add64, set_num, delete_num}
use account_mapping.Mapping.Withdrawal.{
  get_confirmed_nonce, get_pending_nonce, has_pending_withdrawal, get_pending_spend, with_nonce,
}

-- Nothing is pending after `confirmed` withdrawals, or one is, under that nonce.
pub data Queue : Type 0 where
  idle : (confirmed : ℕ) → Queue
  busy : (confirmed : ℕ) (spend : PendingSpend) → Queue

-- A withdrawal is queued, priced anew, or closed (paid or refunded).
pub data Step : Queue → Queue → Type 0 where
  submit : (n : ℕ) (ps : PendingSpend) → Step (idle n) (busy n ps)
  replace :
      (n : ℕ) (ps : PendingSpend) (tx : Bytes)
      → Step (busy n ps) (busy n (record ps { unsigned_tx_hex = tx }))
  close : (n : ℕ) (ps : PendingSpend) → Step (busy n ps) (idle (n + 1))

-- What the storage holds for a queue.
abbrev pub Represents : State → Queue → Type 0
Represents st (idle n) =
    (get_confirmed_nonce st ≡ n)
    × (get_pending_nonce st ≡ n)
    × ((m : ℕ) → get_pending_spend st m ≡ none)
Represents st (busy n ps) =
    (get_confirmed_nonce st ≡ n)
    × (get_pending_nonce st ≡ n + 1)
    × ((m : ℕ) → get_pending_spend st m ≡ (if n == m then some ps else none))

-- One step of the queue, from a storage to another.
abbrev pub Steps : Queue → State → Type 0
Steps q st' = (r : Queue) × Step q r × Represents st' r

-- The nonces of a queue fit a uint64 after another withdrawal.
abbrev pub HasRoom : Queue → Type 0
HasRoom (idle n) = n + 1 < 2 ^ 64
HasRoom (busy n ps) = n + 1 < 2 ^ 64

-- The pending test of the code is that of the queue.
pub has_pending-idle :
    (st : State) (q : Queue)
    → Represents st q
    → has_pending_withdrawal st ≡ false
    → (n : ℕ) × (q ≡ idle n)
unfolding has_pending_withdrawal
has_pending-idle st (idle n) r h = (n, refl)
has_pending-idle st (busy n ps) r h = absurd (ground arith)

-- A spend that is stored is the one of the queue.
pub stored-busy :
    (st : State) (q : Queue) (m : ℕ) (ps : PendingSpend)
    → Represents st q
    → get_pending_spend st m ≡ some ps
    → q ≡ busy m ps
stored-busy st (idle n) m ps r h = absurd (ground (arith, r.2 m))
stored-busy st (busy n other) m ps r h = ground (arith, r.2 m)

-- It is at the head.
pub stored-head :
    (st : State) (q : Queue) (m : ℕ) (ps : PendingSpend)
    → Represents st q
    → get_pending_spend st m ≡ some ps
    → get_confirmed_nonce st ≡ m
stored-head st (idle n) m ps r h = absurd (ground (arith, r.2 m))
stored-head st (busy n other) m ps r h = ground (arith, r.2 m)

with_nonce-own : (ps : PendingSpend) → with_nonce ps.nonce (some ps) ≡ some ps
unfolding with_nonce
with_nonce-own ps = refl

-- The writes that queue a spend.
pub submit-Represents :
    (st st' : State) (n : ℕ) (ps : PendingSpend)
    → Represents st (idle n)
    → n + 1 < 2 ^ 64
    → ps.nonce ≡ n
    → st'.spends ≡ set_num n ps st.spends
    → get_confirmed_nonce st' ≡ get_confirmed_nonce st
    → get_pending_nonce st' ≡ add64 (get_pending_nonce st) 1
    → Represents st' (busy n ps)
unfolding get_pending_spend with_nonce
submit-Represents st st' n ps r room named queued same next =
    (same ∙ r.0, next ∙ ground (arith, r.1), λ m. rw queued (reading m))
  where
    reading : (m : ℕ) → with_nonce m (set_num n ps st.spends m) ≡ (if n == m then some ps else none)
    reading m = ground (arith, r.2 m, with_nonce-own ps)

-- The writes that close it.
pub close-Represents :
    (st st' : State) (n : ℕ) (ps : PendingSpend)
    → Represents st (busy n ps)
    → n + 1 < 2 ^ 64
    → st'.spends ≡ delete_num n st.spends
    → get_confirmed_nonce st' ≡ add64 n 1
    → get_pending_nonce st' ≡ n + 1
    → Represents st' (idle (n + 1))
unfolding get_pending_spend with_nonce
close-Represents st st' n ps r room deleted advanced pending =
    (advanced ∙ ground arith, pending, λ m. rw deleted (reading m))
  where
    reading : (m : ℕ) → with_nonce m (delete_num n st.spends m) ≡ none
    reading m = ground (arith, r.2 m)
