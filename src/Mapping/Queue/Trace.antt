-- ===== src/Mapping/Queue/Trace.antt =====
-- Calls of the contract that change the queue, one after the other, each with an environment of its
-- own: `HandleReplaceWithdrawal` as a step, and all of them together.
use account_mapping.Prelude.{
  ℕ, ◌+◌, ◌≤◌, ◌<◌, ◌^◌, ◌≡◌, inl, inr, Option-cases, none, some, Bytes, if◌then◌else◌, ◌==◌, arith,
}
use account_mapping.Codec.Hex.{hex_to_address, encode_to_string}
use account_mapping.Result.{ok}
use account_mapping.Host.State.{State, Env, PendingSpend, set_num}
use account_mapping.Host.Action.Laws.{Result-cases}
use account_mapping.Mapping.Gas.{safe_gas_fee}
use account_mapping.Mapping.Registry.{tss_sign}
use account_mapping.Mapping.Withdrawal.{
  get_confirmed_nonce, get_pending_nonce, get_pending_spend, with_nonce, store_pending_spend,
  compute_sighash,
}
use account_mapping.Mapping.Transfers.{TransferParams}
use account_mapping.Mapping.Unmap.{handle_unmap_eth, handle_unmap_erc20, tip_header}
use account_mapping.Mapping.UnmapFrom.{handle_unmap_from}
use account_mapping.Mapping.Confirm.{ConfirmSpendRequest, handle_confirm_spend}
use account_mapping.Mapping.Lifecycle.{
  L1ProofOfDrop, replacement_tx, handle_clear_nonce, handle_expire_withdrawal,
  handle_cancel_my_withdrawal, handle_replace_withdrawal,
}
use account_mapping.Mapping.Queue.{
  Queue, idle, busy, Step, submit, close, replace, Represents, Steps, HasRoom, stored-busy,
}
use account_mapping.Mapping.Queue.Submit.{
  unmap_eth_submits, unmap_erc20_submits, unmap_from_submits,
}
use account_mapping.Mapping.Queue.Close.{
  confirm_closes, clear_nonce_closes, expire_closes, cancel_closes,
}

-- The same spend with another transaction, stored under its nonce.
replace-Represents :
    (st : State) (hash tx : Bytes) (n : ℕ) (ps : PendingSpend)
    → Represents st (busy n ps)
    → get_pending_spend st n ≡ some ps
    → Represents
        (store_pending_spend (record ps { unsigned_tx_hex = tx }) (tss_sign hash st))
        (busy n (record ps { unsigned_tx_hex = tx }))
unfolding store_pending_spend tss_sign get_pending_spend with_nonce get_confirmed_nonce
    get_pending_nonce
replace-Represents st hash tx n ps r h = (r.0, r.1, λ m. reading m)
  where
    reading :
        (m : ℕ)
        → with_nonce m (set_num ps.nonce (record ps { unsigned_tx_hex = tx }) st.spends m)
          ≡ (if n == m then some (record ps { unsigned_tx_hex = tx }) else none)
    reading m = ground (arith, r.2 m)

-- What a replacement writes.
handle_replace-ok :
    (env : Env) (chain_id : ℕ) (st : State) {st' : State} (ps : PendingSpend)
    → handle_replace_withdrawal env chain_id st ≡ (ok tt, st')
    → get_pending_spend st (get_confirmed_nonce st) ≡ some ps
    → (hash tx : Bytes) × (st'
        ≡ store_pending_spend (record ps { unsigned_tx_hex = tx }) (tss_sign hash st))
unfolding handle_replace_withdrawal
handle_replace-ok env chain_id st {st'} ps h e = elim (Result-cases (tip_header env st)) [
  | inl (header, f) ↦ elim (Result-cases (safe_gas_fee 0 header.base_fee_per_gas 3 4_000_000_000)) [
    | inl (capped, g) ↦ elim (Result-cases (hex_to_address ps.to_address)) [
      | inl (to_address, k) ↦
          elim (Result-cases
            (replacement_tx env ps chain_id (get_confirmed_nonce st) capped.0 to_address)) [
              | inl (unsigned, l) ↦
                  (compute_sighash env unsigned, encode_to_string unsigned, ground arith)
              | inr (x, l) ↦ absurd (ground arith)
            ]
      | inr (x, k) ↦ absurd (ground arith)
    ]
    | inr (x, g) ↦ absurd (ground arith)
  ]
  | inr (x, f) ↦ absurd (ground arith)
]

-- A replacement that succeeds keeps the spend at the head, all but its transaction.
pub replace-Steps :
    (env : Env) (chain_id : ℕ) (st : State) {st' : State} (q : Queue)
    → handle_replace_withdrawal env chain_id st ≡ (ok tt, st')
    → Represents st q
    → Steps q st'
unfolding handle_replace_withdrawal
replace-Steps env chain_id st {st'} q h r =
    let n = get_confirmed_nonce st in
    elim (Option-cases (get_pending_spend st n)) [
      | inl none_there ↦ absurd (ground arith)
      | inr (ps, e) ↦
          let (hash, tx, written) = handle_replace-ok env chain_id st ps h e in
          let is_busy = stored-busy st q n ps r e in
          let at_busy : Represents st (busy n ps) = rw is_busy at r in
          (
            busy n (record ps { unsigned_tx_hex = tx }),
            rw is_busy (replace n ps tx),
            rw written (replace-Represents st hash tx n ps at_busy e),
          )
    ]

-- A call that succeeded, of a handler that reads or writes the queue.
pub data Call (st st' : State) : Type 0 where
  unmap_eth :
      (env : Env) (p : TransferParams) (vault : Bytes) (chain_id : ℕ) (tx : Bytes)
      → handle_unmap_eth env p vault chain_id st ≡ (ok tx, st')
      → Call st st'
  unmap_erc20 :
      (env : Env) (p : TransferParams) (vault : Bytes) (chain_id : ℕ) (tx : Bytes)
      → handle_unmap_erc20 env p vault chain_id st ≡ (ok tx, st')
      → Call st st'
  unmap_from :
      (env : Env) (p : TransferParams) (vault : Bytes) (chain_id : ℕ)
      → handle_unmap_from env p vault chain_id st ≡ (ok tt, st')
      → Call st st'
  confirm_spend :
      (env : Env) (req : ConfirmSpendRequest) (chain_id : ℕ)
      → handle_confirm_spend env req chain_id st ≡ (ok tt, st')
      → Call st st'
  replace_withdrawal :
      (env : Env) (chain_id : ℕ)
      → handle_replace_withdrawal env chain_id st ≡ (ok tt, st')
      → Call st st'
  clear_nonce :
      (env : Env) (vault : Bytes) (chain_id : ℕ) (proof : L1ProofOfDrop)
      → handle_clear_nonce env vault chain_id proof st ≡ (ok tt, st')
      → Call st st'
  expire_withdrawal :
      (env : Env) (nonce : ℕ) (proof : L1ProofOfDrop) (chain_id : ℕ)
      → handle_expire_withdrawal env nonce proof chain_id st ≡ (ok tt, st')
      → Call st st'
  cancel_my_withdrawal :
      (env : Env) (nonce : ℕ) (proof : L1ProofOfDrop) (vault : Bytes) (chain_id : ℕ)
      → handle_cancel_my_withdrawal env nonce proof vault chain_id st ≡ (ok tt, st')
      → Call st st'

-- A number of calls.
pub data Trace : (calls : ℕ) → State → State → Type 0 where
  start : {st : State} → Trace 0 st st
  later : {n : ℕ} {st mid st' : State} → Trace n st mid → Call mid st' → Trace (n + 1) st st'

-- The steps of the queue.
pub data Moves (q : Queue) : Queue → Type 0 where
  stay : Moves q q
  move : {r s : Queue} → Moves q r → Step r s → Moves q s

-- The nonce at the head.
abbrev pub head : Queue → ℕ
head (idle n) = n
head (busy n ps) = n

Call-Steps : {st st' : State} (q : Queue) → Call st st' → Represents st q → HasRoom q → Steps q st'
Call-Steps {st} q (unmap_eth env p vault chain_id tx h) r room =
    unmap_eth_submits env p vault chain_id st {tx = tx} q h r room
Call-Steps {st} q (unmap_erc20 env p vault chain_id tx h) r room =
    unmap_erc20_submits env p vault chain_id st {tx = tx} q h r room
Call-Steps {st} q (unmap_from env p vault chain_id h) r room =
    unmap_from_submits env p vault chain_id st q h r room
Call-Steps {st} q (confirm_spend env req chain_id h) r room =
    confirm_closes env req chain_id st q h r room
Call-Steps {st} q (replace_withdrawal env chain_id h) r room = replace-Steps env chain_id st q h r
Call-Steps {st} q (clear_nonce env vault chain_id proof h) r room =
    clear_nonce_closes env vault chain_id proof st q h r room
Call-Steps {st} q (expire_withdrawal env nonce proof chain_id h) r room =
    expire_closes env nonce proof chain_id st q h r room
Call-Steps {st} q (cancel_my_withdrawal env nonce proof vault chain_id h) r room =
    (cancel_closes env nonce proof vault chain_id st q h r room).1

head-Step : {q r : Queue} → Step q r → (head q ≤ head r) × (head r ≤ head q + 1)
head-Step (submit n ps) = (omega arith, omega arith)
head-Step (replace n ps tx) = (omega arith, omega arith)
head-Step (close n ps) = (omega arith, omega arith)

HasRoom-head : (q : Queue) → head q + 1 < 2 ^ 64 → HasRoom q
HasRoom-head (idle n) h = h
HasRoom-head (busy n ps) h = h

-- Any number of successful calls of the eight handlers, in any order and by anyone, are steps of
-- the queue, as long as the nonces fit a uint64: a withdrawal is queued only where none is pending,
-- and is replaced or closed only while it is; the head never falls.
pub handlers_refine_queue :
    {calls : ℕ} {st st' : State} (q : Queue)
    → Trace calls st st'
    → Represents st q
    → head q + calls + 1 < 2 ^ 64
    → (r : Queue) × Moves q r × Represents st' r × (head q ≤ head r) × (head r ≤ head q + calls)
handlers_refine_queue q start rep fits = (q, stay, rep, omega arith, omega arith)
handlers_refine_queue q (later {n} t call) rep fits =
    let (r, moves, mid, low, high) = handlers_refine_queue q t rep (omega arith) in
    let (s, step, after) = Call-Steps r call mid (HasRoom-head r (omega arith)) in
    let (up, by_one) = head-Step step in (s, move moves step, after, omega arith, omega arith)
