-- ===== src/Mapping/Queue/Submit.antt =====
-- The three withdrawals (`HandleUnmapETH`, `HandleUnmapERC20`, `HandleUnmapFrom`) as steps of the
-- queue.
use account_mapping.Prelude.{
  ℕ, ◌≡◌, refl, inl, inr, false, some, [], Bytes, if◌then◌else◌, arith, ◌-ℤ◌,
}
use account_mapping.Codec.Hex.{address_to_hex, encode_to_string}
use account_mapping.Result.{ok}
use account_mapping.Host.State.{State, Env, PendingSpend, add64}
use account_mapping.Chain.Header.{get_last_height}
use account_mapping.Host.Action.Laws.{Result-cases}
use account_mapping.Mapping.Balance.{dec_balance, set_allowance}
use account_mapping.Mapping.Supply.{track_withdrawal}
use account_mapping.Mapping.Gas.{deduct_gas_reserve}
use account_mapping.Mapping.Registry.{tss_sign}
use account_mapping.Mapping.Withdrawal.{
  get_pending_nonce, has_pending_withdrawal, set_pending_nonce, store_pending_spend,
  build_erc20_withdrawal_tx, compute_sighash,
}
use account_mapping.Mapping.Transfers.{TransferParams}
use account_mapping.Mapping.Unmap.{
  TokenPlan, gas_tip_cap, handle_unmap_eth, handle_unmap_erc20, check_unmap_erc20,
  commit_unmap_erc20,
}
use account_mapping.Mapping.Unmap.Laws.{eth_spend, check_unmap_erc20-reads}
use account_mapping.Mapping.Unmap.Effect.{unmap_eth_effect}
use account_mapping.Mapping.UnmapFrom.{
  FromPlan, is_native, handle_unmap_from, check_unmap_from, commit_unmap_from, build_unmap_from,
}
use account_mapping.Mapping.Queue.{Queue, Represents, Steps, HasRoom}
use account_mapping.Mapping.Queue.Same.{
  Queued, Queued-Steps, SameQueue-track, SameQueue-debit, SameQueue-gas, SameQueue-build,
  SameQueue-sign, SameQueue-allow, SameQueue-trans, SameQueue-pending, Queued-end,
}
use account_mapping.Mapping.UnmapFrom.Laws.{check_unmap_from-idle, check_unmap_from-reads}

-- A native withdrawal that succeeds is a step of the queue that submits a spend.
pub unmap_eth_submits :
    (env : Env) (p : TransferParams) (vault : Bytes) (chain_id : ℕ) (st : State) {tx : Bytes}
    {st' : State} (q : Queue)
    → handle_unmap_eth env p vault chain_id st ≡ (ok tx, st')
    → Represents st q
    → HasRoom q
    → Steps q st'
unmap_eth_submits env p vault chain_id st {tx} {st'} q h r room =
    let (plan, checked, effect, _) = unmap_eth_effect env p vault chain_id st h in
    Queued-Steps st st' q r room checked.idle (record {
      spend = eth_spend env p st plan vault chain_id;
      named = refl;
      stored = effect.queued;
      same_head = effect.same_head;
      next = effect.next;
    })

commit_unmap_erc20-Queued :
    (env : Env) (p : TransferParams) (plan : TokenPlan) (vault : Bytes) (chain_id : ℕ) (st : State)
    {tx : Bytes} {st' : State}
    → commit_unmap_erc20 env p plan vault chain_id st ≡ (ok tx, st')
    → Queued st st'
unfolding commit_unmap_erc20
commit_unmap_erc20-Queued env p plan vault chain_id st {tx} {st'} h =
    let nonce = get_pending_nonce st in
    elim (Result-cases (
      build_erc20_withdrawal_tx chain_id nonce gas_tip_cap plan.fee_cap plan.token plan.recipient
        plan.amount)) [
          | inl (unsigned, e) ↦
              let signed = tss_sign (compute_sighash env unsigned) st in
              let debited = (dec_balance env.caller plan.info.symbol plan.amount signed).1 in
              let tracked = (track_withdrawal plan.info.symbol plan.amount debited).1 in
              let paid = deduct_gas_reserve plan.gas_cost tracked in
              let a = SameQueue-debit env.caller plan.info.symbol plan.amount signed in
              let b = SameQueue-track plan.info.symbol plan.amount debited in
              let c = SameQueue-gas plan.gas_cost tracked in
              let spend : PendingSpend = record {
                nonce = nonce;
                amount = plan.amount;
                from_account = env.caller;
                to_address = p.to_address;
                asset = plan.info.symbol;
                unsigned_tx_hex = encode_to_string unsigned;
                block_height = get_last_height env paid;
                vault_at_queue = address_to_hex vault;
                token_address = p.token_address;
                gas_cost = some plan.gas_cost;
              } in
              let written : st'
                  ≡ set_pending_nonce (add64 nonce 1) (store_pending_spend spend paid) =
                ground arith in
              Queued-end st paid st' spend
                (SameQueue-trans (SameQueue-sign (compute_sighash env unsigned) st)
                  (SameQueue-trans a (SameQueue-trans b c)))
                refl written
          | inr (x, e) ↦ absurd (ground arith)
        ]

check_unmap_erc20-idle :
    (env : Env) (p : TransferParams) (chain_id : ℕ) (st : State) (plan : TokenPlan)
    → (check_unmap_erc20 env p chain_id st).0 ≡ ok plan
    → has_pending_withdrawal st ≡ false
unfolding check_unmap_erc20
check_unmap_erc20-idle env p chain_id st plan h = ground arith

commit_unmap_from-Queued :
    (env : Env) (p : TransferParams) (plan : FromPlan) (vault : Bytes) (chain_id : ℕ) (st : State)
    {st' : State}
    → commit_unmap_from env p plan vault chain_id st ≡ (ok tt, st')
    → Queued st st'
unfolding commit_unmap_from
commit_unmap_from-Queued env p plan vault chain_id st {st'} h =
    let debited = (dec_balance p.from_account p.asset plan.total_deduct st).1 in
    let allowed =
      set_allowance p.from_account env.caller p.asset (plan.allowance -ℤ plan.amount) debited in
    let tracked = (track_withdrawal p.asset plan.amount allowed).1 in
    let nonce = get_pending_nonce tracked in
    let built = build_unmap_from env p plan chain_id nonce tracked in
    elim (Result-cases built.0) [
      | inl (made, e) ↦
          let signed = tss_sign (compute_sighash env made.0) built.1 in
          let spend : PendingSpend = record {
            nonce = nonce;
            amount = plan.amount;
            from_account = p.from_account;
            to_address = p.to_address;
            asset = p.asset;
            unsigned_tx_hex = encode_to_string made.0;
            block_height = get_last_height env signed;
            vault_at_queue = address_to_hex vault;
            token_address = if is_native p then [] else p.token_address;
            gas_cost = made.1;
          } in
          let same = SameQueue-trans (SameQueue-debit p.from_account p.asset plan.total_deduct st) (
            SameQueue-trans
              (SameQueue-allow p.from_account env.caller p.asset (plan.allowance -ℤ plan.amount)
                debited)
              (SameQueue-track p.asset plan.amount allowed)) in
          let written : st' ≡ set_pending_nonce (add64 nonce 1) (store_pending_spend spend signed) =
            ground arith in
          let before = SameQueue-pending same in
          let to_sign = SameQueue-trans same (SameQueue-build env p plan chain_id nonce tracked) in
          Queued-end st signed st' spend
            (SameQueue-trans to_sign (SameQueue-sign (compute_sighash env made.0) built.1)) before
            written
      | inr (x, e) ↦ absurd (ground arith)
    ]

-- A token withdrawal that succeeds is a step of the queue that submits a spend.
pub unmap_erc20_submits :
    (env : Env) (p : TransferParams) (vault : Bytes) (chain_id : ℕ) (st : State) {tx : Bytes}
    {st' : State} (q : Queue)
    → handle_unmap_erc20 env p vault chain_id st ≡ (ok tx, st')
    → Represents st q
    → HasRoom q
    → Steps q st'
unfolding handle_unmap_erc20
unmap_erc20_submits env p vault chain_id st {tx} {st'} q h r room =
    elim (Result-cases (check_unmap_erc20 env p chain_id st).0) [
      | inl (plan, e) ↦
          Queued-Steps st st' q r room (check_unmap_erc20-idle env p chain_id st plan e) (
            commit_unmap_erc20-Queued env p plan vault chain_id st {tx = tx}
              (ground (arith, check_unmap_erc20-reads env p chain_id st)))
      | inr (x, e) ↦ absurd (ground arith)
    ]

-- A withdrawal on behalf of an owner that succeeds, native or of a token, is a step of the queue that
-- submits a spend.
pub unmap_from_submits :
    (env : Env) (p : TransferParams) (vault : Bytes) (chain_id : ℕ) (st : State) {st' : State}
    (q : Queue)
    → handle_unmap_from env p vault chain_id st ≡ (ok tt, st')
    → Represents st q
    → HasRoom q
    → Steps q st'
unfolding handle_unmap_from
unmap_from_submits env p vault chain_id st {st'} q h r room =
    elim (Result-cases (check_unmap_from env p chain_id st).0) [
      | inl (plan, e) ↦
          Queued-Steps st st' q r room (check_unmap_from-idle env p chain_id st plan e) (
            commit_unmap_from-Queued env p plan vault chain_id st
              (ground (arith, check_unmap_from-reads env p chain_id st)))
      | inr (x, e) ↦ absurd (ground arith)
    ]
