-- ===== src/Mapping/UnmapFrom/Laws.antt =====
-- The checks of `HandleUnmapFrom` (contract/mapping/handlers.go) write nothing.
use account_mapping.Prelude.{
  ℕ, ◌≡◌, ◌⊎◌, inl, inr, true, false, bytes, if◌then◌else◌, Bool-cases, arith, ℤ, pos, ◌+ℤ◌, ◌≤ℤ◌,
}
use account_mapping.Result.{ok}
use account_mapping.Host.State.{State, Env}
use account_mapping.Host.Action.Laws.{Result-cases}
use account_mapping.Chain.Header.{EthBlockHeader}
use account_mapping.Mapping.Balance.{get_balance, get_allowance}
use account_mapping.Mapping.Gas.{safe_gas_fee}
use account_mapping.Mapping.Withdrawal.{has_pending_withdrawal, eth_transfer_gas}
use account_mapping.Mapping.Transfers.{TransferParams, positive_amount}
use account_mapping.Mapping.Unmap.{require_gas_reserve, tip_header, gas_tip_cap}
use account_mapping.Mapping.UnmapFrom.{
  FromPlan, is_native, from_token, from_total, check_token, check_native, native_total,
  check_unmap_from,
}

pub check_token-reads :
    (env : Env) (p : TransferParams) (chain_id : ℕ) (v : ℤ) (st : State)
    → (check_token env p chain_id v st).1 ≡ st
unfolding check_token require_gas_reserve
check_token-reads env p chain_id v st = ground arith

pub check_native-reads : (env : Env) (st : State) → (check_native env st).1 ≡ st
unfolding check_native require_gas_reserve
check_native-reads env st = ground arith

pub native_total-reads :
    (env : Env) (p : TransferParams) (base_fee : ℕ) (v : ℤ) (st : State)
    → (native_total env p base_fee v st).1 ≡ st
unfolding native_total
native_total-reads env p base_fee v st = ground arith

pub check_unmap_from-idle :
    (env : Env) (p : TransferParams) (chain_id : ℕ) (st : State) (plan : FromPlan)
    → (check_unmap_from env p chain_id st).0 ≡ ok plan
    → (has_pending_withdrawal st ≡ false)
unfolding check_unmap_from
check_unmap_from-idle env p chain_id st plan h = ground arith

pub from_token-reads :
    (env : Env) (p : TransferParams) (chain_id : ℕ) (v : ℤ) (st : State)
    → (from_token env p chain_id v st).1 ≡ st
unfolding from_token
from_token-reads env p chain_id v st =
    ground (arith, check_token-reads env p chain_id v st, check_native-reads env st)

pub from_total-reads :
    (env : Env) (p : TransferParams) (base_fee : ℕ) (v : ℤ) (st : State)
    → (from_total env p base_fee v st).1 ≡ st
unfolding from_total
from_total-reads env p base_fee v st = ground (arith, native_total-reads env p base_fee v st)

pub check_unmap_from-reads :
    (env : Env) (p : TransferParams) (chain_id : ℕ) (st : State)
    → (check_unmap_from env p chain_id st).1 ≡ st
unfolding check_unmap_from
check_unmap_from-reads env p chain_id st = elim (Result-cases (positive_amount p.amount_text)) [
  | inl (v, e) ↦ elim (Result-cases (tip_header env st)) [
    | inl (header, f) ↦ ground (
      arith,
      from_token-reads env p chain_id v st,
      from_total-reads env p header.base_fee_per_gas v st,
    )
    | inr (x, f) ↦ ground arith
  ]
  | inr (x, e) ↦ ground arith
]

-- The debit of a withdrawal on behalf of an owner: on the native path the amount, with the fee of the
-- transaction on top unless the request takes it out of the amount, and covered by the owner; for a
-- token the amount.
pub record FromDebit (env : Env) (p : TransferParams) (st : State) (plan : FromPlan) : Type 0 where
  pub header : EthBlockHeader
  pub tip : tip_header env st ≡ ok header
  pub cap : ℕ
  pub fee : ℤ
  pub by_path :
      ((is_native p ≡ true)
        × (safe_gas_fee eth_transfer_gas header.base_fee_per_gas 2 gas_tip_cap ≡ ok (cap, fee))
        × (plan.total_deduct ≡ (if p.deduct_fee then plan.amount else plan.amount +ℤ fee))
        × (plan.total_deduct ≤ℤ get_balance st p.from_account (bytes "eth")))
      ⊎ ((is_native p ≡ false) × (plan.total_deduct ≡ plan.amount))

native_total-ok :
    (env : Env) (p : TransferParams) (base_fee : ℕ) (v : ℤ) (st : State) {total : ℤ}
    → (native_total env p base_fee v st).0 ≡ ok total
    → (priced : ℕ × ℤ) × (safe_gas_fee eth_transfer_gas base_fee 2 gas_tip_cap ≡ ok priced)
      × (total ≡ (if p.deduct_fee then v else v +ℤ priced.1))
      × (total ≤ℤ get_balance st p.from_account (bytes "eth"))
unfolding native_total
native_total-ok env p base_fee v st h =
    elim (Result-cases (safe_gas_fee eth_transfer_gas base_fee 2 gas_tip_cap)) [
      | inl (priced, f) ↦ (priced, f, ground arith, ground arith)
      | inr (x, f) ↦ absurd (ground arith)
    ]

pub check_unmap_from-FromDebit :
    (env : Env) (p : TransferParams) (chain_id : ℕ) (st : State) (plan : FromPlan)
    → (check_unmap_from env p chain_id st).0 ≡ ok plan
    → (positive_amount p.amount_text ≡ ok plan.amount)
      × (plan.allowance ≡ get_allowance st p.from_account env.caller p.asset)
      × (plan.amount ≤ℤ plan.allowance)
      × FromDebit env p st plan
unfolding check_unmap_from from_total
check_unmap_from-FromDebit env p chain_id st plan h =
    elim (Result-cases (positive_amount p.amount_text)) [
      | inr (x, e) ↦ absurd (ground arith)
      | inl (v, e) ↦ elim (Result-cases (tip_header env st)) [
        | inr (x, f) ↦ absurd (ground arith)
        | inl (header, f) ↦
            let amount : plan.amount ≡ v = ground (arith, from_token-reads env p chain_id v st) in
            (
              cc (e, amount),
              ground (arith, from_token-reads env p chain_id v st),
              ground (arith, from_token-reads env p chain_id v st),
              elim (Bool-cases (is_native p)) [
                | inl native ↦
                    let total : (native_total env p header.base_fee_per_gas v st).0
                        ≡ ok plan.total_deduct =
                      ground (arith, from_token-reads env p chain_id v st) in
                    let (priced, g, sum, covered) =
                      native_total-ok env p header.base_fee_per_gas v st total in
                    record {
                      header = header;
                      tip = f;
                      cap = priced.0;
                      fee = priced.1;
                      by_path = inl (native, g, rw amount sum, covered);
                    }
                | inr token_path ↦ record {
                  header = header;
                  tip = f;
                  cap = 0;
                  fee = pos 0;
                  by_path = inr (token_path, ground (arith, from_token-reads env p chain_id v st));
                }
              ],
            )
      ]
    ]
