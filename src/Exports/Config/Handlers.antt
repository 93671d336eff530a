-- ===== src/Exports/Config/Handlers.antt =====
-- The handlers that anyone may call (contract/mapping/handlers.go, contract/blocklist/blocks.go,
-- contract/admin/proposals.go), and the configuration.
use account_mapping.Prelude.{ℕ, ◌≡◌, refl, List, [], ◌∷◌, Bytes, ℤ, arith}
use account_mapping.Host.State.{State, Env, PendingProposal}
use account_mapping.Admin.Proposals
use account_mapping.Admin.Proposals.{
  store_proposal, bump_counter, pending_proposal, execute_validated,
}
use account_mapping.Chain.Header.{get_last_height}
use account_mapping.Chain.Blocks.{AddBlockEntry, checked_entry, add_entries, handle_add_blocks}
use account_mapping.Mapping.Transfers.{
  TransferParams, AllowanceParams, require_running, debit, handle_transfer, handle_transfer_from,
  handle_approve, handle_increase_allowance, handle_decrease_allowance,
}
use account_mapping.Mapping.Deposits.{
  MapParams, Route, handle_map, map_by_type, map_eth, map_erc20, route, route_deposit, swap_deposit,
}
use account_mapping.Mapping.Unmap.{
  EthPlan, TokenPlan, require_idle, require_gas_reserve, require_tss_key, check_unmap_eth,
  commit_unmap_eth, handle_unmap_eth, check_unmap_erc20, commit_unmap_erc20, handle_unmap_erc20,
}
use account_mapping.Mapping.UnmapFrom.{
  FromPlan, from_token, from_total, check_native, check_token, native_total, check_unmap_from,
  build_unmap_from, commit_unmap_from, handle_unmap_from,
}
use account_mapping.Mapping.Confirm.{ConfirmSpendRequest, check_confirm, handle_confirm_spend}
use account_mapping.Mapping.Lifecycle.{
  L1ProofOfDrop, require_unpaused, spend_at, require_drop, sign_self_transfer,
  handle_expire_withdrawal, handle_cancel_my_withdrawal,
}
use account_mapping.Exports.Config.{config, config_laws, Keeps, CalledKeeps}

pub transfer-Keeps : (env : Env) (p : TransferParams) → Keeps (handle_transfer env p)
unfolding handle_transfer debit require_running
transfer-Keeps env p st = grind (config_laws)

pub transfer_from-Keeps : (env : Env) (p : TransferParams) → Keeps (handle_transfer_from env p)
unfolding handle_transfer_from debit require_running
transfer_from-Keeps env p st = grind (config_laws)

pub approve-Keeps : (env : Env) (p : AllowanceParams) → Keeps (handle_approve env p)
unfolding handle_approve require_running
approve-Keeps env p st = grind (config_laws)

pub increase_allowance-Keeps :
    (env : Env) (p : AllowanceParams) → Keeps (handle_increase_allowance env p)
unfolding handle_increase_allowance require_running
increase_allowance-Keeps env p st = grind (config_laws)

pub decrease_allowance-Keeps :
    (env : Env) (p : AllowanceParams) → Keeps (handle_decrease_allowance env p)
unfolding handle_decrease_allowance require_running
decrease_allowance-Keeps env p st = grind (config_laws)

pub check_eth-Keeps : (env : Env) (p : TransferParams) → Keeps (check_unmap_eth env p)
unfolding check_unmap_eth require_idle require_gas_reserve
check_eth-Keeps env p st = grind (config_laws)

pub commit_eth-Keeps :
    (env : Env) (p : TransferParams) (plan : EthPlan) (vault : Bytes) (chain_id : ℕ)
    → Keeps (commit_unmap_eth env p plan vault chain_id)
unfolding commit_unmap_eth require_tss_key debit
commit_eth-Keeps env p plan vault chain_id st = grind (config_laws)

pub unmap_eth-Keeps :
    (env : Env) (p : TransferParams) (vault : Bytes) (chain_id : ℕ)
    → Keeps (handle_unmap_eth env p vault chain_id)
unfolding handle_unmap_eth
unmap_eth-Keeps env p vault chain_id st = grind (config_laws, check_eth-Keeps, commit_eth-Keeps)

pub check_erc20-Keeps :
    (env : Env) (p : TransferParams) (chain_id : ℕ) → Keeps (check_unmap_erc20 env p chain_id)
unfolding check_unmap_erc20 require_idle require_gas_reserve
check_erc20-Keeps env p chain_id st = grind (config_laws)

pub commit_erc20-Keeps :
    (env : Env) (p : TransferParams) (plan : TokenPlan) (vault : Bytes) (chain_id : ℕ)
    → Keeps (commit_unmap_erc20 env p plan vault chain_id)
unfolding commit_unmap_erc20 require_tss_key debit
commit_erc20-Keeps env p plan vault chain_id st = grind (config_laws)

pub unmap_erc20-Keeps :
    (env : Env) (p : TransferParams) (vault : Bytes) (chain_id : ℕ)
    → Keeps (handle_unmap_erc20 env p vault chain_id)
unfolding handle_unmap_erc20
unmap_erc20-Keeps env p vault chain_id st =
    grind (config_laws, check_erc20-Keeps, commit_erc20-Keeps)

pub from_token-Keeps :
    (env : Env) (p : TransferParams) (chain_id : ℕ) (v : ℤ) → Keeps (from_token env p chain_id v)
unfolding from_token check_native check_token require_gas_reserve
from_token-Keeps env p chain_id v st = grind (config_laws)

pub from_total-Keeps :
    (env : Env) (p : TransferParams) (fee : ℕ) (v : ℤ) → Keeps (from_total env p fee v)
unfolding from_total native_total
from_total-Keeps env p fee v st = grind (config_laws)

pub check_from-Keeps :
    (env : Env) (p : TransferParams) (chain_id : ℕ) → Keeps (check_unmap_from env p chain_id)
unfolding check_unmap_from require_idle require_tss_key
check_from-Keeps env p chain_id st = grind (config_laws, from_token-Keeps, from_total-Keeps)

pub build_from-Keeps :
    (env : Env) (p : TransferParams) (plan : FromPlan) (chain_id nonce : ℕ)
    → Keeps (build_unmap_from env p plan chain_id nonce)
unfolding build_unmap_from
build_from-Keeps env p plan chain_id nonce st = grind (config_laws)

pub commit_from-Keeps :
    (env : Env) (p : TransferParams) (plan : FromPlan) (vault : Bytes) (chain_id : ℕ)
    → Keeps (commit_unmap_from env p plan vault chain_id)
unfolding commit_unmap_from debit
commit_from-Keeps env p plan vault chain_id st = grind (config_laws, build_from-Keeps)

pub unmap_from-Keeps :
    (env : Env) (p : TransferParams) (vault : Bytes) (chain_id : ℕ)
    → Keeps (handle_unmap_from env p vault chain_id)
unfolding handle_unmap_from
unmap_from-Keeps env p vault chain_id st = grind (config_laws, check_from-Keeps, commit_from-Keeps)

pub check_confirm-Keeps :
    (env : Env) (req : ConfirmSpendRequest) (chain_id : ℕ) → Keeps (check_confirm env req chain_id)
unfolding check_confirm require_running
check_confirm-Keeps env req chain_id st = grind (config_laws)

pub confirm_spend-Keeps :
    (env : Env) (req : ConfirmSpendRequest) (chain_id : ℕ)
    → Keeps (handle_confirm_spend env req chain_id)
unfolding handle_confirm_spend
confirm_spend-Keeps env req chain_id st = grind (config_laws, check_confirm-Keeps)

pub expire_withdrawal-Keeps :
    (env : Env) (nonce : ℕ) (proof : L1ProofOfDrop) (chain_id : ℕ)
    → Keeps (handle_expire_withdrawal env nonce proof chain_id)
unfolding handle_expire_withdrawal require_unpaused spend_at require_drop
expire_withdrawal-Keeps env nonce proof chain_id st = grind (config_laws)

pub cancel_my_withdrawal-Keeps :
    (env : Env) (nonce : ℕ) (proof : L1ProofOfDrop) (vault : Bytes) (chain_id : ℕ)
    → Keeps (handle_cancel_my_withdrawal env nonce proof vault chain_id)
unfolding handle_cancel_my_withdrawal require_unpaused spend_at require_drop sign_self_transfer
cancel_my_withdrawal-Keeps env nonce proof vault chain_id st = grind (config_laws)

pub checked_entry-Keeps :
    (env : Env) (entry : AddBlockEntry) (last cid : ℕ) → Keeps (checked_entry env entry last cid)
unfolding checked_entry
checked_entry-Keeps env entry last cid st = grind (config_laws)

pub add_entries-Keeps :
    (env : Env) (es : List AddBlockEntry) (last cid : ℕ) → Keeps (add_entries env es last cid)
unfolding add_entries
add_entries-Keeps env [] last cid st = refl
add_entries-Keeps env (e ∷ es) last cid st =
    let rest = add_entries-Keeps env es e.block_number cid in
    grind (config_laws, checked_entry-Keeps)

pub add_blocks-Keeps :
    (env : Env) (es : List AddBlockEntry) (cid : ℕ) → Keeps (handle_add_blocks env es cid)
unfolding handle_add_blocks
add_blocks-Keeps env es cid st =
    grind (config_laws, add_entries-Keeps env es (get_last_height env st) cid st)

config-store_proposal :
    (pp : PendingProposal) (st : State) → config (store_proposal pp st) ≡ config st
unfolding store_proposal
config-store_proposal pp st = refl

config-bump_counter : (st : State) → config (bump_counter st) ≡ config st
unfolding bump_counter
config-bump_counter st = refl

pub pending_proposal-Keeps : (env : Env) (id : ℕ) → Keeps (pending_proposal env id)
unfolding pending_proposal
pending_proposal-Keeps env id st = grind (config_laws)

pub propose-Keeps :
    (env : Env) (action payload proposer : Bytes) (height : ℕ)
    → Keeps (Proposals.propose env action payload proposer height)
unfolding Proposals.propose
propose-Keeps env action payload proposer height st =
    grind (config_laws, config-store_proposal, config-bump_counter)

pub execute_validated-Keeps : (env : Env) (id height : ℕ) → Keeps (execute_validated env id height)
unfolding execute_validated
execute_validated-Keeps env id height st =
    grind (config_laws, pending_proposal-Keeps, config-store_proposal)

pub cancel-Keeps : (env : Env) (id : ℕ) → Keeps (Proposals.cancel env id)
unfolding Proposals.cancel
cancel-Keeps env id st = grind (config_laws, pending_proposal-Keeps, config-store_proposal)

pub expire_proposal-Keeps :
    (env : Env) (id height : ℕ) → Keeps (Proposals.expire_proposal env id height)
unfolding Proposals.expire_proposal
expire_proposal-Keeps env id height st =
    grind (config_laws, pending_proposal-Keeps, config-store_proposal)

module _ (env : Env) (called : CalledKeeps env) where
  config-swap_deposit :
      (router : Bytes) (r : Route) (asset : Bytes) (amount : ℤ) (st : State)
      → config (swap_deposit env router r asset amount st).1 ≡ config st
  unfolding swap_deposit
  config-swap_deposit router r asset amount st = grind (config_laws, called)

  config-route_deposit :
      (sender : Bytes) (is : List Bytes) (asset : Bytes) (amount : ℤ) (st : State)
      → config (route_deposit env sender is asset amount st).1 ≡ config st
  unfolding route_deposit
  config-route_deposit sender is asset amount st = grind (config_laws, config-swap_deposit)

  route-Keeps :
      (sender : Bytes) (is : List Bytes) (asset : Bytes) (amount : ℤ)
      → Keeps (route env sender is asset amount)
  unfolding route
  route-Keeps sender is asset amount st = config-route_deposit sender is asset amount st

  map_eth-Keeps :
      (p : MapParams) (vault : Bytes) (chain_id : ℕ) → Keeps (map_eth env p vault chain_id)
  unfolding map_eth
  map_eth-Keeps p vault chain_id st = grind (config_laws, route-Keeps)

  map_erc20-Keeps :
      (p : MapParams) (vault : Bytes) (chain_id : ℕ) → Keeps (map_erc20 env p vault chain_id)
  unfolding map_erc20
  map_erc20-Keeps p vault chain_id st = grind (config_laws, route-Keeps)

  pub map-Keeps :
      (p : MapParams) (vault : Bytes) (chain_id : ℕ) → Keeps (handle_map env p vault chain_id)
  unfolding handle_map map_by_type require_running
  map-Keeps p vault chain_id st =
      ground (arith, map_eth-Keeps p vault chain_id st, map_erc20-Keeps p vault chain_id st)
