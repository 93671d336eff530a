-- ===== src/Exports/Config.antt =====
-- What a call leaves of the configuration: the keys of contract/constants/constants.go that the admin
-- actions and `initContract` of contract/main.go set.
pub mod Handlers
pub mod Calls
use account_mapping.Prelude.{
  ℕ, Bool, true, false, Option, none, some, List, [], ◌∷◌, Bytes, bytes, ◌≡◌, refl, ◌∙◌, sym, ap,
  arith, String, ℤ,
}
use account_mapping.Result.{Result, ok, err, Error, Symbol}
use account_mapping.Host.State.{State, Env, Supply, PendingSpend, DexInstruction}
use account_mapping.Host.Action.{Action, lift, gets, modify, fail_if, pure, exported, ◌>>=◌, ◌>>◌}
use account_mapping.Chain.Header.{EthBlockHeader, store_header, delete_header, set_last_height}
use account_mapping.Chain.Blocks.{prune}
use account_mapping.Mapping.Balance.{inc_balance, dec_balance, set_balance, set_allowance}
use account_mapping.Mapping.Supply.{set_supply, track_deposit, track_withdrawal, restore_supply}
use account_mapping.Mapping.Gas.{add_gas_reserve, deduct_gas_reserve, set_gas_reserve}
use account_mapping.Mapping.Observed.{mark_observed}
use account_mapping.Mapping.Registry.{tss_sign}
use account_mapping.Mapping.Withdrawal.{
  set_confirmed_nonce, set_pending_nonce, store_pending_spend, delete_pending_spend, nonce_advance,
}
use account_mapping.Mapping.Deposits.{collect_tax, credit}
use account_mapping.Mapping.Confirm.{settle, refund_gas}
use account_mapping.Mapping.Lifecycle.{
  refund_and_close, delete_spends, delete_observed, clear_testnet, sign_self_transfer,
}

pub record Config : Type 0 where
  pub vault : Option Bytes
  pub chain_id : Option Bytes
  pub verifier_id : Option Bytes
  pub router_id : Option Bytes
  pub paused : Option Bytes
  pub relayers : Bytes → Option Bytes
  pub tokens : ℕ → Bytes → Option Bytes
  pub oracle_account : Option Bytes
  pub init_marker : Option Bytes

abbrev pub config : State → Config
config st = record {
  vault = st.vault;
  chain_id = st.chain_id;
  verifier_id = st.verifier_id;
  router_id = st.router_id;
  paused = st.paused;
  relayers = st.relayers;
  tokens = st.tokens;
  oracle_account = st.oracle_account;
  init_marker = st.init_marker;
}

pub config-set_balance :
    (a s : Bytes) (v : ℤ) (st : State) → config (set_balance a s v st) ≡ config st
unfolding set_balance
config-set_balance a s v st = ground arith

pub config-inc_balance :
    (a s : Bytes) (v : ℤ) (st : State) → config (inc_balance a s v st) ≡ config st
unfolding inc_balance set_balance
config-inc_balance a s v st = ground arith

pub config-dec_balance :
    (a s : Bytes) (v : ℤ) (st : State) → config (dec_balance a s v st).1 ≡ config st
unfolding dec_balance set_balance
config-dec_balance a s v st = ground arith

pub config-set_allowance :
    (a b s : Bytes) (v : ℤ) (st : State) → config (set_allowance a b s v st) ≡ config st
unfolding set_allowance
config-set_allowance a b s v st = ground arith

pub config-set_supply :
    (s : Bytes) (v : Supply) (st : State) → config (set_supply s v st) ≡ config st
unfolding set_supply
config-set_supply s v st = ground arith

pub config-track_deposit :
    (s : Bytes) (v w : ℤ) (st : State) → config (track_deposit s v w st) ≡ config st
unfolding track_deposit set_supply
config-track_deposit s v w st = ground arith

pub config-track_withdrawal :
    (s : Bytes) (v : ℤ) (st : State) → config (track_withdrawal s v st).1 ≡ config st
unfolding track_withdrawal set_supply
config-track_withdrawal s v st = ground arith

pub config-restore_supply :
    (s : Bytes) (v : ℤ) (st : State) → config (restore_supply s v st) ≡ config st
unfolding restore_supply set_supply
config-restore_supply s v st = ground arith

pub config-add_gas_reserve : (v : ℤ) (st : State) → config (add_gas_reserve v st) ≡ config st
unfolding add_gas_reserve set_gas_reserve
config-add_gas_reserve v st = ground arith

pub config-deduct_gas_reserve : (v : ℤ) (st : State) → config (deduct_gas_reserve v st) ≡ config st
unfolding deduct_gas_reserve set_gas_reserve
config-deduct_gas_reserve v st = ground arith

pub config-tss_sign : (h : Bytes) (st : State) → config (tss_sign h st) ≡ config st
unfolding tss_sign
config-tss_sign h st = ground arith

pub config-mark_observed :
    (n : ℕ) (h : Bytes) (k : ℕ) (st : State) → config (mark_observed n h k st) ≡ config st
unfolding mark_observed
config-mark_observed n h k st = ground arith

pub config-set_confirmed_nonce :
    (n : ℕ) (st : State) → config (set_confirmed_nonce n st) ≡ config st
unfolding set_confirmed_nonce
config-set_confirmed_nonce n st = ground arith

pub config-set_pending_nonce : (n : ℕ) (st : State) → config (set_pending_nonce n st) ≡ config st
unfolding set_pending_nonce
config-set_pending_nonce n st = ground arith

pub config-store_pending_spend :
    (ps : PendingSpend) (st : State) → config (store_pending_spend ps st) ≡ config st
unfolding store_pending_spend
config-store_pending_spend ps st = ground arith

pub config-delete_pending_spend :
    (n : ℕ) (st : State) → config (delete_pending_spend n st) ≡ config st
unfolding delete_pending_spend
config-delete_pending_spend n st = ground arith

pub config-nonce_advance :
    (ps : PendingSpend) (n : ℕ) (st : State) → config (nonce_advance ps n st).1 ≡ config st
unfolding nonce_advance set_confirmed_nonce
config-nonce_advance ps n st = ground arith

pub config-collect_tax : (n : ℕ) (st : State) → config (collect_tax n st) ≡ config st
unfolding collect_tax
config-collect_tax n st = grind (arith, config-add_gas_reserve)

pub config-credit : (a s : Bytes) (v : ℤ) (st : State) → config (credit a s v st) ≡ config st
unfolding credit
config-credit a s v st = grind (arith, config-inc_balance)

pub config-refund_gas : (c : Option ℤ) (st : State) → config (refund_gas c st) ≡ config st
unfolding refund_gas
config-refund_gas c st = grind (arith, config-add_gas_reserve)

pub config-settle :
    (ps : PendingSpend) (c s : ℕ) (st : State) → config (settle ps c s st) ≡ config st
unfolding settle
config-settle ps c s st = grind (
  arith, config-set_confirmed_nonce, config-delete_pending_spend, config-refund_gas,
  config-restore_supply, config-inc_balance,
)

pub config-refund_and_close :
    (ps : PendingSpend) (n : ℕ) (st : State) → config (refund_and_close ps n st) ≡ config st
unfolding refund_and_close
config-refund_and_close ps n st = grind (
  arith, config-nonce_advance, config-delete_pending_spend, config-set_pending_nonce,
  config-restore_supply, config-inc_balance,
)

pub config-store_header : (h : EthBlockHeader) (st : State) → config (store_header h st) ≡ config st
unfolding store_header
config-store_header h st = ground arith

pub config-prune : (env : Env) (n : ℕ) (st : State) → config (prune env n st) ≡ config st
unfolding prune delete_header
config-prune env n st = ground arith

pub config-set_last_height : (n : ℕ) (st : State) → config (set_last_height n st) ≡ config st
unfolding set_last_height
config-set_last_height n st = ground arith

-- The single steps of the handlers.
pub ruleset config_laws = (
  arith, config-set_balance, config-inc_balance, config-dec_balance, config-set_allowance,
  config-set_supply, config-track_deposit, config-track_withdrawal, config-restore_supply,
  config-add_gas_reserve, config-deduct_gas_reserve, config-tss_sign, config-mark_observed,
  config-set_confirmed_nonce, config-set_pending_nonce, config-store_pending_spend,
  config-delete_pending_spend, config-nonce_advance, config-collect_tax, config-credit,
  config-refund_gas, config-settle, config-refund_and_close, config-store_header, config-prune,
  config-set_last_height,
)

-- A handler that leaves the configuration alone, whatever it returns.
abbrev pub Keeps : {A : Type 0} → Action A → Type 0
Keeps m = (st : State) → config (m st).1 ≡ config st

-- A contract that is called back does not own this one: it may call it, but not its admin actions.
abbrev pub CalledKeeps : Env → Type 0
CalledKeeps env =
    (router : Bytes) (i : DexInstruction) (st : State)
    → config (env.contract_call router i st).1 ≡ config st
