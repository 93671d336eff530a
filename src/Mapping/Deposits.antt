-- ===== src/Mapping/Deposits.antt =====
-- contract/mapping/handlers.go: `HandleMap` and `routeDeposit`.
pub mod Kept
pub mod Native
pub mod Once
pub mod Tokens
use account_mapping.Prelude.{
  ℕ, ◌*◌, ◌/◌, Bool, true, false, ◌||◌, ◌&&◌, not, Option, none, some, List, [], ◌∷◌, ◌++◌, Bytes,
  bytes, ltb, ◌==◌, if◌then◌else◌, eqb, length, take, drop, ℤ, pos, ◌-ℤ◌,
}
use account_mapping.Codec.Decimal.{big_int_string}
use account_mapping.Codec.Hex.{hex_to_address, zero_address, address_to_did}
use account_mapping.Result.{
  Result, ok, err, present, or_else, contract_error, input, intent, auth, arithmetic,
  initialization,
}
use account_mapping.Rlp.Item.{be_from}
use account_mapping.Host.State.{State, Env, DexInstruction}
use account_mapping.Host.Action.{Action, pure, lift, gets, modify, fail_if, ◌>>=◌, ◌>>◌}
use account_mapping.Mapping.Balance.{inc_balance, dec_balance, set_allowance}
use account_mapping.Mapping.Supply.{track_deposit}
use account_mapping.Mapping.Observed.{mark_observed}
use account_mapping.Mapping.Gas.{add_gas_reserve}
use account_mapping.Mapping.Registry.{TokenInfo, is_whitelisted_relayer, get_token_info}
use account_mapping.Mapping.Proof.{
  VerificationRequest, Deposit, uint16, verify_eth_deposit, verify_erc20_deposit,
}
use account_mapping.Mapping.Transfers.{require_running}

pub record MapParams : Type 0 where
  pub tx_data : VerificationRequest
  pub instructions : List Bytes

-- What the instructions of a deposit say; the last one of a kind counts.
pub record Route : Type 0 where
  pub dest : Bytes
  pub swap_to : Bytes
  pub asset_out : Bytes
  pub dest_chain : Bytes

-- `if len(instr) > n && instr[:n] == prefix { field = instr[n:] }`
unfoldable pub after_prefix : (prefix instr field : Bytes) → Bytes
after_prefix prefix instr field =
    if ltb (length prefix) (length instr) && eqb (take (length prefix) instr) prefix
    then drop (length prefix) instr
    else field

unfoldable pub read_instructions : List Bytes → Route → Route
unfolding after_prefix
read_instructions [] r = r
read_instructions (i ∷ is) r = read_instructions is (record {
  dest = after_prefix (bytes "deposit_to=") i r.dest;
  swap_to = after_prefix (bytes "swap_to=") i r.swap_to;
  asset_out = after_prefix (bytes "asset_out=") i r.asset_out;
  dest_chain = after_prefix (bytes "destination_chain=") i r.dest_chain;
})

unfoldable pub router_of : State → Bytes
router_of st = elim st.router_id [ none ↦ [] | some id ↦ id ]

-- `amount.SetBytes(b)`
abbrev pub set_bytes : Bytes → ℕ
set_bytes b = be_from 0 b

-- `amount * GasReserveDepositTaxBps / 10000`
abbrev pub gas_tax : ℕ → ℕ
gas_tax amount = (amount * 100) / 10000

-- `if gasTax.Sign() > 0 { addGasReserve(gasTax) }`
unfoldable pub collect_tax : ℕ → State → State
collect_tax tax st = if tax == 0 then st else add_gas_reserve (pos tax) st

-- `if dest != "" { IncBalance(dest, asset, amount) }`
unfoldable pub credit : Bytes → Bytes → ℤ → State → State
credit dest asset amount st = if eqb dest [] then st else inc_balance dest asset amount st

module _ (env : Env) where
  abbrev pub self_address : Bytes
  self_address = bytes "contract:" ++ env.contract_id

  -- The swap through the router, which may pull the amount by its allowance; if it answers nothing
  -- the credit is taken back (the result of that is not looked at) and the depositor gets it.
  unfoldable pub swap_deposit : (router : Bytes) → Route → Bytes → ℤ → State → Bytes × State
  swap_deposit router r asset amount st =
      let spender = bytes "contract:" ++ router in
      let before =
        set_allowance self_address spender asset amount
          (inc_balance self_address asset amount st) in
      let answer =
        env.contract_call router
          (record {
            asset_in = asset;
            amount_in = big_int_string amount;
            asset_out = r.asset_out;
            recipient = r.swap_to;
            destination_chain = r.dest_chain;
          })
          before in
      let after = set_allowance self_address spender asset (pos 0) answer.1 in
      elim answer.0 [
        | none ↦ (r.dest, (dec_balance self_address asset amount after).1)
        | some _ ↦ ([], after)
      ]

  -- The account to credit, "" if the router took the deposit.
  unfoldable pub route_deposit :
      (sender : Bytes) → List Bytes → (asset : Bytes) → ℤ → State → Bytes × State
  unfolding read_instructions router_of
  route_deposit sender instructions asset amount st =
      let r = read_instructions instructions (record {
        dest = address_to_did sender 1;
        swap_to = [];
        asset_out = [];
        dest_chain = [];
      }) in
      if eqb r.swap_to [] || eqb r.asset_out []
      then (r.dest, st)
      else if eqb (router_of st) []
      then (r.dest, st)
      else swap_deposit (router_of st) r asset amount st

  unfoldable pub route : (sender : Bytes) → List Bytes → (asset : Bytes) → ℤ → Action Bytes
  route sender instructions asset amount st =
      let result = route_deposit sender instructions asset amount st in (ok result.0, result.1)

  -- The case "eth". The deposit is routed whole; a hundredth of it goes to the gas reserve.
  unfoldable pub map_eth : MapParams → (vault : Bytes) → (chain_id : ℕ) → Action (Unit {0})
  map_eth p vault chain_id = do
    listed ← gets (λ st. is_whitelisted_relayer st env.caller)
    fail_if (not listed) auth "native ETH deposit: caller is not a whitelisted relayer"
    verified ← gets (λ st. verify_eth_deposit env st p.tx_data vault chain_id)
    deposit ← lift verified
    let amount = set_bytes deposit.amount_bytes
    fail_if (amount == 0) input "deposit amount must be positive"
    dest ← route deposit.sender p.instructions (bytes "eth") (pos amount)
    let tax = gas_tax amount
    modify (collect_tax tax)
    modify (credit dest (bytes "eth") (pos amount -ℤ pos tax))
    modify (track_deposit (bytes "eth") (pos amount -ℤ pos tax) (pos tax))
    modify (mark_observed p.tx_data.block_height deposit.tx_hash (uint16 p.tx_data.tx_index))

  -- The case "erc20".
  unfoldable pub map_erc20 : MapParams → (vault : Bytes) → (chain_id : ℕ) → Action (Unit {0})
  map_erc20 p vault chain_id = do
    token ← lift (hex_to_address p.tx_data.token_address)
    registered ← gets (λ st. get_token_info st chain_id token)
    info ← lift (present registered input "token not registered")
    verified ← gets (λ st. verify_erc20_deposit env st p.tx_data vault token chain_id)
    deposit ← lift verified
    let amount = set_bytes deposit.amount_bytes
    fail_if (amount == 0) arithmetic "deposit amount invalid"
    dest ← route deposit.sender p.instructions info.symbol (pos amount)
    modify (credit dest info.symbol (pos amount))
    modify (track_deposit info.symbol (pos amount) (pos 0))
    modify (mark_observed p.tx_data.block_height deposit.tx_hash (uint16 p.tx_data.log_index))

  -- The switch on the kind of deposit.
  unfoldable pub map_by_type : MapParams → (vault : Bytes) → (chain_id : ℕ) → Action (Unit {0})
  unfolding map_eth map_erc20
  map_by_type p vault chain_id =
      if eqb p.tx_data.deposit_type (bytes "eth")
      then map_eth p vault chain_id
      else if eqb p.tx_data.deposit_type (bytes "erc20")
      then map_erc20 p vault chain_id
      else lift (err (contract_error input "deposit_type must be 'eth' or 'erc20'"))

  unfoldable pub handle_map : MapParams → (vault : Bytes) → (chain_id : ℕ) → Action (Unit {0})
  unfolding require_running map_by_type
  handle_map p vault chain_id = do
    require_running
    fail_if (eqb vault zero_address) initialization "vault address not configured"
    map_by_type p vault chain_id
