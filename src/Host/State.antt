-- ===== src/Host/State.antt =====
-- The contract's key-value storage, a field for each prefix of contract/constants/constants.go,
-- with the records that are stored under them; and what the host gives to a call.
-- Balances, allowances, the gas reserve, the last height and the token registry are texts, as in
-- the storage; the pipe-separated supplies, the JSON records and the counters are their values.
use account_mapping.Prelude.{
  ℕ, ◌+◌, ◌%◌, ◌^◌, Option, none, some, List, Bytes, ℤ, eqb, ◌==◌, if◌then◌else◌,
}

-- contract/mapping/supply.go
pub record Supply : Type 0 where
  pub active : ℤ
  pub user : ℤ
  pub fee : ℤ
  pub base_fee : ℕ

-- contract/mapping/withdrawal.go
pub record PendingSpend : Type 0 where
  pub nonce : ℕ
  pub amount : ℤ
  pub from_account : Bytes
  pub to_address : Bytes
  pub asset : Bytes
  pub unsigned_tx_hex : Bytes
  pub block_height : ℕ
  pub vault_at_queue : Bytes
  pub token_address : Bytes
  pub gas_cost : Option ℤ

-- contract/admin/proposals.go
pub data Status : Type 0 where
  pending accepted cancelled expired : Status

pub record PendingProposal : Type 0 where
  pub proposal_id : ℕ
  pub action : Bytes
  pub payload_hash : Bytes
  pub proposer : Bytes
  pub queue_height : ℕ
  pub exec_height : ℕ
  pub expire_height : ℕ
  pub payload : Bytes
  pub status : Status

-- contract/mapping/types.go
pub record DexInstruction : Type 0 where
  pub asset_in : Bytes
  pub amount_in : Bytes
  pub asset_out : Bytes
  pub recipient : Bytes
  pub destination_chain : Bytes

-- `TssCreateKey(keyId, algo, epochs)` and `TssRenewKey(keyId, additionalEpochs)` of sdk/sdk.go.
pub data KeyRequest : Type 0 where
  create_key : (key_id algo : Bytes) → (epochs : ℕ) → KeyRequest
  renew_key : (key_id : Bytes) → (epochs : ℕ) → KeyRequest

pub record State : Type 0 where
  pub balances : Bytes → Option Bytes  -- a-{address}-{asset}, by what follows `a-`
  pub allowances : Bytes → Option Bytes  -- q-{owner}-{spender}-{asset}
  pub supplies : Bytes → Option Supply  -- s-{asset}
  pub gas_reserve : Option Bytes  -- gr
  pub spends : ℕ → Option PendingSpend  -- d-{nonce}
  pub confirmed_nonce : Option ℕ  -- n
  pub pending_nonce : Option ℕ  -- np
  pub observed : ℕ → Option Bytes  -- o-{height}
  pub headers : ℕ → Option Bytes  -- b-{height}
  pub last_height : Option Bytes  -- h
  pub tokens : ℕ → Bytes → Option Bytes  -- t-{chain}-{address}
  pub relayers : Bytes → Option Bytes  -- rl-{account}
  pub paused : Option Bytes  -- paused
  pub router_id : Option Bytes  -- routerid
  pub vault : Option Bytes  -- vault
  pub chain_id : Option Bytes  -- chainid
  pub verifier_id : Option Bytes  -- zkverifier
  pub is_testnet : Option Bytes  -- is_testnet
  pub proposal_counter : Option ℕ  -- proposal_next_id
  pub proposals : ℕ → Option PendingProposal  -- pr-{id}
  pub signed : List Bytes  -- the hashes given to TssSignKey, the last one first
  pub init_marker : Option Bytes  -- init
  pub oracle_account : Option Bytes  -- oracle_account
  pub public_key : Option Bytes  -- pubkey
  pub key_requests : List KeyRequest  -- what TssCreateKey and TssRenewKey asked for, the last first

-- The environment of one call and the functions of the host, which are parameters: `keccak256`,
-- the two recoveries, the state of the TSS key, a call of another contract (which may call this
-- one back, so it takes and returns the storage), and the storage of the verifier contract.
pub record Env : Type 0 where
  pub caller : Bytes
  pub owner : Option Bytes  -- GetEnvKey("contract.owner")
  pub contract_id : Bytes
  pub block_height : ℕ
  pub keccak256 : Bytes → Bytes
  pub ecrecover_strict : Bytes → Bytes → Option Bytes
  pub ecrecover_canonical : Bytes → Bytes → Option Bytes
  pub tss_key : Bytes
  pub contract_call : Bytes → DexInstruction → State → Option Bytes × State
  pub verifier_header : Bytes → ℕ → Option Bytes
  pub verifier_height : Bytes → Option Bytes

-- `StateSetObject` and `StateDeleteObject` under one prefix.
abbrev pub set_at {ℓ} : {V : Type ℓ} → Bytes → V → (Bytes → Option V) → Bytes → Option V
set_at k v f j = if eqb k j then some v else f j

abbrev pub delete_at {ℓ} : {V : Type ℓ} → Bytes → (Bytes → Option V) → Bytes → Option V
delete_at k f j = if eqb k j then none else f j

abbrev pub set_num {ℓ} : {V : Type ℓ} → ℕ → V → (ℕ → Option V) → ℕ → Option V
set_num k v f j = if k == j then some v else f j

abbrev pub delete_num {ℓ} : {V : Type ℓ} → ℕ → (ℕ → Option V) → ℕ → Option V
delete_num k f j = if k == j then none else f j

-- Addition of uint64.
abbrev pub add64 : ℕ → ℕ → ℕ
add64 a b = (a + b) % 2 ^ 64
