-- ===== src/Exports/Payloads.antt =====
-- The payloads of the exported functions (contract/main.go, contract/admin/proposals.go,
-- contract/mapping/types.go), and the decoders of encoding/json, which are parameters.
use account_mapping.Prelude.{ℕ, Bool, Option, List, Bytes, ℤ}
use account_mapping.Chain.Blocks.{AddBlockEntry}
use account_mapping.Mapping.Transfers.{TransferParams, AllowanceParams}
use account_mapping.Mapping.Deposits.{MapParams}
use account_mapping.Mapping.Confirm.{ConfirmSpendRequest}
use account_mapping.Mapping.Lifecycle.{L1ProofOfDrop}

pub record AddBlocksParams : Type 0 where
  pub blocks : List AddBlockEntry
  pub latest_fee : ℕ

pub record ProposeRequest : Type 0 where
  pub action : Bytes
  pub payload_hex : Bytes

pub record ProposeResponse : Type 0 where
  pub proposal_id : ℕ
  pub exec_height : ℕ

pub record IdRequest : Type 0 where
  pub proposal_id : ℕ

pub record ExpireWithdrawalParams : Type 0 where
  pub nonce : ℕ
  pub proof : L1ProofOfDrop

pub record CancelMyWithdrawalParams : Type 0 where
  pub nonce : ℕ
  pub proof : L1ProofOfDrop

pub record ClearNonceParams : Type 0 where
  pub proof : L1ProofOfDrop

pub record RegisterTokenParams : Type 0 where
  pub address : Bytes
  pub symbol : Bytes
  pub decimals : ℕ
  pub min_withdrawal : ℤ

-- `json.Unmarshal` into each type: `none` where it returns an error. Three payloads are read with
-- the error ignored: for them it is what the call leaves in the zero value. The last one is
-- `json.Marshal` of the response of `propose`.
pub record Json : Type 0 where
  pub map_params : Bytes → Option MapParams
  pub transfer_params : Bytes → Option TransferParams
  pub allowance_params : Bytes → Option AllowanceParams
  pub confirm_spend_request : Bytes → Option ConfirmSpendRequest
  pub add_blocks_params : Bytes → Option AddBlocksParams
  pub add_block_entry : Bytes → Option AddBlockEntry
  pub expire_withdrawal_params : Bytes → Option ExpireWithdrawalParams
  pub cancel_my_withdrawal_params : Bytes → Option CancelMyWithdrawalParams
  pub clear_nonce_params : Bytes → Option ClearNonceParams
  pub register_token_params : Bytes → Option RegisterTokenParams
  pub contract_id : Bytes → Option Bytes
  pub account : Bytes → Option Bytes
  pub string_literal : Bytes → Option Bytes
  pub is_testnet : Bytes → Bool
  pub propose_request : Bytes → ProposeRequest
  pub id_request : Bytes → IdRequest
  pub propose_response : ProposeResponse → Bytes
