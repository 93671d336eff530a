-- ===== src/Exports/Calls.antt =====
-- contract/main.go: the exported functions. An input is the pointer that the host hands over, which
-- may be nil. An error aborts the call, and with it what it has written.
use account_mapping.Prelude.{
  String, ℕ, Bool, true, false, not, Option, none, some, [], Bytes, bytes, eqb, if◌then◌else◌,
}
use account_mapping.Result.{present, input, invalid_hex, initialization, no_permission}
use account_mapping.Host.State.{State, Env}
use account_mapping.Host.Action.{Action, lift, gets, modify, fail_if, pure, exported, ◌>>=◌, ◌>>◌}
use account_mapping.Admin.Proposals
use account_mapping.Admin.Proposals.{decode_payload_hex, execute_validated, load_proposal}
use account_mapping.Chain.Blocks.{handle_add_blocks}
use account_mapping.Mapping.Transfers.{
  handle_transfer, handle_transfer_from, handle_approve, handle_increase_allowance,
  handle_decrease_allowance,
}
use account_mapping.Mapping.Deposits.{handle_map}
use account_mapping.Mapping.Unmap.{handle_unmap_eth, handle_unmap_erc20}
use account_mapping.Mapping.UnmapFrom.{handle_unmap_from}
use account_mapping.Mapping.Confirm.{handle_confirm_spend}
use account_mapping.Mapping.Lifecycle.{handle_expire_withdrawal, handle_cancel_my_withdrawal}
use account_mapping.Exports.Payloads.{Json, ProposeRequest}
use account_mapping.Exports.Access.{
  wrapping, get_vault, get_chain_id, unmarshal_params, check_owner, check_oracle_account, is_owner,
}
use account_mapping.Exports.Dispatch.{dispatch_admin}

abbrev pub is_initialized : State → Bool
is_initialized st = elim st.init_marker [ none ↦ false | some m ↦ eqb m (bytes "1") ]

-- `input == nil || *input == ""`
abbrev pub is_blank : Option Bytes → Bool
is_blank none = true
is_blank (some s) = eqb s []

-- The text at the pointer, where it is not nil.
abbrev pub text_of : Option Bytes → Bytes
text_of none = []
text_of (some s) = s

abbrev confirm_spend_schema_json : String
confirm_spend_schema_json =
    "{\"version\":1,\"type\":\"ConfirmSpendRequest\",\"fields\":[{\"name\":\"block_height\",\"type\":\"uint64\"},{\"name\":\"tx_index\",\"type\":\"uint64\"},{\"name\":\"tx_hex\",\"type\":\"hex\"},{\"name\":\"tx_proof_hex\",\"type\":\"hex\"},{\"name\":\"receipt_hex\",\"type\":\"hex\"},{\"name\":\"receipt_proof_hex\",\"type\":\"hex\"},{\"name\":\"intent_nonce\",\"type\":\"uint64\"},{\"name\":\"intent_to\",\"type\":\"string\"},{\"name\":\"intent_amount\",\"type\":\"string\"},{\"name\":\"intent_asset\",\"type\":\"string\"}]}"

module _ (env : Env) (decoder : Json) where
  unfoldable pub init_contract : Option Bytes → Action (Option Bytes)
  unfolding is_owner
  init_contract payload = exported (do
    initialized ← gets is_initialized
    fail_if initialized initialization "contract already initialized"
    fail_if (not (is_owner env)) no_permission "initContract requires deployer"
    let testnet = if is_blank payload then false else decoder.is_testnet (text_of payload)
    modify (λ st. record st { oracle_account = some env.caller })
    modify (λ st. if testnet then record st { is_testnet = some (bytes "true") } else st)
    modify (λ st. record st { init_marker = some (bytes "1") })
    pure none)

  unfoldable pub map_deposit : Option Bytes → Action (Option Bytes)
  unfolding unmarshal_params get_vault get_chain_id wrapping
  map_deposit payload = exported (do
    p ← lift (unmarshal_params decoder.map_params payload)
    vault ← gets get_vault
    chain_id ← gets get_chain_id
    wrapping (handle_map env p vault chain_id)
    pure none)

  unfoldable pub unmap_eth : Option Bytes → Action (Option Bytes)
  unfolding unmarshal_params get_vault get_chain_id wrapping
  unmap_eth payload = exported (do
    p ← lift (unmarshal_params decoder.transfer_params payload)
    vault ← gets get_vault
    chain_id ← gets get_chain_id
    handle_unmap_eth env p vault chain_id
    pure none)

  unfoldable pub unmap_erc20 : Option Bytes → Action (Option Bytes)
  unfolding unmarshal_params get_vault get_chain_id wrapping
  unmap_erc20 payload = exported (do
    p ← lift (unmarshal_params decoder.transfer_params payload)
    vault ← gets get_vault
    chain_id ← gets get_chain_id
    handle_unmap_erc20 env p vault chain_id
    pure none)

  unfoldable pub confirm_spend : Option Bytes → Action (Option Bytes)
  unfolding unmarshal_params get_vault get_chain_id wrapping
  confirm_spend payload = exported (do
    p ← lift (unmarshal_params decoder.confirm_spend_request payload)
    chain_id ← gets get_chain_id
    wrapping (handle_confirm_spend env p chain_id)
    pure none)

  unfoldable pub transfer : Option Bytes → Action (Option Bytes)
  unfolding unmarshal_params get_vault get_chain_id wrapping
  transfer payload = exported (do
    p ← lift (unmarshal_params decoder.transfer_params payload)
    handle_transfer env p
    pure none)

  unfoldable pub transfer_from : Option Bytes → Action (Option Bytes)
  unfolding unmarshal_params get_vault get_chain_id wrapping
  transfer_from payload = exported (do
    p ← lift (unmarshal_params decoder.transfer_params payload)
    handle_transfer_from env p
    pure none)

  unfoldable pub approve : Option Bytes → Action (Option Bytes)
  unfolding unmarshal_params get_vault get_chain_id wrapping
  approve payload = exported (do
    p ← lift (unmarshal_params decoder.allowance_params payload)
    handle_approve env p
    pure none)

  unfoldable pub unmap_from : Option Bytes → Action (Option Bytes)
  unfolding unmarshal_params get_vault get_chain_id wrapping
  unmap_from payload = exported (do
    p ← lift (unmarshal_params decoder.transfer_params payload)
    vault ← gets get_vault
    chain_id ← gets get_chain_id
    handle_unmap_from env p vault chain_id
    pure none)

  unfoldable pub increase_allowance : Option Bytes → Action (Option Bytes)
  unfolding unmarshal_params get_vault get_chain_id wrapping
  increase_allowance payload = exported (do
    p ← lift (unmarshal_params decoder.allowance_params payload)
    handle_increase_allowance env p
    pure none)

  unfoldable pub decrease_allowance : Option Bytes → Action (Option Bytes)
  unfolding unmarshal_params get_vault get_chain_id wrapping
  decrease_allowance payload = exported (do
    p ← lift (unmarshal_params decoder.allowance_params payload)
    handle_decrease_allowance env p
    pure none)

  unfoldable pub get_info : Option Bytes → Action (Option Bytes)
  get_info payload =
      pure (some (bytes "{\"name\":\"Ether\",\"symbol\":\"ETH\",\"decimals\":\"18\"}"))

  unfoldable pub add_blocks : Option Bytes → Action (Option Bytes)
  unfolding check_oracle_account unmarshal_params get_chain_id wrapping
  add_blocks payload = exported (do
    check_oracle_account env
    p ← lift (unmarshal_params decoder.add_blocks_params payload)
    chain_id ← gets get_chain_id
    wrapping (handle_add_blocks env p.blocks chain_id)
    pure none)

  abbrev pub propose_request_of : Option Bytes → ProposeRequest
  propose_request_of none = record { action = []; payload_hex = [] }
  propose_request_of (some s) = decoder.propose_request s

  abbrev pub id_of : Option Bytes → ℕ
  id_of none = 0
  id_of (some s) = (decoder.id_request s).proposal_id

  -- The height after which the stored proposal is executed; 0 where there is none.
  abbrev pub exec_height_of : ℕ → State → ℕ
  exec_height_of id st = elim (load_proposal st id) [ none ↦ 0 | some pp ↦ pp.exec_height ]

  unfoldable pub propose : Option Bytes → Action (Option Bytes)
  unfolding check_owner wrapping
  propose payload = exported (do
    check_owner env
    let req = propose_request_of payload
    bytes_of_hex ←
        lift (present (decode_payload_hex req.payload_hex) invalid_hex "payload_hex invalid")
    id ← wrapping (Proposals.propose env req.action bytes_of_hex env.caller env.block_height)
    exec_height ← gets (exec_height_of id)
    pure (some (decoder.propose_response (record { proposal_id = id; exec_height = exec_height }))))

  unfoldable pub execute : Option Bytes → Action (Option Bytes)
  unfolding check_owner wrapping
  execute payload = exported (do
    check_owner env
    pp ← wrapping (execute_validated env (id_of payload) env.block_height)
    dispatch_admin env decoder pp.action pp.payload
    pure none)

  unfoldable pub cancel : Option Bytes → Action (Option Bytes)
  unfolding check_owner wrapping
  cancel payload =
      exported (do check_owner env; wrapping (Proposals.cancel env (id_of payload)); pure none)

  unfoldable pub expire_proposal : Option Bytes → Action (Option Bytes)
  unfolding wrapping
  expire_proposal payload =
      exported
        (do wrapping (Proposals.expire_proposal env (id_of payload) env.block_height); pure none)

  unfoldable pub expire_withdrawal : Option Bytes → Action (Option Bytes)
  unfolding get_chain_id wrapping
  expire_withdrawal payload = exported (do
    fail_if (is_blank payload) input "expireWithdrawal: empty payload"
    p ← lift (
        present (decoder.expire_withdrawal_params (text_of payload)) input
          "expireWithdrawal: bad payload")
    chain_id ← gets get_chain_id
    wrapping (handle_expire_withdrawal env p.nonce p.proof chain_id)
    pure none)

  unfoldable pub cancel_my_withdrawal : Option Bytes → Action (Option Bytes)
  unfolding get_vault get_chain_id wrapping
  cancel_my_withdrawal payload = exported (do
    fail_if (is_blank payload) input "cancelMyWithdrawal: empty payload"
    p ← lift (
        present (decoder.cancel_my_withdrawal_params (text_of payload)) input
          "cancelMyWithdrawal: bad payload")
    vault ← gets get_vault
    chain_id ← gets get_chain_id
    wrapping (handle_cancel_my_withdrawal env p.nonce p.proof vault chain_id)
    pure none)

  -- `ConfirmSpendSchemaJSON` of contract/mapping/handlers.go
  unfoldable pub confirm_spend_schema : Option Bytes → Action (Option Bytes)
  confirm_spend_schema payload = pure (some (bytes confirm_spend_schema_json))

-- The exported functions.
pub data Export : Type 0 where
  initialize deposit withdraw_eth withdraw_erc20 confirm send send_from allow withdraw_from
        allow_more allow_less info ingest propose_action execute_action cancel_action expire_action
        expire_spend cancel_spend spend_schema :
      Export

unfoldable pub call : Env → Json → Export → Option Bytes → Action (Option Bytes)
call env decoder initialize = init_contract env decoder
call env decoder deposit = map_deposit env decoder
call env decoder withdraw_eth = unmap_eth env decoder
call env decoder withdraw_erc20 = unmap_erc20 env decoder
call env decoder confirm = confirm_spend env decoder
call env decoder send = transfer env decoder
call env decoder send_from = transfer_from env decoder
call env decoder allow = approve env decoder
call env decoder withdraw_from = unmap_from env decoder
call env decoder allow_more = increase_allowance env decoder
call env decoder allow_less = decrease_allowance env decoder
call env decoder info = get_info env decoder
call env decoder ingest = add_blocks env decoder
call env decoder propose_action = propose env decoder
call env decoder execute_action = execute env decoder
call env decoder cancel_action = cancel env decoder
call env decoder expire_action = expire_proposal env decoder
call env decoder expire_spend = expire_withdrawal env decoder
call env decoder cancel_spend = cancel_my_withdrawal env decoder
call env decoder spend_schema = confirm_spend_schema env decoder
