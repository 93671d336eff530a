-- ===== src/Exports/Dispatch.antt =====
-- contract/main.go: `dispatchAdmin`, which carries out a proposal that was executed. The action is
-- read into a constructor for each case of the switch.
use account_mapping.Prelude.{
  Bool, true, false, Option, none, some, List, [], ◌∷◌, Bytes, bytes, eqb, ltb, if◌then◌else◌,
}
use account_mapping.Result.{input}
use account_mapping.Host.State.{Env, create_key, renew_key}
use account_mapping.Host.Action.{Action, lift, gets, modify, fail_if, ◌>>=◌, ◌>>◌}
use account_mapping.Chain.Header.{get_last_height}
use account_mapping.Chain.Blocks.{handle_seed_block, handle_replace_block}
use account_mapping.Mapping.Registry.{register_token, set_relayer, unset_relayer}
use account_mapping.Mapping.Lifecycle.{
  handle_replace_withdrawal, handle_clear_nonce, handle_clear_testnet_state,
}
use account_mapping.Exports.Payloads.{Json}
use account_mapping.Exports.AdminPayloads.{
  decode_address_payload, account_payload, verifier_payload, entry_payload, proof_payload,
  token_payload,
}
use account_mapping.Exports.Access.{wrapping, get_vault, get_chain_id, assert_not_paused}

pub data AdminAction : Type 0 where
  set_vault set_verifier_contract create_primary renew_primary register_public_key replace_block
        replace_withdrawal clear_nonce register_admin_token register_router set_gas_reserve
        seed_blocks set_oracle_account register_relayer deregister_relayer clear_testnet_state pause
        unpause :
      AdminAction

-- The names of the cases, in the order of the switch.
abbrev pub admin_actions : List (Bytes × AdminAction)
admin_actions =
    (bytes "setVault", set_vault)
    ∷ (bytes "setVerifierContract", set_verifier_contract)
    ∷ (bytes "createKey", create_primary)
    ∷ (bytes "renewKey", renew_primary)
    ∷ (bytes "registerPublicKey", register_public_key)
    ∷ (bytes "replaceBlock", replace_block)
    ∷ (bytes "replaceWithdrawal", replace_withdrawal)
    ∷ (bytes "clearNonce", clear_nonce)
    ∷ (bytes "registerToken", register_admin_token)
    ∷ (bytes "registerRouter", register_router)
    ∷ (bytes "setGasReserve", set_gas_reserve)
    ∷ (bytes "seedBlocks", seed_blocks)
    ∷ (bytes "setOracleAccount", set_oracle_account)
    ∷ (bytes "registerRelayer", register_relayer)
    ∷ (bytes "deregisterRelayer", deregister_relayer)
    ∷ (bytes "clearTestnetState", clear_testnet_state)
    ∷ (bytes "pause", pause)
    ∷ (bytes "unpause", unpause)
    ∷ []

abbrev pub find_action : Bytes → List (Bytes × AdminAction) → Option AdminAction
find_action name [] = none
find_action name ((n, a) ∷ rest) = if eqb name n then some a else find_action name rest

unfoldable pub action_named : Bytes → Option AdminAction
action_named name = find_action name admin_actions

-- What every case but the emergency ones checks first.
abbrev pub is_emergency : AdminAction → Bool
is_emergency pause = true
is_emergency unpause = true
is_emergency _ = false

module _ (env : Env) (decoder : Json) where
  -- The bodies of the cases, behind `assertNotPaused`.
  unfoldable pub run_admin : AdminAction → (payload : Bytes) → Action (Unit {0})
  unfolding get_vault get_chain_id wrapping
  run_admin set_vault payload = do
    addr ← lift (decode_address_payload decoder payload)
    modify (λ st. record st { vault = some addr })
  run_admin set_verifier_contract payload = do
    id ← lift (verifier_payload decoder payload)
    modify (λ st. record st { verifier_id = some id })
  run_admin create_primary payload = modify (λ st. record st {
    key_requests = create_key (bytes "primary") (bytes "ecdsa") 365 ∷ st.key_requests;
  })
  run_admin renew_primary payload =
      modify (λ st. record st { key_requests = renew_key (bytes "primary") 365 ∷ st.key_requests })
  run_admin register_public_key payload = modify (λ st. record st { public_key = some payload })
  run_admin replace_block payload = do
    entry ← lift (entry_payload decoder "replaceBlock: bad payload" payload)
    chain_id ← gets get_chain_id
    wrapping (handle_replace_block env entry chain_id)
  run_admin replace_withdrawal payload = do
    chain_id ← gets get_chain_id
    wrapping (handle_replace_withdrawal env chain_id)
  run_admin clear_nonce payload = do
    proof ← lift (proof_payload decoder payload)
    vault ← gets get_vault
    chain_id ← gets get_chain_id
    wrapping (handle_clear_nonce env vault chain_id proof)
  run_admin register_admin_token payload = do
    (p, addr) ← lift (token_payload decoder payload)
    chain_id ← gets get_chain_id
    modify (register_token chain_id addr p.symbol p.decimals p.min_withdrawal)
  run_admin register_router payload = modify (λ st. record st { router_id = some payload })
  run_admin set_gas_reserve payload = modify (λ st. record st { gas_reserve = some payload })
  run_admin seed_blocks payload = do
    last ← gets (get_last_height env)
    fail_if (ltb 0 last) input "seedBlocks only allowed when h=0"
    entry ← lift (entry_payload decoder "seedBlocks: bad payload" payload)
    chain_id ← gets get_chain_id
    wrapping (handle_seed_block env entry chain_id)
  run_admin set_oracle_account payload = do
    account ← lift (account_payload decoder "setOracleAccount" payload)
    modify (λ st. record st { oracle_account = some account })
  run_admin register_relayer payload = do
    account ← lift (account_payload decoder "registerRelayer" payload)
    modify (set_relayer account)
  run_admin deregister_relayer payload = do
    account ← lift (account_payload decoder "deregisterRelayer" payload)
    modify (unset_relayer account)
  run_admin clear_testnet_state payload = wrapping (handle_clear_testnet_state env)
  run_admin pause payload = modify (λ st. record st { paused = some (bytes "1") })
  run_admin unpause payload = modify (λ st. record st { paused = none })

  unfoldable pub run_gated : AdminAction → (payload : Bytes) → Action (Unit {0})
  unfolding assert_not_paused
  run_gated a payload =
      if is_emergency a then run_admin a payload else (assert_not_paused >> run_admin a payload)

  unfoldable pub dispatch_admin : (action payload : Bytes) → Action (Unit {0})
  dispatch_admin action payload = elim (action_named action) [
    | none ↦ fail_if true input "dispatchAdmin: unknown action"
    | some a ↦ run_gated a payload
  ]
