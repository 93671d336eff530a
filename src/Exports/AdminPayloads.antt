-- ===== src/Exports/AdminPayloads.antt =====
-- contract/main.go: the payloads of the admin actions, decoded and checked.
use Prim.Native.String.{String, ◌++◌ as joined}
use account_mapping.Prelude.{none, some, [], ◌∷◌, Bytes, eqb, if◌then◌else◌}
use account_mapping.Codec.Hex.{hex_to_address}
use account_mapping.Result.{
  Result, ok, err, present, or_else, contract_error, input, reject_if, ◌>>=◌, ◌>>◌,
}
use account_mapping.Chain.Blocks.{AddBlockEntry}
use account_mapping.Mapping.Lifecycle.{L1ProofOfDrop}
use account_mapping.Exports.Payloads.{Json, RegisterTokenParams}

module _ (decoder : Json) where
  -- A payload that is a JSON string gives its text, any other gives its bytes.
  unfoldable pub decode_address_payload : Bytes → Result Bytes
  decode_address_payload [] = err (contract_error input "setVault: bad_input: empty payload")
  decode_address_payload (b ∷ payload) = elim (decoder.string_literal (b ∷ payload)) [
    | none ↦ ok (b ∷ payload)
    | some s ↦ ok (if eqb s [] then b ∷ payload else s)
  ]

  -- `{"account": ..}` of the action `name`.
  unfoldable pub account_payload : (name : String) → Bytes → Result Bytes
  account_payload name payload = do
    account ← present (decoder.account payload) input (joined name ": bad payload")
    reject_if (eqb account []) input (joined name ": empty account")
    ok account

  unfoldable pub verifier_payload : Bytes → Result Bytes
  verifier_payload payload = do
    id ← present (decoder.contract_id payload) input "setVerifierContract: bad payload"
    reject_if (eqb id []) input "verifier contract_id must be non-empty"
    ok id

  unfoldable pub entry_payload : (message : String) → Bytes → Result AddBlockEntry
  entry_payload message payload = present (decoder.add_block_entry payload) input message

  unfoldable pub proof_payload : Bytes → Result L1ProofOfDrop
  proof_payload payload = do
    p ← present (decoder.clear_nonce_params payload) input "clearNonce: bad payload"
    ok p.proof

  unfoldable pub token_payload : Bytes → Result (RegisterTokenParams × Bytes)
  unfolding hex_to_address
  token_payload payload = do
    p ← present (decoder.register_token_params payload) input "registerToken: bad payload"
    addr ← or_else (hex_to_address p.address) input "registerToken: invalid address"
    ok (p, addr)
