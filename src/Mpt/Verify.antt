-- ===== src/Mpt/Verify.antt =====
-- contract/mpt/verify.go: `VerifyProof`. Keccak-256 is a host function and a parameter.
use account_mapping.Prelude.{
  ℕ, zero, suc, Option, none, some, List, [], ◌∷◌, Bytes, ltb, ◌==◌, if◌then◌else◌, length, eqb,
}
use account_mapping.Result.{Result, ok, err, ◌>>◌, reject_if, contract_error, transaction}
use account_mapping.Mpt.Node.{
  empty, hash_node, value_node, keybytes_to_hex, decode_node, get, invalid_proof,
}
use account_mapping.Rlp.Encode.{encode_uint64}

abbrev pub max_proof_nodes : ℕ
max_proof_nodes = 20

-- `RLPEncodeKey`
unfoldable pub rlp_encode_key : ℕ → Bytes
unfolding encode_uint64
rlp_encode_key index = encode_uint64 index

module _ (keccak256 : Bytes → Bytes) where
  -- `newProofDB` and `Get`: the map from hashes to nodes; of two nodes with one hash the later wins.
  unfoldable pub proof_node : List Bytes → Bytes → Option Bytes
  proof_node [] h = none
  proof_node (n ∷ ns) h = elim (proof_node ns h) [
    | some m ↦ some m
    | none ↦ if eqb (keccak256 n) h then some n else none
  ]

  -- One round for each unit of fuel; `i` counts the rounds.
  unfoldable pub walk : (fuel : ℕ) → List Bytes → (i : ℕ) → Bytes → Bytes → Result Bytes
  unfolding proof_node
  walk zero proof i want key = err (contract_error transaction "mpt: proof exceeds max nodes")
  walk (suc fuel) proof i want key = elim (proof_node proof want) [
    | none ↦
        if i == 0 then err (contract_error transaction "mpt: root hash mismatch") else invalid_proof
    | some buf ↦ elim (decode_node buf) [
      | err e ↦ invalid_proof
      | ok n ↦ elim (get n key).1 [
        | empty ↦ err (contract_error transaction "mpt: key not found in proof")
        | hash_node h ↦ walk fuel proof (suc i) h (get n key).0
        | value_node v ↦ ok v
        | _ ↦ invalid_proof
      ]
    ]
  ]

  -- The rounds 0 to 21 are made: the bound is tested after a round.
  unfoldable pub verify_proof : (root key : Bytes) → List Bytes → Result Bytes
  unfolding walk
  verify_proof root key proof = do
    reject_if (length proof == 0) transaction "mpt: invalid proof"
    reject_if (ltb max_proof_nodes (length proof)) transaction "mpt: proof exceeds max nodes"
    walk 22 proof 0 root (keybytes_to_hex key)
