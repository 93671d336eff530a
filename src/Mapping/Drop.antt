-- ===== src/Mapping/Drop.antt =====
-- contract/mapping/handlers.go: what `verifyL1ProofOfDrop` accepts.
use account_mapping.Prelude.{
  ℕ, ◌<◌, ◌≡◌, refl, ◌⊎◌, inl, inr, Option-cases, some, Bytes, eqb_iff, eqb_refl, ◌↔◌, arith,
}
use account_mapping.Codec.Hex.{decode_string}
use account_mapping.Result.{ok}
use account_mapping.Mpt.Verify.{verify_proof, rlp_encode_key}
use account_mapping.Host.State.{State, Env, PendingSpend}
use account_mapping.Host.Action.Laws.{Result-cases}
use account_mapping.Chain.Header.{EthBlockHeader, get_header}
use account_mapping.Mapping.Transaction.{ParsedTx, parse_transaction, split_proof_nodes}
use account_mapping.Mapping.Confirm.{receipt_status}
use account_mapping.Mapping.Lifecycle.{
  L1ProofOfDrop, ProofType, reverted_receipt, block_inclusion, absent, unknown, proven_slot,
  check_reverted, check_inclusion_without, check_drop, verify_l1_proof_of_drop,
}

-- Bytes that a trie of this root has in the slot of a block.
pub record IsProven (env : Env) (root : Bytes) (index : ℕ) (hex_text proof_hex raw : Bytes)
    : Type 0 where
  pub decoded : decode_string hex_text ≡ some raw
  pub nodes : Bytes
  pub read : decode_string proof_hex ≡ some nodes
  pub proved :
      verify_proof env.keccak256 root (rlp_encode_key index) (split_proof_nodes nodes) ≡ ok raw

-- A receipt of the block that says that its transaction was reverted.
pub record ShowsReverted (env : Env) (proof : L1ProofOfDrop) (header : EthBlockHeader)
    : Type 0 where
  pub kind : proof.proof_type ≡ reverted_receipt
  pub receipt : Bytes
  pub proven :
      IsProven env header.receipts_root proof.tx_index proof.receipt_hex proof.receipt_proof_hex
        receipt
  pub reverted : receipt_status receipt ≡ ok 0

-- A transaction of the block, on the chain of the contract where that is set, with a nonce above the one
-- of the proof.
pub record ShowsLater (env : Env) (proof : L1ProofOfDrop) (chain_id : ℕ) (header : EthBlockHeader)
    : Type 0 where
  pub kind : proof.proof_type ≡ block_inclusion
  pub raw : Bytes
  pub tx : ParsedTx
  pub proven :
      IsProven env header.transactions_root proof.tx_index proof.tx_at_index_hex proof.tx_proof_hex
        raw
  pub parsed : parse_transaction raw ≡ ok tx
  pub on_chain : (chain_id ≡ 0) ⊎ (tx.chain_id ≡ chain_id)
  pub later : proof.tx_nonce < tx.nonce

-- What is asked of a proof of drop: the nonce of the spend, a header that the contract has, and one of the
-- two. Nothing else of the spend is looked at.
pub record IsAccepted (env : Env) (proof : L1ProofOfDrop) (ps : PendingSpend) (chain_id : ℕ)
    (st : State) : Type 0 where
  pub nonce : proof.tx_nonce ≡ ps.nonce
  pub header : EthBlockHeader
  pub anchored : get_header env st proof.block_height ≡ some header
  pub shown : ShowsReverted env proof header ⊎ ShowsLater env proof chain_id header

module _ (env : Env) where
  proven_slot-ok :
      (root : Bytes) (index : ℕ) (hex_text proof_hex raw : Bytes)
      → proven_slot env root index hex_text proof_hex ≡ ok raw
      → IsProven env root index hex_text proof_hex raw
  unfolding proven_slot
  proven_slot-ok root index hex_text proof_hex raw h =
      elim (Option-cases (decode_string hex_text)) [
        | inl e ↦ absurd (ground arith)
        | inr (r, e) ↦ elim (Option-cases (decode_string proof_hex)) [
          | inl f ↦ absurd (ground arith)
          | inr (nodes, f) ↦
              elim (Result-cases (
                verify_proof env.keccak256 root (rlp_encode_key index) (split_proof_nodes nodes))) [
                  | inr (x, g) ↦ absurd (ground arith)
                  | inl (w, g) ↦
                      let same : w ≡ r = (eqb_iff w r).0 (ground arith) in
                      let is_raw : r ≡ raw = ground arith in
                      record {
                        decoded = cc (e, is_raw);
                        nodes = nodes;
                        read = f;
                        proved = cc (g, same, is_raw);
                      }
                ]
        ]
      ]

  proven_slot-IsProven :
      (root : Bytes) (index : ℕ) (hex_text proof_hex raw : Bytes)
      → IsProven env root index hex_text proof_hex raw
      → proven_slot env root index hex_text proof_hex ≡ ok raw
  unfolding proven_slot
  proven_slot-IsProven root index hex_text proof_hex raw w =
      ground (arith, w.decoded, w.read, w.proved, eqb_refl raw)

  check_reverted-ok :
      (proof : L1ProofOfDrop) (header : EthBlockHeader)
      → proof.proof_type ≡ reverted_receipt
      → check_reverted env proof header ≡ ok tt
      → ShowsReverted env proof header
  unfolding check_reverted
  check_reverted-ok proof header kind h =
      let slot =
        proven_slot env header.receipts_root proof.tx_index proof.receipt_hex
          proof.receipt_proof_hex in
      elim (Result-cases slot) [
        | inr (x, e) ↦ absurd (ground arith)
        | inl (receipt, e) ↦ elim (Result-cases (receipt_status receipt)) [
          | inr (x, f) ↦ absurd (ground arith)
          | inl (status, f) ↦
              let zero_status : status ≡ 0 = ground arith in
              record {
                kind = kind;
                receipt = receipt;
                proven =
                    proven_slot-ok header.receipts_root proof.tx_index proof.receipt_hex
                      proof.receipt_proof_hex receipt e;
                reverted = cc (f, zero_status);
              }
        ]
      ]

  check_inclusion-ok :
      (proof : L1ProofOfDrop) (header : EthBlockHeader) (chain_id : ℕ)
      → proof.proof_type ≡ block_inclusion
      → check_inclusion_without env proof header chain_id ≡ ok tt
      → ShowsLater env proof chain_id header
  unfolding check_inclusion_without
  check_inclusion-ok proof header chain_id kind h =
      let slot =
        proven_slot env header.transactions_root proof.tx_index proof.tx_at_index_hex
          proof.tx_proof_hex in
      elim (Result-cases slot) [
        | inr (x, e) ↦ absurd (ground arith)
        | inl (raw, e) ↦ elim (Result-cases (parse_transaction raw)) [
          | inr (x, f) ↦ absurd (ground arith)
          | inl (tx, f) ↦ record {
            kind = kind;
            raw = raw;
            tx = tx;
            proven =
                proven_slot-ok header.transactions_root proof.tx_index proof.tx_at_index_hex
                  proof.tx_proof_hex raw e;
            parsed = f;
            on_chain = ground arith;
            later = ground arith;
          }
        ]
      ]

  check_drop-ok :
      (proof : L1ProofOfDrop) (header : EthBlockHeader) (chain_id : ℕ) (kind : ProofType)
      → proof.proof_type ≡ kind
      → check_drop env proof header chain_id ≡ ok tt
      → ShowsReverted env proof header ⊎ ShowsLater env proof chain_id header
  unfolding check_drop
  check_drop-ok proof header chain_id reverted_receipt e h =
      inl (check_reverted-ok proof header e (ground arith))
  check_drop-ok proof header chain_id block_inclusion e h =
      inr (check_inclusion-ok proof header chain_id e (ground arith))
  check_drop-ok proof header chain_id absent e h = absurd (ground arith)
  check_drop-ok proof header chain_id unknown e h = absurd (ground arith)

  check_reverted-Shows :
      (proof : L1ProofOfDrop) (header : EthBlockHeader)
      → ShowsReverted env proof header
      → check_reverted env proof header ≡ ok tt
  unfolding check_reverted
  check_reverted-Shows proof header w = ground (
    arith,
    w.reverted,
    proven_slot-IsProven header.receipts_root proof.tx_index proof.receipt_hex
        proof.receipt_proof_hex w.receipt w.proven,
  )

  check_inclusion-Shows :
      (proof : L1ProofOfDrop) (header : EthBlockHeader) (chain_id : ℕ)
      → ShowsLater env proof chain_id header
      → check_inclusion_without env proof header chain_id ≡ ok tt
  unfolding check_inclusion_without
  check_inclusion-Shows proof header chain_id w = ground (
    arith,
    w.parsed,
    w.on_chain,
    w.later,
    proven_slot-IsProven header.transactions_root proof.tx_index proof.tx_at_index_hex
        proof.tx_proof_hex w.raw w.proven,
  )

  check_drop-Shows :
      (proof : L1ProofOfDrop) (header : EthBlockHeader) (chain_id : ℕ)
      → ShowsReverted env proof header ⊎ ShowsLater env proof chain_id header
      → check_drop env proof header chain_id ≡ ok tt
  unfolding check_drop
  check_drop-Shows proof header chain_id (inl w) = rw w.kind (check_reverted-Shows proof header w)
  check_drop-Shows proof header chain_id (inr w) =
      rw w.kind (check_inclusion-Shows proof header chain_id w)

  pub verify_l1_proof_of_drop-ok :
      (proof : L1ProofOfDrop) (ps : PendingSpend) (chain_id : ℕ) (st : State)
      → verify_l1_proof_of_drop env proof ps chain_id st ≡ ok tt
      → IsAccepted env proof ps chain_id st
  unfolding verify_l1_proof_of_drop
  verify_l1_proof_of_drop-ok proof ps chain_id st h =
      elim (Option-cases (get_header env st proof.block_height)) [
        | inl e ↦ absurd (ground arith)
        | inr (header, e) ↦ record {
          nonce = ground arith;
          header = header;
          anchored = e;
          shown = check_drop-ok proof header chain_id proof.proof_type refl (ground arith);
        }
      ]

  verify_l1_proof_of_drop-IsAccepted :
      (proof : L1ProofOfDrop) (ps : PendingSpend) (chain_id : ℕ) (st : State)
      → IsAccepted env proof ps chain_id st
      → verify_l1_proof_of_drop env proof ps chain_id st ≡ ok tt
  unfolding verify_l1_proof_of_drop
  verify_l1_proof_of_drop-IsAccepted proof ps chain_id st w =
      ground (arith, w.nonce, w.anchored, check_drop-Shows proof w.header chain_id w.shown)

  -- A proof of drop is accepted exactly where it has the nonce of the spend, its block is one that the
  -- contract has the header of, and in that block it proves either a receipt, of any transaction, with
  -- status 0, or a transaction, of any sender, with a higher nonce, and on the chain of the contract where
  -- its chain id is not 0. No other field of the spend is compared.
  pub verify_l1_proof_of_drop_iff :
      (proof : L1ProofOfDrop) (ps : PendingSpend) (chain_id : ℕ) (st : State)
      → (verify_l1_proof_of_drop env proof ps chain_id st ≡ ok tt)
        ↔ IsAccepted env proof ps chain_id st
  verify_l1_proof_of_drop_iff proof ps chain_id st = (
    verify_l1_proof_of_drop-ok proof ps chain_id st,
    verify_l1_proof_of_drop-IsAccepted proof ps chain_id st,
  )
