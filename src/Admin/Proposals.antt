-- ===== src/Admin/Proposals.antt =====
-- contract/admin/proposals.go: propose, execute, cancel and expire. The logged events (`emit`) are
-- left out.
use account_mapping.Prelude.{
  ℕ, Bool, true, false, ◌||◌, ◌&&◌, not, Option, none, some, List, [], ◌∷◌, Bytes, bytes, leb, ltb,
  ◌==◌, if◌then◌else◌, eqb, take,
}
use account_mapping.Codec.Hex.{decode_string}
use account_mapping.Result.{Result, ok, err, present, contract_error, plain}
use account_mapping.Host.State.{
  State, Env, PendingProposal, Status, pending, accepted, cancelled, expired, set_num, add64,
}
use account_mapping.Host.Action.{Action, pure, lift, gets, modify, fail_if, ◌>>=◌, ◌>>◌}

abbrev pub timelock_long : ℕ
timelock_long = 400_000

abbrev pub timelock_tactical : ℕ
timelock_tactical = 28_800

abbrev pub timelock_operational : ℕ
timelock_operational = 7_200

abbrev pub timelock_immediate : ℕ
timelock_immediate = 0

abbrev pub expire_window_blocks : ℕ
expire_window_blocks = 201_600

abbrev pub one_of : Bytes → List Bytes → Bool
one_of a [] = false
one_of a (b ∷ bs) = eqb a b || one_of a bs

abbrev pub long_actions : List Bytes
long_actions =
    bytes "setVault" ∷ bytes "setVerifierContract" ∷ bytes "createKey" ∷ bytes "renewKey" ∷ []

abbrev pub tactical_actions : List Bytes
tactical_actions =
    bytes "registerPublicKey"
    ∷ bytes "replaceBlock"
    ∷ bytes "replaceWithdrawal"
    ∷ bytes "clearNonce"
    ∷ []

abbrev pub operational_actions : List Bytes
operational_actions =
    bytes "registerToken"
    ∷ bytes "registerRouter"
    ∷ bytes "setGasReserve"
    ∷ bytes "seedBlocks"
    ∷ bytes "setOracleAccount"
    ∷ bytes "registerRelayer"
    ∷ bytes "deregisterRelayer"
    ∷ bytes "clearTestnetState"
    ∷ []

abbrev pub immediate_actions : List Bytes
immediate_actions = bytes "pause" ∷ bytes "unpause" ∷ []

unfoldable pub timelock_for : Bytes → Result ℕ
timelock_for action =
    if one_of action long_actions
    then ok timelock_long
    else if one_of action tactical_actions
    then ok timelock_tactical
    else if one_of action operational_actions
    then ok timelock_operational
    else if one_of action immediate_actions
    then ok timelock_immediate
    else err (contract_error plain "unknown admin action")

-- A counter that is absent or 0 starts at 1.
unfoldable pub next_id : Option ℕ → ℕ
next_id none = 1
next_id (some n) = if n == 0 then 1 else n

-- `nextProposalId`: the id, and the counter moved on.
unfoldable pub bump_counter : State → State
bump_counter st = record st { proposal_counter = some (add64 (next_id st.proposal_counter) 1) }

unfoldable pub load_proposal : State → ℕ → Option PendingProposal
load_proposal st id = st.proposals id

unfoldable pub store_proposal : PendingProposal → State → State
store_proposal pp st = record st { proposals = set_num pp.proposal_id pp st.proposals }

abbrev pub is_pending : Status → Bool
is_pending pending = true
is_pending _ = false

unfoldable pub set_status : Status → PendingProposal → PendingProposal
set_status s pp = record pp { status = s }

-- `DecodePayloadHex`
unfoldable pub decode_payload_hex : Bytes → Option Bytes
unfolding decode_string
decode_payload_hex [] = some []
decode_payload_hex (a ∷ []) = decode_string (a ∷ [])
decode_payload_hex (a ∷ b ∷ s) =
    if a == b'0' && (b == b'x' || b == b'X') then decode_string s else decode_string (a ∷ b ∷ s)

module _ (env : Env) where
  unfoldable pub hash_payload : Bytes → Bytes
  hash_payload payload = take 32 (env.keccak256 payload)

  unfoldable pub new_proposal :
      (id timelock : ℕ) → (action payload proposer : Bytes) → (block_height : ℕ) → PendingProposal
  unfolding hash_payload
  new_proposal id timelock action payload proposer block_height = record {
    proposal_id = id;
    action = action;
    payload_hash = hash_payload payload;
    proposer = proposer;
    queue_height = block_height;
    exec_height = add64 block_height timelock;
    expire_height = add64 (add64 block_height timelock) expire_window_blocks;
    payload = payload;
    status = pending;
  }

  unfoldable pub propose : (action payload proposer : Bytes) → (block_height : ℕ) → Action ℕ
  propose action payload proposer block_height = do
    timelock ← lift (timelock_for action)
    id ← gets (λ st. next_id st.proposal_counter)
    modify bump_counter
    modify (store_proposal (new_proposal id timelock action payload proposer block_height))
    pure id

  -- The proposal under an id, if it is pending.
  unfoldable pub pending_proposal : ℕ → Action PendingProposal
  pending_proposal id = do
    found ← gets (λ st. load_proposal st id)
    pp ← lift (present found plain "proposal not found")
    fail_if (not (is_pending pp.status)) plain "proposal not pending"
    pure pp

  unfoldable pub execute_validated : (id block_height : ℕ) → Action PendingProposal
  unfolding pending_proposal
  execute_validated id block_height = do
    pp ← pending_proposal id
    fail_if (ltb block_height pp.exec_height) plain "timelock not elapsed"
    fail_if (leb pp.expire_height block_height) plain "proposal expired"
    fail_if (not (eqb (hash_payload pp.payload) pp.payload_hash)) plain "payload hash mismatch"
    modify (store_proposal (set_status accepted pp))
    pure (set_status accepted pp)

  unfoldable pub cancel : (id : ℕ) → Action (Unit {0})
  unfolding pending_proposal
  cancel id = do pp ← pending_proposal id; modify (store_proposal (set_status cancelled pp))

  unfoldable pub expire_proposal : (id block_height : ℕ) → Action (Unit {0})
  unfolding pending_proposal
  expire_proposal id block_height = do
    pp ← pending_proposal id
    fail_if (ltb block_height pp.expire_height) plain "proposal not yet expired"
    modify (store_proposal (set_status expired pp))
