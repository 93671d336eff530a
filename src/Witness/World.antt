-- ===== src/Witness/World.antt =====
-- A host, a storage and requests for the runs: a header at height 10, native money and a token.
use account_mapping.Prelude.{
  ℕ, false, none, some, [], ◌∷◌, Bytes, bytes, eqb, if◌then◌else◌, replicate, pos,
}
use account_mapping.Host.State.{State, Env, set_at, set_num}
use account_mapping.Chain.Header.{EthBlockHeader, serialize}
use account_mapping.Mapping.Transfers.{TransferParams}

-- A hash that is not constant: the first bytes, filled up to 32.
abbrev pub toy_hash : Bytes → Bytes
toy_hash [] = replicate 32 0
toy_hash (b ∷ s) = b ∷ replicate 31 7

abbrev pub host : (caller : Bytes) → (height : ℕ) → Env
host caller height = record {
  caller = caller;
  owner = some (bytes "hive:owner");
  contract_id = bytes "mapping";
  block_height = height;
  keccak256 = toy_hash;
  ecrecover_strict = λ h s. some (replicate 20 9);
  ecrecover_canonical = λ h s. some (replicate 20 8);
  tss_key = bytes "key";
  contract_call = λ c i st. (none, st);
  verifier_header = λ c n. none;
  verifier_height = λ c. none;
}

abbrev pub alice : Bytes
alice = bytes "hive:alice"

abbrev pub bob : Bytes
bob = bytes "hive:bob"

abbrev pub vault : Bytes
vault = replicate 20 9

abbrev pub tip : EthBlockHeader
tip = record {
  block_number = 10;
  state_root = replicate 32 1;
  transactions_root = replicate 32 2;
  receipts_root = replicate 32 3;
  base_fee_per_gas = 1000;
  gas_limit = 30000000;
  timestamp = 1700000000;
  chain_id = 1;
}

abbrev pub token_text : Bytes
token_text = bytes "0x0101010101010101010101010101010101010101"

-- Alice has two ether and fifty USDC, Bob has nothing.
abbrev pub world : State
world = record {
  balances =
      set_at (bytes "hive:alice-eth") (bytes "2000000000000000000")
        (set_at (bytes "hive:alice-usdc") (bytes "50000000") (λ k. none));
  allowances = set_at (bytes "hive:alice-hive:bob-eth") (bytes "1000000000000000000") (λ k. none);
  supplies =
      set_at (bytes "eth")
        (record {
          active = pos 2_000_000_000_000_000_000;
          user = pos 2_000_000_000_000_000_000;
          fee = pos 0;
          base_fee = 0;
        })
        (set_at (bytes "usdc")
          (record { active = pos 50_000_000; user = pos 50_000_000; fee = pos 0; base_fee = 0 })
          (λ k. none));
  gas_reserve = some (bytes "100000000000000000");
  spends = λ n. none;
  confirmed_nonce = none;
  pending_nonce = none;
  observed = λ n. none;
  headers = set_num 10 (serialize tip) (λ n. none);
  last_height = some (bytes "10");
  tokens = λ c a. if eqb a (replicate 20 1) then some (bytes "usdc|6|10000000") else none;
  relayers = λ a. none;
  paused = none;
  router_id = none;
  vault = none;
  chain_id = some (bytes "1");
  verifier_id = none;
  is_testnet = none;
  proposal_counter = none;
  proposals = λ n. none;
  signed = [];
  init_marker = some (bytes "1");
  oracle_account = some (bytes "hive:oracle");
  public_key = none;
  key_requests = [];
}

abbrev pub half_ether : TransferParams
half_ether = record {
  amount_text = bytes "500000000000000000";
  to_address = bytes "0x0202020202020202020202020202020202020202";
  from_account = alice;
  asset = bytes "eth";
  token_address = [];
  deduct_fee = false;
  max_fee = [];
}

-- Half an ether to Bob.
abbrev pub to_bob : TransferParams
to_bob = record half_ether { to_address = bob }
