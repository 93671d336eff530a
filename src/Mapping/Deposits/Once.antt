-- ===== src/Mapping/Deposits/Once.antt =====
-- A deposit is credited once, whatever is mapped after it (contract/mapping/handlers.go, proof.go and
-- observed.go: `HandleMap`, `VerifyETHDeposit`, `VerifyERC20Deposit`, `IsObserved`, `MarkObserved`).
use account_mapping.Prelude.{
  ℕ, subst, ◌≡◌, refl, ap, true, false, inl, inr, List, Bytes, bytes, length, arith, ℤ, pos,
}
use account_mapping.Result.{Error, ok, err}
use account_mapping.Host.State.{State, Env}
use account_mapping.Host.Action.Laws.{Result-cases}
use account_mapping.Mapping.Observed.{is_observed, mark_observed}
use account_mapping.Mapping.Proof.{uint16}
use account_mapping.Mapping.Deposits.{MapParams, map_eth, route, set_bytes}
use account_mapping.Mapping.Observed.Laws.{AllAligned, is_observed-mark_observed}
use account_mapping.Mapping.Deposits.{map_erc20}
use account_mapping.Mapping.Deposits.Kept.{
  KeepsDeposits, RouterKeeps, KeepsDeposits-same, KeepsDeposits-trans, route-KeepsDeposits,
  mark-KeepsDeposits,
}
use account_mapping.Mapping.Deposits.Native.{
  verify_eth_deposit-ok, map_eth-ok, map_eth-KeepsDeposits,
}
use account_mapping.Mapping.Deposits.Tokens.{
  verify_erc20_deposit-ok, map_erc20-ok, map_erc20-KeepsDeposits,
}

-- A host whose Keccak gives 32 bytes, and whose router keeps the processed deposits where it calls back.
pub record IsHost (env : Env) : Type 0 where
  pub hash_32 : (b : Bytes) → length (env.keccak256 b) ≡ 32
  pub keeps : RouterKeeps env

-- The storages after a first one: deposits are mapped, native ones and tokens, by any requests, and what
-- else runs leaves the lists of processed deposits alone.
pub data Later (st : State) : State → Type 0 where
  here : Later st st
  native_mapped :
      {mid st' : State} (env : Env) (p : MapParams) (vault : Bytes) (chain_id : ℕ)
      → IsHost env
      → Later st mid
      → map_eth env p vault chain_id mid ≡ (ok tt, st')
      → Later st st'
  token_mapped :
      {mid st' : State} (env : Env) (p : MapParams) (vault : Bytes) (chain_id : ℕ)
      → IsHost env
      → Later st mid
      → map_erc20 env p vault chain_id mid ≡ (ok tt, st')
      → Later st st'
  other_ran : {mid st' : State} → Later st mid → st'.observed ≡ mid.observed → Later st st'

Later-KeepsDeposits : (st : State) {later : State} → Later st later → KeepsDeposits st later
Later-KeepsDeposits st {later} here = KeepsDeposits-same st st refl
Later-KeepsDeposits st {later} (native_mapped {mid = mid} env p vault chain_id host before h) =
    KeepsDeposits-trans st mid later (Later-KeepsDeposits st before)
      (map_eth-KeepsDeposits env p vault chain_id mid host.hash_32 host.keeps h)
Later-KeepsDeposits st {later} (token_mapped {mid = mid} env p vault chain_id host before h) =
    KeepsDeposits-trans st mid later (Later-KeepsDeposits st before)
      (map_erc20-KeepsDeposits env p vault chain_id mid host.hash_32 host.keeps h)
Later-KeepsDeposits st {later} (other_ran {mid = mid} before e) =
    KeepsDeposits-trans st mid later (Later-KeepsDeposits st before)
      (KeepsDeposits-same mid later e)

-- What a call of the two marks is observed in every later storage.
marked-Later :
    (env : Env) (sender : Bytes) (is : List Bytes) (asset : Bytes) (v : ℤ) (st mid : State)
    (height : ℕ) (tx_hash : Bytes) (index : ℕ) {later : State}
    → IsHost env
    → AllAligned st
    → length tx_hash ≡ 32
    → mid.observed ≡ (route env sender is asset v st).1.observed
    → Later (mark_observed height tx_hash index mid) later
    → is_observed later height tx_hash index ≡ true
marked-Later env sender is asset v st mid height tx_hash index host aligned wide same after =
    let routed = (route env sender is asset v st).1 in
    let (routed_aligned, _) = route-KeepsDeposits env sender is asset v st host.keeps aligned in
    let (mid_aligned, _) = KeepsDeposits-same routed mid same routed_aligned in
    let end = mark_observed height tx_hash index mid in
    let (end_aligned, _) = mark-KeepsDeposits height tx_hash index mid wide mid_aligned in
    let (_, kept) = Later-KeepsDeposits end after end_aligned in
    kept height tx_hash index
      (is_observed-mark_observed height tx_hash index mid wide (mid_aligned height))

-- A native deposit that was mapped is not mapped again: after any sequence of steps in which deposits
-- are mapped, of the same height too, and nothing else touches the lists of processed deposits, a call
-- with the same submitted bytes, height and index is refused, whatever else the request says. The lists
-- were whole before the first call, the hosts have a Keccak of 32 bytes, the same one in the two calls,
-- and routers that keep the processed deposits.
pub eth_deposit_once :
    (env env' : Env) (p p' : MapParams) (vault vault' : Bytes) (chain_id chain_id' : ℕ)
    (st later : State) {st' : State}
    → IsHost env
    → AllAligned st
    → map_eth env p vault chain_id st ≡ (ok tt, st')
    → Later st' later
    → env'.keccak256 ≡ env.keccak256
    → p'.tx_data.raw_hex ≡ p.tx_data.raw_hex
    → p'.tx_data.block_height ≡ p.tx_data.block_height
    → p'.tx_data.tx_index ≡ p.tx_data.tx_index
    → (e : Error) × ((map_eth env' p' vault' chain_id' later).0 ≡ err e)
eth_deposit_once env env' p p' vault vault' chain_id chain_id' st later {st'} host aligned h after
      same_hash raw_same height_same index_same =
    let (d, verified, mid, mid_same, written) = map_eth-ok env p vault chain_id st h in
    let (raw, decoded, hashed, _) =
      verify_eth_deposit-ok env st p.tx_data vault chain_id verified in
    let seen =
      marked-Later env d.sender p.instructions (bytes "eth") (pos (set_bytes d.amount_bytes)) st mid
        p.tx_data.block_height d.tx_hash (uint16 p.tx_data.tx_index) host aligned
        (rw hashed (host.hash_32 raw)) mid_same
        (subst (λ (s : State). Later s later) written after) in
    elim (Result-cases (map_eth env' p' vault' chain_id' later).0) [
      | inr failed ↦ failed
      | inl (done, k) ↦
          let (d', verified', _, _, _) =
            map_eth-ok env' p' vault' chain_id' later
              (ap (λ r. (r, (map_eth env' p' vault' chain_id' later).1)) k) in
          let (raw', decoded', hashed', fresh) =
            verify_eth_deposit-ok env' later p'.tx_data vault' chain_id' verified' in
          let one_raw : raw' ≡ raw = ground (arith, decoded, decoded', raw_same) in
          let one_hash : d'.tx_hash ≡ d.tx_hash = cc (hashed, hashed', one_raw, same_hash) in
          let unseen : is_observed later p.tx_data.block_height d.tx_hash
                (uint16 p.tx_data.tx_index)
              ≡ false =
            cc (fresh, one_hash, height_same, ap uint16 index_same) in
          absurd (cc (seen, unseen))
    ]

-- A token deposit that was mapped is not mapped again, after any such sequence of steps: a call with the
-- same submitted receipt, height and log is refused, whatever else the request says, its token included.
-- The lists were whole before the first call, the hosts have a Keccak of 32 bytes, the same one in the
-- two calls, and routers that keep the processed deposits.
pub token_deposit_once :
    (env env' : Env) (p p' : MapParams) (vault vault' : Bytes) (chain_id chain_id' : ℕ)
    (st later : State) {st' : State}
    → IsHost env
    → AllAligned st
    → map_erc20 env p vault chain_id st ≡ (ok tt, st')
    → Later st' later
    → env'.keccak256 ≡ env.keccak256
    → p'.tx_data.raw_hex ≡ p.tx_data.raw_hex
    → p'.tx_data.block_height ≡ p.tx_data.block_height
    → p'.tx_data.log_index ≡ p.tx_data.log_index
    → (e : Error) × ((map_erc20 env' p' vault' chain_id' later).0 ≡ err e)
token_deposit_once env env' p p' vault vault' chain_id chain_id' st later {st'} host aligned h after
      same_hash raw_same height_same index_same =
    let (token, info, d, verified, mid, mid_same, written) =
      map_erc20-ok env p vault chain_id st h in
    let (raw, decoded, hashed, _) =
      verify_erc20_deposit-ok env st p.tx_data vault token chain_id verified in
    let seen =
      marked-Later env d.sender p.instructions info.symbol (pos (set_bytes d.amount_bytes)) st mid
        p.tx_data.block_height d.tx_hash (uint16 p.tx_data.log_index) host aligned
        (rw hashed (host.hash_32 raw)) mid_same
        (subst (λ (s : State). Later s later) written after) in
    elim (Result-cases (map_erc20 env' p' vault' chain_id' later).0) [
      | inr failed ↦ failed
      | inl (done, k) ↦
          let (token', _, d', verified', _, _, _) =
            map_erc20-ok env' p' vault' chain_id' later
              (ap (λ r. (r, (map_erc20 env' p' vault' chain_id' later).1)) k) in
          let (raw', decoded', hashed', fresh) =
            verify_erc20_deposit-ok env' later p'.tx_data vault' token' chain_id' verified' in
          let one_raw : raw' ≡ raw = ground (arith, decoded, decoded', raw_same) in
          let one_hash : d'.tx_hash ≡ d.tx_hash = cc (hashed, hashed', one_raw, same_hash) in
          let unseen : is_observed later p.tx_data.block_height d.tx_hash
                (uint16 p.tx_data.log_index)
              ≡ false =
            cc (fresh, one_hash, height_same, ap uint16 index_same) in
          absurd (cc (seen, unseen))
    ]
