-- ===== src/Mapping/Deposits/Native.antt =====
-- A native deposit that is mapped (contract/mapping/handlers.go and proof.go: `HandleMap`, `VerifyETHDeposit`).
use account_mapping.Prelude.{
  ℕ, ◌≡◌, false, Option-cases, some, inl, inr, Bytes, bytes, length, arith, pos, ◌-ℤ◌,
}
use account_mapping.Codec.Hex.{decode_string}
use account_mapping.Result.{ok}
use account_mapping.Host.State.{State, Env}
use account_mapping.Host.Action.Laws.{Result-cases}
use account_mapping.Mapping.Balance.{inc_balance, set_balance}
use account_mapping.Mapping.Supply.{track_deposit, set_supply}
use account_mapping.Mapping.Gas.{add_gas_reserve, set_gas_reserve}
use account_mapping.Mapping.Observed.{is_observed, mark_observed}
use account_mapping.Mapping.Proof.{VerificationRequest, Deposit, uint16, verify_eth_deposit}
use account_mapping.Mapping.Deposits.{
  MapParams, map_eth, route, set_bytes, gas_tax, collect_tax, credit,
}
use account_mapping.Mapping.Deposits.Kept.{
  KeepsDeposits, RouterKeeps, KeepsDeposits-same, KeepsDeposits-trans, mark-KeepsDeposits,
  route-KeepsDeposits,
}

-- What a verified native deposit rests on: the hash is that of the submitted bytes, and it was not
-- processed before.
pub verify_eth_deposit-ok :
    (env : Env) (st : State) (req : VerificationRequest) (vault : Bytes) (chain_id : ℕ)
    {d : Deposit}
    → verify_eth_deposit env st req vault chain_id ≡ ok d
    → (raw : Bytes) × (decode_string req.raw_hex ≡ some raw)
      × (d.tx_hash ≡ env.keccak256 raw)
      × (is_observed st req.block_height d.tx_hash (uint16 req.tx_index) ≡ false)
unfolding verify_eth_deposit
verify_eth_deposit-ok env st req vault chain_id h =
    elim (Option-cases (decode_string req.raw_hex)) [
      | inl e ↦ absurd (ground arith)
      | inr (raw, e) ↦ (raw, e, ground arith, ground arith)
    ]

booked-observed :
    (dest : Bytes) (amount tax : ℕ) (st : State)
    → (track_deposit
        (bytes "eth")
        (pos amount -ℤ pos tax)
        (pos tax)
        (credit dest (bytes "eth") (pos amount -ℤ pos tax) (collect_tax tax st))).observed
      ≡ st.observed
unfolding track_deposit set_supply credit collect_tax add_gas_reserve set_gas_reserve inc_balance
    set_balance
booked-observed dest amount tax st = ground arith

-- What a native deposit that succeeds writes last.
pub map_eth-ok :
    (env : Env) (p : MapParams) (vault : Bytes) (chain_id : ℕ) (st : State) {st' : State}
    → map_eth env p vault chain_id st ≡ (ok tt, st')
    → (d : Deposit) × (verify_eth_deposit env st p.tx_data vault chain_id ≡ ok d)
      × (mid : State) × (mid.observed
          ≡ (route env d.sender p.instructions
              (bytes "eth")
              (pos (set_bytes d.amount_bytes))
              st).1.observed)
      × (st' ≡ mark_observed p.tx_data.block_height d.tx_hash (uint16 p.tx_data.tx_index) mid)
unfolding map_eth
map_eth-ok env p vault chain_id st {st'} h =
    elim (Result-cases (verify_eth_deposit env st p.tx_data vault chain_id)) [
      | inl (d, e) ↦
          let amount = set_bytes d.amount_bytes in
          let routed = route env d.sender p.instructions (bytes "eth") (pos amount) st in
          let tax = gas_tax amount in
          elim (Result-cases routed.0) [
            | inl (dest, f) ↦
                let taxed = collect_tax tax routed.1 in
                let credited = credit dest (bytes "eth") (pos amount -ℤ pos tax) taxed in
                let tracked =
                  track_deposit (bytes "eth") (pos amount -ℤ pos tax) (pos tax) credited in
                (d, e, tracked, booked-observed dest amount tax routed.1, ground arith)
            | inr (x, f) ↦ absurd (ground arith)
          ]
      | inr (x, e) ↦ absurd (ground arith)
    ]

-- A native deposit that succeeds keeps what was observed, and adds itself.
pub map_eth-KeepsDeposits :
    (env : Env) (p : MapParams) (vault : Bytes) (chain_id : ℕ) (st : State) {st' : State}
    → ((b : Bytes) → length (env.keccak256 b) ≡ 32)
    → RouterKeeps env
    → map_eth env p vault chain_id st ≡ (ok tt, st')
    → KeepsDeposits st st'
map_eth-KeepsDeposits env p vault chain_id st {st'} hash_32 keeps h =
    let (d, verified, mid, mid_same, written) = map_eth-ok env p vault chain_id st h in
    let (raw, decoded, hashed, _) =
      verify_eth_deposit-ok env st p.tx_data vault chain_id verified in
    let v = pos (set_bytes d.amount_bytes) in
    let routed = (route env d.sender p.instructions (bytes "eth") v st).1 in
    rw written (
      KeepsDeposits-trans st mid
        (mark_observed p.tx_data.block_height d.tx_hash (uint16 p.tx_data.tx_index) mid)
        (KeepsDeposits-trans st routed mid
          (route-KeepsDeposits env d.sender p.instructions (bytes "eth") v st keeps)
          (KeepsDeposits-same routed mid mid_same))
        (mark-KeepsDeposits p.tx_data.block_height d.tx_hash (uint16 p.tx_data.tx_index) mid
          (rw hashed (hash_32 raw))))
