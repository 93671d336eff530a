-- ===== src/Mapping/Deposits/Tokens.antt =====
-- A token deposit that is mapped (contract/mapping/handlers.go and proof.go: `HandleMap`,
-- `VerifyERC20Deposit`).
use account_mapping.Prelude.{
  ℕ, ◌≡◌, false, Option-cases, some, inl, inr, Bytes, length, arith, ℤ, pos,
}
use account_mapping.Codec.Hex.{decode_string, hex_to_address}
use account_mapping.Result.{ok}
use account_mapping.Host.State.{State, Env}
use account_mapping.Host.Action.Laws.{Result-cases}
use account_mapping.Mapping.Balance.{inc_balance, set_balance}
use account_mapping.Mapping.Supply.{track_deposit, set_supply}
use account_mapping.Mapping.Observed.{is_observed, mark_observed}
use account_mapping.Mapping.Registry.{TokenInfo, get_token_info}
use account_mapping.Mapping.Proof.{VerificationRequest, Deposit, uint16, verify_erc20_deposit}
use account_mapping.Mapping.Deposits.{MapParams, map_erc20, route, set_bytes, credit}
use account_mapping.Mapping.Deposits.Kept.{
  KeepsDeposits, RouterKeeps, KeepsDeposits-same, KeepsDeposits-trans, mark-KeepsDeposits,
  route-KeepsDeposits,
}

-- What a verified token deposit rests on: the hash is that of the submitted receipt, and the log was
-- not processed before.
pub verify_erc20_deposit-ok :
    (env : Env) (st : State) (req : VerificationRequest) (vault token : Bytes) (chain_id : ℕ)
    {d : Deposit}
    → verify_erc20_deposit env st req vault token chain_id ≡ ok d
    → (raw : Bytes) × (decode_string req.raw_hex ≡ some raw)
      × (d.tx_hash ≡ env.keccak256 raw)
      × (is_observed st req.block_height d.tx_hash (uint16 req.log_index) ≡ false)
unfolding verify_erc20_deposit
verify_erc20_deposit-ok env st req vault token chain_id h =
    elim (Option-cases (decode_string req.raw_hex)) [
      | inl e ↦ absurd (ground arith)
      | inr (raw, e) ↦ (raw, e, ground arith, ground arith)
    ]

booked-observed :
    (dest symbol : Bytes) (v w : ℤ) (st : State)
    → (track_deposit symbol v w (credit dest symbol v st)).observed ≡ st.observed
unfolding track_deposit set_supply credit inc_balance set_balance
booked-observed dest symbol v w st = ground arith

-- What a token deposit that succeeds writes last.
pub map_erc20-ok :
    (env : Env) (p : MapParams) (vault : Bytes) (chain_id : ℕ) (st : State) {st' : State}
    → map_erc20 env p vault chain_id st ≡ (ok tt, st')
    → (token : Bytes) × (info : TokenInfo) × (d : Deposit) × (verify_erc20_deposit env st p.tx_data
          vault token chain_id
        ≡ ok d)
      × (mid : State) × (mid.observed
          ≡ (route env d.sender p.instructions info.symbol
              (pos (set_bytes d.amount_bytes))
              st).1.observed)
      × (st' ≡ mark_observed p.tx_data.block_height d.tx_hash (uint16 p.tx_data.log_index) mid)
unfolding map_erc20
map_erc20-ok env p vault chain_id st {st'} h =
    elim (Result-cases (hex_to_address p.tx_data.token_address)) [
      | inr (x, e) ↦ absurd (ground arith)
      | inl (token, t) ↦ elim (Option-cases (get_token_info st chain_id token)) [
        | inl unknown ↦ absurd (ground arith)
        | inr (info, n) ↦
            elim (Result-cases (verify_erc20_deposit env st p.tx_data vault token chain_id)) [
              | inr (x, e) ↦ absurd (ground arith)
              | inl (d, e) ↦
                  let amount = set_bytes d.amount_bytes in
                  let routed = route env d.sender p.instructions info.symbol (pos amount) st in
                  elim (Result-cases routed.0) [
                    | inr (x, f) ↦ absurd (ground arith)
                    | inl (dest, f) ↦
                        let tracked =
                          track_deposit info.symbol (pos amount) (pos 0)
                            (credit dest info.symbol (pos amount) routed.1) in
                        (
                          token,
                          info,
                          d,
                          e,
                          tracked,
                          booked-observed dest info.symbol (pos amount) (pos 0) routed.1,
                          ground arith,
                        )
                  ]
            ]
      ]
    ]

-- A token deposit that succeeds keeps what was observed, and adds itself.
pub map_erc20-KeepsDeposits :
    (env : Env) (p : MapParams) (vault : Bytes) (chain_id : ℕ) (st : State) {st' : State}
    → ((b : Bytes) → length (env.keccak256 b) ≡ 32)
    → RouterKeeps env
    → map_erc20 env p vault chain_id st ≡ (ok tt, st')
    → KeepsDeposits st st'
map_erc20-KeepsDeposits env p vault chain_id st {st'} hash_32 keeps h =
    let (token, info, d, verified, mid, mid_same, written) =
      map_erc20-ok env p vault chain_id st h in
    let (raw, decoded, hashed, _) =
      verify_erc20_deposit-ok env st p.tx_data vault token chain_id verified in
    let v = pos (set_bytes d.amount_bytes) in
    let routed = (route env d.sender p.instructions info.symbol v st).1 in
    rw written (
      KeepsDeposits-trans st mid
        (mark_observed p.tx_data.block_height d.tx_hash (uint16 p.tx_data.log_index) mid)
        (KeepsDeposits-trans st routed mid
          (route-KeepsDeposits env d.sender p.instructions info.symbol v st keeps)
          (KeepsDeposits-same routed mid mid_same))
        (mark-KeepsDeposits p.tx_data.block_height d.tx_hash (uint16 p.tx_data.log_index) mid
          (rw hashed (hash_32 raw))))
