-- ===== src/Witness/Ledger.antt =====
-- Withdrawals and transfers.
use account_mapping.Prelude.{
  ◌≡◌, refl, true, some, List, [], ◌∷◌, Bytes, bytes, eqb, ◌-ℤ◌, ◌+ℤ◌, ◌+◌, ◌≤◌, arith,
}
use account_mapping.Codec.Hex.{encode_to_string}
use account_mapping.Result.{Result, ok, err, contract_error, intent}
use account_mapping.Host.State.{State}
use account_mapping.Mapping.Balance.{get_balance, get_allowance}
use account_mapping.Mapping.Balance.Laws.{IsDistinct, contains, total}
use account_mapping.Mapping.Solvency.{IsSolvent}
use account_mapping.Mapping.Withdrawal.{get_confirmed_nonce, get_pending_nonce}
use account_mapping.Mapping.Transfers.{
  TransferParams, positive_amount, handle_transfer, handle_transfer_from,
}
use account_mapping.Mapping.Unmap.{handle_unmap_eth, handle_unmap_erc20}
use account_mapping.Mapping.Unmap.Native.{unmap_eth_atomic}
use account_mapping.Mapping.Unmap.Effect.{unmap_eth-IsSolvent}
use account_mapping.Mapping.Queue.{Queue, idle, Represents}
use account_mapping.Mapping.Queue.Trace.{
  unmap_eth, start, later, Moves, head, handlers_refine_queue,
}
use account_mapping.Witness.World.{host, alice, bob, vault, world, half_ether}

unfoldable pub tx_of : Result Bytes → Bytes
tx_of (ok b) = b
tx_of (err e) = []

abbrev run : Result Bytes × State
run = handle_unmap_eth (host alice 20) half_ether vault 1 world

ran : run ≡ (ok (tx_of run.0), run.1)
unfolding account_mapping.Chain.Header.deserialize_header account_mapping.Chain.Header.get_header
    account_mapping.Chain.Header.get_last_height account_mapping.Chain.Header.header_of
    account_mapping.Chain.Header.height_of account_mapping.Chain.Header.non_empty
    account_mapping.Chain.Header.read_header account_mapping.Chain.Header.read_height
    account_mapping.Chain.Header.read_uint64 account_mapping.Chain.Header.serialize
    account_mapping.Chain.Header.uint64_bytes account_mapping.Chain.Header.verifier
    account_mapping.Codec.Decimal.big_int_string account_mapping.Codec.Decimal.digits_from
    account_mapping.Codec.Decimal.format_uint account_mapping.Codec.Decimal.parse_amount
    account_mapping.Codec.Decimal.parse_digits account_mapping.Codec.Decimal.parse_nat
    account_mapping.Codec.Decimal.parse_uint64 account_mapping.Codec.Decimal.set_string
    account_mapping.Codec.Hex.address_to_hex account_mapping.Codec.Hex.decode_string
    account_mapping.Codec.Hex.hex_digit account_mapping.Codec.Hex.hex_to_address
    account_mapping.Codec.Hex.hex_value account_mapping.Codec.Hex.trim_0x
    account_mapping.Mapping.Balance.balance_key account_mapping.Mapping.Balance.dec_balance
    account_mapping.Mapping.Balance.set_balance account_mapping.Mapping.Balance.stored_amount
    account_mapping.Mapping.Gas.deduct_gas_reserve account_mapping.Mapping.Gas.get_gas_reserve
    account_mapping.Mapping.Gas.safe_gas_fee account_mapping.Mapping.Gas.set_gas_reserve
    account_mapping.Mapping.Registry.get_token_info account_mapping.Mapping.Registry.is_one
    account_mapping.Mapping.Registry.is_paused account_mapping.Mapping.Registry.minimum_of
    account_mapping.Mapping.Registry.parse_int64 account_mapping.Mapping.Registry.parse_uint8
    account_mapping.Mapping.Registry.split_pipe account_mapping.Mapping.Registry.split_pipe_from
    account_mapping.Mapping.Registry.token_info_of account_mapping.Mapping.Registry.tss_key_missing
    account_mapping.Mapping.Registry.tss_sign account_mapping.Mapping.Supply.book_native_withdrawal
    account_mapping.Mapping.Supply.get_supply account_mapping.Mapping.Supply.set_supply
    account_mapping.Mapping.Supply.track_withdrawal account_mapping.Mapping.Transfers.debit
    account_mapping.Mapping.Unmap.check_max_fee account_mapping.Mapping.Unmap.check_unmap_erc20
    account_mapping.Mapping.Unmap.check_unmap_eth account_mapping.Mapping.Unmap.commit_unmap_erc20
    account_mapping.Mapping.Unmap.commit_unmap_eth account_mapping.Mapping.Unmap.destination
    account_mapping.Mapping.Unmap.require_gas_reserve account_mapping.Mapping.Unmap.require_idle
    account_mapping.Mapping.Unmap.require_tss_key account_mapping.Mapping.Unmap.tip_header
    account_mapping.Mapping.Withdrawal.build_eip1559_tx
    account_mapping.Mapping.Withdrawal.build_erc20_withdrawal_tx
    account_mapping.Mapping.Withdrawal.build_eth_withdrawal_tx
    account_mapping.Mapping.Withdrawal.compute_sighash
    account_mapping.Mapping.Withdrawal.encode_transfer
    account_mapping.Mapping.Withdrawal.get_pending_spend
    account_mapping.Mapping.Withdrawal.has_pending_withdrawal
    account_mapping.Mapping.Withdrawal.set_pending_nonce
    account_mapping.Mapping.Withdrawal.store_pending_spend account_mapping.Rlp.Encode.be_digits
    account_mapping.Rlp.Encode.big_endian_uint64 account_mapping.Rlp.Encode.big_int_bytes
    account_mapping.Rlp.Encode.encode_address account_mapping.Rlp.Encode.encode_big_int
    account_mapping.Rlp.Encode.encode_bytes account_mapping.Rlp.Encode.encode_length
    account_mapping.Rlp.Encode.encode_list account_mapping.Rlp.Encode.encode_uint64 encode_to_string
    eqb get_balance get_confirmed_nonce get_pending_nonce handle_unmap_erc20 handle_unmap_eth
    positive_amount total tx_of ◌+ℤ◌ ◌-ℤ◌
ran = refl

abbrev both : List Bytes
both = alice ∷ bob ∷ []

both-IsDistinct : IsDistinct both
unfolding account_mapping.Codec.Decimal.parse_amount account_mapping.Mapping.Balance.balance_key
    account_mapping.Mapping.Balance.stored_amount account_mapping.Mapping.Supply.get_supply
    account_mapping.Mapping.Withdrawal.get_pending_spend eqb get_balance get_confirmed_nonce
    get_pending_nonce total ◌+ℤ◌
both-IsDistinct = (refl, (refl, tt))

alice-listed : contains alice both ≡ true
unfolding account_mapping.Codec.Decimal.parse_amount account_mapping.Mapping.Balance.balance_key
    account_mapping.Mapping.Balance.stored_amount account_mapping.Mapping.Supply.get_supply
    account_mapping.Mapping.Withdrawal.get_pending_spend eqb get_balance get_confirmed_nonce
    get_pending_nonce total ◌+ℤ◌
alice-listed = refl

bob-listed : contains bob both ≡ true
unfolding account_mapping.Codec.Decimal.parse_amount account_mapping.Mapping.Balance.balance_key
    account_mapping.Mapping.Balance.stored_amount account_mapping.Mapping.Supply.get_supply
    account_mapping.Mapping.Withdrawal.get_pending_spend eqb get_balance get_confirmed_nonce
    get_pending_nonce total ◌+ℤ◌
bob-listed = refl

pub world-IsSolvent : IsSolvent (bytes "eth") both world
unfolding account_mapping.Codec.Decimal.parse_amount account_mapping.Mapping.Balance.balance_key
    account_mapping.Mapping.Balance.stored_amount account_mapping.Mapping.Supply.get_supply
    account_mapping.Mapping.Withdrawal.get_pending_spend eqb get_balance get_confirmed_nonce
    get_pending_nonce total ◌+ℤ◌
world-IsSolvent = record { backed = refl; nonneg = (omega arith, (omega arith, tt)) }

unmap_eth-IsSolvent_example : IsSolvent (bytes "eth") both run.1
unmap_eth-IsSolvent_example =
    unmap_eth-IsSolvent (host alice 20) half_ether vault 1 world both ran both-IsDistinct
      alice-listed world-IsSolvent

-- A paused contract.
abbrev paused_world : State
paused_world = record world { paused = some (bytes "1") }

paused_run :
    (handle_unmap_eth (host alice 20) half_ether vault 1 paused_world).0
    ≡ err (contract_error intent "contract is paused")
unfolding account_mapping.Codec.Decimal.parse_amount account_mapping.Mapping.Balance.balance_key
    account_mapping.Mapping.Balance.stored_amount account_mapping.Mapping.Registry.is_paused
    account_mapping.Mapping.Supply.get_supply account_mapping.Mapping.Unmap.check_unmap_eth
    account_mapping.Mapping.Withdrawal.get_pending_spend eqb get_balance get_confirmed_nonce
    get_pending_nonce handle_unmap_eth total ◌+ℤ◌
paused_run = refl

unmap_eth_atomic_example :
    (handle_unmap_eth (host alice 20) half_ether vault 1 paused_world).1 ≡ paused_world
unmap_eth_atomic_example =
    unmap_eth_atomic (host alice 20) half_ether vault 1 paused_world paused_run

world-idle : Represents world (idle 0)
unfolding account_mapping.Mapping.Withdrawal.get_pending_spend get_confirmed_nonce get_pending_nonce
world-idle = (refl, refl, λ m. refl)

handlers_refine_queue_example :
    (r : Queue) × Moves (idle 0) r × Represents run.1 r × (0 ≤ head r) × (head r ≤ 0 + 1)
handlers_refine_queue_example =
    handlers_refine_queue (idle 0)
      (later start (unmap_eth (host alice 20) half_ether vault 1 (tx_of run.0) ran)) world-idle
      (omega arith)
