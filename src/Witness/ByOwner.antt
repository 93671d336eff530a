-- ===== src/Witness/ByOwner.antt =====
-- Withdrawals on behalf of an owner.
use account_mapping.Prelude.{ℕ, ◌≡◌, refl, Bytes, bytes, ℤ, pos, ◌-ℤ◌, ◌≤ℤ◌, arith}
use account_mapping.Result.{ok}
use account_mapping.Host.State.{State}
use account_mapping.Mapping.Balance.{get_balance, get_allowance}
use account_mapping.Mapping.Supply.{get_supply}
use account_mapping.Mapping.Withdrawal.{get_confirmed_nonce, get_pending_nonce}
use account_mapping.Mapping.Transfers.{positive_amount}
use account_mapping.Mapping.UnmapFrom.{FromPlan, check_unmap_from, handle_unmap_from}
use account_mapping.Mapping.UnmapFrom.Effect.{unmap_from_ledger}
use account_mapping.Mapping.UnmapFrom.Laws.{FromDebit}
use account_mapping.Witness.World.{host, alice, bob, vault, world, half_ether}

-- Bob withdraws half an ether of Alice's; the fee is on top.
abbrev by_bob : State
by_bob = (handle_unmap_from (host bob 20) half_ether vault 1 world).1

by_bob-ran : handle_unmap_from (host bob 20) half_ether vault 1 world ≡ (ok tt, by_bob)
unfolding account_mapping.Chain.Header.deserialize_header account_mapping.Chain.Header.get_header
    account_mapping.Chain.Header.get_last_height account_mapping.Chain.Header.header_of
    account_mapping.Chain.Header.height_of account_mapping.Chain.Header.non_empty
    account_mapping.Chain.Header.read_header account_mapping.Chain.Header.read_height
    account_mapping.Chain.Header.read_uint64 account_mapping.Chain.Header.serialize
    account_mapping.Chain.Header.uint64_bytes account_mapping.Chain.Header.verifier
    account_mapping.Codec.Decimal.big_int_string account_mapping.Codec.Decimal.digits_from
    account_mapping.Codec.Decimal.format_uint account_mapping.Codec.Decimal.parse_amount
    account_mapping.Codec.Decimal.parse_digits account_mapping.Codec.Decimal.parse_nat
    account_mapping.Codec.Decimal.parse_uint64 account_mapping.Codec.Decimal.set_string
    account_mapping.Codec.Hex.address_to_hex account_mapping.Codec.Hex.decode_string
    account_mapping.Codec.Hex.encode_to_string account_mapping.Codec.Hex.hex_digit
    account_mapping.Codec.Hex.hex_to_address account_mapping.Codec.Hex.hex_value
    account_mapping.Codec.Hex.trim_0x account_mapping.Mapping.Balance.allowance_key
    account_mapping.Mapping.Balance.balance_key account_mapping.Mapping.Balance.dec_balance
    account_mapping.Mapping.Balance.set_allowance account_mapping.Mapping.Balance.set_balance
    account_mapping.Mapping.Balance.stored_amount account_mapping.Mapping.Gas.deduct_gas_reserve
    account_mapping.Mapping.Gas.get_gas_reserve account_mapping.Mapping.Gas.safe_gas_fee
    account_mapping.Mapping.Gas.set_gas_reserve account_mapping.Mapping.Registry.get_token_info
    account_mapping.Mapping.Registry.is_one account_mapping.Mapping.Registry.is_paused
    account_mapping.Mapping.Registry.minimum_of account_mapping.Mapping.Registry.parse_int64
    account_mapping.Mapping.Registry.parse_uint8 account_mapping.Mapping.Registry.split_pipe
    account_mapping.Mapping.Registry.split_pipe_from account_mapping.Mapping.Registry.token_info_of
    account_mapping.Mapping.Registry.tss_key_missing account_mapping.Mapping.Registry.tss_sign
    account_mapping.Mapping.Supply.set_supply account_mapping.Mapping.Supply.track_withdrawal
    account_mapping.Mapping.Transfers.debit account_mapping.Mapping.Unmap.check_max_fee
    account_mapping.Mapping.Unmap.destination account_mapping.Mapping.Unmap.require_gas_reserve
    account_mapping.Mapping.Unmap.require_idle account_mapping.Mapping.Unmap.require_tss_key
    account_mapping.Mapping.Unmap.tip_header account_mapping.Mapping.UnmapFrom.build_unmap_from
    account_mapping.Mapping.UnmapFrom.check_native account_mapping.Mapping.UnmapFrom.check_token
    account_mapping.Mapping.UnmapFrom.commit_unmap_from account_mapping.Mapping.UnmapFrom.from_token
    account_mapping.Mapping.UnmapFrom.from_total account_mapping.Mapping.UnmapFrom.native_total
    account_mapping.Mapping.Withdrawal.build_eip1559_tx
    account_mapping.Mapping.Withdrawal.build_erc20_withdrawal_tx
    account_mapping.Mapping.Withdrawal.build_eth_withdrawal_tx
    account_mapping.Mapping.Withdrawal.compute_sighash
    account_mapping.Mapping.Withdrawal.encode_transfer
    account_mapping.Mapping.Withdrawal.has_pending_withdrawal
    account_mapping.Mapping.Withdrawal.set_pending_nonce
    account_mapping.Mapping.Withdrawal.store_pending_spend account_mapping.Prelude.eqb
    account_mapping.Prelude.◌+ℤ◌ account_mapping.Rlp.Encode.be_digits
    account_mapping.Rlp.Encode.big_endian_uint64 account_mapping.Rlp.Encode.big_int_bytes
    account_mapping.Rlp.Encode.encode_address account_mapping.Rlp.Encode.encode_big_int
    account_mapping.Rlp.Encode.encode_bytes account_mapping.Rlp.Encode.encode_length
    account_mapping.Rlp.Encode.encode_list account_mapping.Rlp.Encode.encode_uint64 check_unmap_from
    get_allowance get_balance get_confirmed_nonce get_pending_nonce get_supply handle_unmap_from
    positive_amount ◌-ℤ◌
by_bob-ran = refl

unmap_from_ledger_example :
    (plan : FromPlan) × (positive_amount half_ether.amount_text ≡ ok plan.amount)
    × FromDebit (host bob 20) half_ether world plan
    × (get_balance by_bob alice (bytes "eth")
        ≡ get_balance world alice (bytes "eth") -ℤ plan.total_deduct)
    × ((get_supply by_bob (bytes "eth")).user
        ≡ (get_supply world (bytes "eth")).user -ℤ plan.amount)
    × (plan.amount ≤ℤ get_allowance world alice bob (bytes "eth"))
    × (get_allowance by_bob alice bob (bytes "eth")
        ≡ get_allowance world alice bob (bytes "eth") -ℤ plan.amount)
unmap_from_ledger_example = unmap_from_ledger (host bob 20) half_ether vault 1 world by_bob-ran
