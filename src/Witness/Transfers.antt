-- ===== src/Witness/Transfers.antt =====
-- Transfers.
use account_mapping.Prelude.{
  ◌≡◌, refl, true, false, none, some, if◌then◌else◌, List, [], ◌∷◌, ◌++◌, Bytes, bytes, eqb, ℤ, pos,
  ◌-ℤ◌, ◌+ℤ◌, ◌<ℤ◌, ◌≤ℤ◌,
}
use account_mapping.Result.{ok, err, contract_error, balance}
use account_mapping.Host.State.{State}
use account_mapping.Mapping.Balance.{get_balance, get_allowance}
use account_mapping.Mapping.Balance.Laws.{IsDistinct, contains, total}
use account_mapping.Mapping.Transfers.{
  TransferParams, positive_amount, handle_transfer, handle_transfer_from,
}
use account_mapping.Mapping.Transfers.Conserve.{
  transfer_conserves, transfer_moves, transfer_atomic, transfer_from_conserves,
  transfer_debits_dashed_account,
}
use account_mapping.Mapping.Solvency.{IsSolvent}
use account_mapping.Mapping.Transfers.Solvent.{transfer-IsSolvent}
use account_mapping.Witness.Ledger.{world-IsSolvent}
use account_mapping.Witness.World.{host, alice, bob, world, to_bob}

abbrev both : List Bytes
both = alice ∷ bob ∷ []

both-IsDistinct : IsDistinct both
unfolding account_mapping.Codec.Decimal.parse_amount account_mapping.Mapping.Balance.allowance_key
    account_mapping.Mapping.Balance.balance_key account_mapping.Mapping.Balance.dec_balance
    account_mapping.Mapping.Balance.stored_amount account_mapping.Mapping.Registry.is_paused eqb
    get_allowance get_balance handle_transfer handle_transfer_from positive_amount
both-IsDistinct = (refl, (refl, tt))

alice-listed : contains alice both ≡ true
unfolding account_mapping.Codec.Decimal.parse_amount account_mapping.Mapping.Balance.allowance_key
    account_mapping.Mapping.Balance.balance_key account_mapping.Mapping.Balance.dec_balance
    account_mapping.Mapping.Balance.stored_amount account_mapping.Mapping.Registry.is_paused eqb
    get_allowance get_balance handle_transfer handle_transfer_from positive_amount
alice-listed = refl

bob-listed : contains bob both ≡ true
unfolding account_mapping.Codec.Decimal.parse_amount account_mapping.Mapping.Balance.allowance_key
    account_mapping.Mapping.Balance.balance_key account_mapping.Mapping.Balance.dec_balance
    account_mapping.Mapping.Balance.stored_amount account_mapping.Mapping.Registry.is_paused eqb
    get_allowance get_balance handle_transfer handle_transfer_from positive_amount
bob-listed = refl

two_people : eqb alice bob ≡ false
unfolding account_mapping.Codec.Decimal.parse_amount account_mapping.Mapping.Balance.allowance_key
    account_mapping.Mapping.Balance.balance_key account_mapping.Mapping.Balance.dec_balance
    account_mapping.Mapping.Balance.stored_amount account_mapping.Mapping.Registry.is_paused eqb
    get_allowance get_balance handle_transfer handle_transfer_from positive_amount
two_people = refl

abbrev sent : State
sent = (handle_transfer (host alice 20) to_bob world).1

sent-ok : handle_transfer (host alice 20) to_bob world ≡ (ok tt, sent)
unfolding account_mapping.Codec.Decimal.parse_amount account_mapping.Mapping.Balance.allowance_key
    account_mapping.Mapping.Balance.balance_key account_mapping.Mapping.Balance.dec_balance
    account_mapping.Mapping.Balance.stored_amount account_mapping.Mapping.Registry.is_paused eqb
    get_allowance get_balance handle_transfer handle_transfer_from positive_amount
sent-ok = refl

transfer_conserves_example : total sent (bytes "eth") both ≡ total world (bytes "eth") both
transfer_conserves_example =
    transfer_conserves (host alice 20) to_bob world both sent-ok both-IsDistinct alice-listed
      bob-listed

transfer-IsSolvent_example : IsSolvent (bytes "eth") both sent
transfer-IsSolvent_example =
    transfer-IsSolvent (host alice 20) to_bob world both sent-ok both-IsDistinct alice-listed
      bob-listed world-IsSolvent

transfer_moves_example :
    (v : ℤ) × (positive_amount to_bob.amount_text ≡ ok v)
    × (pos 0 <ℤ v)
    × (v ≤ℤ get_balance world alice (bytes "eth"))
    × (get_balance sent alice (bytes "eth") ≡ get_balance world alice (bytes "eth") -ℤ v)
    × (get_balance sent bob (bytes "eth") ≡ get_balance world bob (bytes "eth") +ℤ v)
transfer_moves_example = transfer_moves (host alice 20) to_bob world sent-ok two_people

-- Bob has nothing to send.
refused :
    (handle_transfer (host bob 20) to_bob world).0
    ≡ err (contract_error balance "insufficient balance")
unfolding account_mapping.Codec.Decimal.parse_amount account_mapping.Mapping.Balance.allowance_key
    account_mapping.Mapping.Balance.balance_key account_mapping.Mapping.Balance.dec_balance
    account_mapping.Mapping.Balance.stored_amount account_mapping.Mapping.Registry.is_paused eqb
    get_allowance get_balance handle_transfer handle_transfer_from positive_amount
refused = refl

transfer_atomic_example : (handle_transfer (host bob 20) to_bob world).1 ≡ world
transfer_atomic_example = transfer_atomic (host bob 20) to_bob world refused

-- Bob takes half an ether of Alice's by his allowance.
abbrev taken : State
taken = (handle_transfer_from (host bob 20) to_bob world).1

taken-ok : handle_transfer_from (host bob 20) to_bob world ≡ (ok tt, taken)
unfolding account_mapping.Codec.Decimal.parse_amount account_mapping.Mapping.Balance.allowance_key
    account_mapping.Mapping.Balance.balance_key account_mapping.Mapping.Balance.dec_balance
    account_mapping.Mapping.Balance.stored_amount account_mapping.Mapping.Registry.is_paused eqb
    get_allowance get_balance handle_transfer handle_transfer_from positive_amount
taken-ok = refl

transfer_from_conserves_example :
    (v : ℤ) × (positive_amount to_bob.amount_text ≡ ok v)
    × (v ≤ℤ get_allowance world alice bob (bytes "eth"))
    × (get_allowance taken alice bob (bytes "eth")
        ≡ get_allowance world alice bob (bytes "eth") -ℤ v)
    × (total taken (bytes "eth") both ≡ total world (bytes "eth") both)
transfer_from_conserves_example =
    transfer_from_conserves (host bob 20) to_bob world both taken-ok both-IsDistinct alice-listed
      bob-listed

-- The account "hive" spends what "hive-x" holds.
abbrev dashed_world : State
dashed_world = record world {
  balances = λ k. if eqb k (bytes "hive-x-eth") then some (bytes "1000000000000000000") else none;
}

abbrev dashed : TransferParams
dashed = record to_bob { asset = bytes "x-eth" }

abbrev stolen : State
stolen = (handle_transfer (host (bytes "hive") 20) dashed dashed_world).1

stolen-ok : handle_transfer (host (bytes "hive") 20) dashed dashed_world ≡ (ok tt, stolen)
unfolding account_mapping.Codec.Decimal.parse_amount account_mapping.Mapping.Balance.balance_key
    account_mapping.Mapping.Balance.dec_balance account_mapping.Mapping.Balance.stored_amount
    account_mapping.Mapping.Registry.is_paused eqb get_balance handle_transfer positive_amount
stolen-ok = refl

other_people : eqb (bytes "hive") bob ≡ false
unfolding eqb
other_people = refl

transfer_debits_dashed_account_example :
    (v : ℤ) × (positive_amount dashed.amount_text ≡ ok v)
    × (pos 0 <ℤ v)
    × (get_balance stolen (bytes "hive" ++ (bytes "-" ++ bytes "x")) (bytes "eth")
        ≡ get_balance dashed_world (bytes "hive" ++ (bytes "-" ++ bytes "x")) (bytes "eth") -ℤ v)
transfer_debits_dashed_account_example =
    transfer_debits_dashed_account (host (bytes "hive") 20) dashed dashed_world (bytes "x")
      (bytes "eth") refl stolen-ok other_people
