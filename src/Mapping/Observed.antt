-- ===== src/Mapping/Observed.antt =====
-- contract/mapping/observed.go: the deposits that have been processed, 34 bytes for each.
pub mod Laws
use account_mapping.Prelude.{
  ℕ, zero, suc, ◌/◌, ◌%◌, Bool, true, false, ◌||◌, Option, none, some, List, [], ◌∷◌, ◌++◌, Bytes,
  ltb, if◌then◌else◌, eqb, length, take, drop,
}
use account_mapping.Host.State.{State, set_num}

abbrev pub entry_size : ℕ
entry_size = 34

-- `uint16(index)`
unfoldable pub make_entry : Bytes → ℕ → Bytes
make_entry tx_hash index = tx_hash ++ ((index / 256) % 256) ∷ (index % 256) ∷ []

-- The loop over whole entries, with the rounds left.
unfoldable pub has_entry : ℕ → Bytes → Bytes → Bool
has_entry zero entries entry = false
has_entry (suc rounds) entries entry =
    let rest = has_entry rounds (drop entry_size entries) entry in
    if ltb (length entries) entry_size
    then false
    else if eqb (take entry_size entries) entry
    then true
    else rest

unfoldable pub is_observed : State → (block_height : ℕ) → Bytes → ℕ → Bool
unfolding make_entry has_entry
is_observed st block_height tx_hash index = elim (st.observed block_height) [
  | none ↦ false
  | some entries ↦ has_entry (length entries) entries (make_entry tx_hash index)
]

unfoldable pub append_entry : Option Bytes → Bytes → Bytes
append_entry none entry = entry
append_entry (some entries) entry = entries ++ entry

unfoldable pub mark_observed : (block_height : ℕ) → Bytes → ℕ → State → State
unfolding make_entry append_entry
mark_observed block_height tx_hash index st = record st {
  observed =
      set_num block_height (append_entry (st.observed block_height) (make_entry tx_hash index))
        st.observed;
}
