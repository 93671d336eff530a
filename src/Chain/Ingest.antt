-- ===== src/Chain/Ingest.antt =====
-- What the header chain keeps (contract/blocklist/blocks.go): `StoreHeader`, `GetHeader`,
-- `HandleAddBlocks`.
use account_mapping.Prelude.{
  ℕ, ◌+◌, ◌<◌, ◌^◌, ◌≡◌, ◌∙◌, ap, subst, inl, inr, true, Option-cases, none, some, List, [], ◌∷◌,
  arith, length,
}
use account_mapping.Codec.Decimal.RoundTrip.{parse_nat-format_uint}
use account_mapping.Result.{ok}
use account_mapping.Host.State.{State, Env, add64}
use account_mapping.Host.Action.Laws.{Result-cases}
use account_mapping.Chain.Header.{
  EthBlockHeader, serialize, store_header, get_header, read_header, verifier, header_of,
  delete_header, read_height, height_of, get_last_height, set_last_height,
}
use account_mapping.Chain.Header.RoundTrip.{IsWellFormed, deserialize_header-serialize}
use account_mapping.Chain.Blocks.{
  AddBlockEntry, checked_entry, add_entries, handle_add_blocks, prune, equal_hex, keccak256_hex,
}

read_header-store_header :
    (env : Env) (h : EthBlockHeader) (st : State)
    → verifier st ≡ none
    → read_header env (store_header h st) h.block_number ≡ some (serialize h)
unfolding read_header store_header verifier
read_header-store_header env h st e = ground arith

header_of-serialize :
    (h : EthBlockHeader) → IsWellFormed h → header_of (some (serialize h)) ≡ some h
unfolding header_of
header_of-serialize h w = rw (header_of, deserialize_header-serialize h w)

-- Without a verifier contract, a header whose numbers fit a uint64 and whose roots have 32 bytes is
-- read back under its number as it was stored.
pub get_header-store_header :
    (env : Env) (h : EthBlockHeader) (st : State)
    → IsWellFormed h
    → verifier st ≡ none
    → get_header env (store_header h st) h.block_number ≡ some h
unfolding get_header
get_header-store_header env h st w none_set =
    rw (get_header, read_header-store_header env h st none_set) (header_of-serialize h w)

-- One entry that passes the checks.
pub checked_entry-ok :
    (env : Env) (entry : AddBlockEntry) (last cid : ℕ) (st : State) {h : EthBlockHeader}
    → (checked_entry env entry last cid st).0 ≡ ok h
    → (entry.block_number ≡ add64 last 1)
      × (entry.chain_id ≡ cid)
      × (h.block_number ≡ entry.block_number)
      × (h.chain_id ≡ entry.chain_id)
      × (prev : EthBlockHeader) × (get_header env st last ≡ some prev)
      × (equal_hex entry.parent_hash (keccak256_hex env (serialize prev)) ≡ true)
unfolding checked_entry
checked_entry-ok env entry last cid st {h} e = elim (Option-cases (get_header env st last)) [
  | inl none_there ↦ absurd (ground arith)
  | inr (prev, f) ↦ (ground arith, ground arith, ground arith, ground arith, prev, f, ground arith)
]

pub checked_entry-reads :
    (env : Env) (entry : AddBlockEntry) (last cid : ℕ) (st : State)
    → (checked_entry env entry last cid st).1 ≡ st
unfolding checked_entry
checked_entry-reads env entry last cid st = ground arith

-- The entries follow one another from a height on, on one chain.
abbrev pub Follows : List AddBlockEntry → (last cid : ℕ) → Type 0
Follows [] last cid = Unit
Follows (e ∷ es) last cid =
    (e.block_number ≡ last + 1) × (e.chain_id ≡ cid) × Follows es (last + 1) cid

pub verifier-store :
    (env : Env) (h : EthBlockHeader) (n : ℕ) (st : State)
    → verifier (prune env n (store_header h st)) ≡ verifier st
unfolding verifier prune store_header delete_header
verifier-store env h n st = ground arith

pub add_entries-ok :
    (env : Env) (es : List AddBlockEntry) (last cid : ℕ) (st : State) {n : ℕ} {st' : State}
    → add_entries env es last cid st ≡ (ok n, st')
    → last + length es < 2 ^ 64
    → Follows es last cid × (n ≡ last + length es) × (verifier st' ≡ verifier st)
unfolding add_entries
add_entries-ok env [] last cid st h fits = (tt, ground arith, ground arith)
add_entries-ok env (e ∷ es) last cid st {n} {st'} h fits =
    elim (Result-cases (checked_entry env e last cid st).0) [
      | inl (header, k) ↦
          let (number, chain, _, _, _, _, _) = checked_entry-ok env e last cid st k in
          let next : e.block_number ≡ last + 1 = number ∙ ground arith in
          let mid = prune env e.block_number (store_header header st) in
          let there : add_entries env es e.block_number cid mid ≡ (ok n, st') =
            ground (arith, checked_entry-reads env e last cid st) in
          let rest : add_entries env es (last + 1) cid mid ≡ (ok n, st') =
            subst (λ k. add_entries env es k cid mid ≡ (ok n, st')) next there in
          let (follows, total, same) =
            add_entries-ok env es (last + 1) cid mid rest (omega arith) in
          ((next, chain, follows), omega arith, same ∙ verifier-store env header e.block_number st)
      | inr (x, k) ↦ absurd (ground arith)
    ]

get_last-set_last :
    (env : Env) (n : ℕ) (st : State)
    → verifier st ≡ none
    → n < 2 ^ 64
    → get_last_height env (set_last_height n st) ≡ n
unfolding get_last_height set_last_height verifier read_height height_of
get_last-set_last env n st e fits = ground (arith, parse_nat-format_uint n)

-- A batch of headers that is accepted: the chain was seeded, the entries number the heights after
-- the last one, one by one, with the contract's chain id, and the last height has moved by their
-- number. There is no verifier contract, and the heights fit a uint64.
pub add_blocks_sequential :
    (env : Env) (blocks : List AddBlockEntry) (cid : ℕ) (st : State) {st' : State}
    → handle_add_blocks env blocks cid st ≡ (ok tt, st')
    → verifier st ≡ none
    → get_last_height env st + length blocks < 2 ^ 64
    → (0 < get_last_height env st)
      × Follows blocks (get_last_height env st) cid
      × (get_last_height env st' ≡ get_last_height env st + length blocks)
unfolding handle_add_blocks
add_blocks_sequential env blocks cid st {st'} h no_verifier fits =
    let last = get_last_height env st in
    let added = add_entries env blocks last cid st in
    elim (Result-cases added.0) [
      | inl (n, k) ↦
          let (follows, total, same) =
            add_entries-ok env blocks last cid st {n = n} {st' = added.1} (ap (λ r. (r, added.1)) k)
              fits in
          let written : st' ≡ set_last_height n added.1 = ground arith in
          (
            ground arith,
            follows,
            rw (written, total)
                (get_last-set_last env (last + length blocks) added.1 (same ∙ no_verifier) fits),
          )
      | inr (x, k) ↦ absurd (ground arith)
    ]
