-- ===== src/Chain/Retention.antt =====
-- The headers of an accepted batch are there to be read (contract/blocklist/blocks.go: `HandleAddBlocks`,
-- `GetHeader`, and the retention of the last headers).
use account_mapping.Prelude.{
  ℕ, zero, ◌+◌, ◌<◌, ◌≤◌, ◌^◌, ◌≡◌, refl, ◌∙◌, sym, ap, subst, ◌⊎◌, inl, inr, none, some, List, [],
  ◌∷◌, arith, length,
}
use account_mapping.Result.{ok}
use account_mapping.Host.State.{State, Env}
use account_mapping.Host.Action.Laws.{Result-cases}
use account_mapping.Chain.Header.{
  EthBlockHeader, store_header, get_header, read_header, verifier, delete_header, get_last_height,
  set_last_height,
}
use account_mapping.Chain.Blocks.{
  AddBlockEntry, checked_entry, add_entries, handle_add_blocks, prune,
}
use account_mapping.Chain.Ingest.{
  checked_entry-ok, checked_entry-reads, get_header-store_header, verifier-store, add_entries-ok,
}
use account_mapping.Chain.Entry.{
  IsUint64, IsHeaderOf, checked_entry-IsHeaderOf, header-IsWellFormed,
}

abbrev pub IsIn : AddBlockEntry → List AddBlockEntry → Type 0
IsIn e [] = zero ≡ 1
IsIn e (f ∷ es) = (e ≡ f) ⊎ IsIn e es

-- A header is read from the storage of headers under its number.
read_header-frame :
    (env : Env) (st st' : State) (k : ℕ)
    → verifier st ≡ none
    → verifier st' ≡ none
    → st'.headers k ≡ st.headers k
    → read_header env st' k ≡ read_header env st k
unfolding read_header
read_header-frame env st st' k a b e = ground (arith, a, b, e)

get_header-frame :
    (env : Env) (st st' : State) (k : ℕ)
    → verifier st ≡ none
    → verifier st' ≡ none
    → st'.headers k ≡ st.headers k
    → get_header env st' k ≡ get_header env st k
unfolding get_header
get_header-frame env st st' k a b e = rw (get_header, read_header-frame env st st' k a b e)

-- Neither the header of the next height nor the pruning for it touches the last heights.
stored-headers :
    (env : Env) (h : EthBlockHeader) (n k : ℕ) (st : State)
    → h.block_number ≡ n
    → k < n
    → n < k + 101
    → (prune env n (store_header h st)).headers k ≡ st.headers k
unfolding prune store_header delete_header
stored-headers env h n k st e below near = ground arith

pruned-headers : (env : Env) (n : ℕ) (st : State) → (prune env n st).headers n ≡ st.headers n
unfolding prune delete_header
pruned-headers env n st = ground arith

verifier-stored : (h : EthBlockHeader) (st : State) → verifier (store_header h st) ≡ verifier st
unfolding verifier store_header
verifier-stored h st = refl

verifier-set_last : (n : ℕ) (st : State) → verifier (set_last_height n st) ≡ verifier st
unfolding verifier set_last_height
verifier-set_last n st = refl

headers-set_last : (n k : ℕ) (st : State) → (set_last_height n st).headers k ≡ st.headers k
unfolding set_last_height
headers-set_last n k st = refl

-- One entry that passes, and the rest of the batch.
add_entries-step :
    (env : Env) (e : AddBlockEntry) (es : List AddBlockEntry) (last cid : ℕ) (st : State) {n : ℕ}
    {st' : State}
    → add_entries env (e ∷ es) last cid st ≡ (ok n, st')
    → last + length (e ∷ es) < 2 ^ 64
    → (h : EthBlockHeader) × IsHeaderOf e h
      × (e.block_number ≡ last + 1)
      × (add_entries env es (last + 1) cid (prune env (last + 1) (store_header h st)) ≡ (ok n, st'))
unfolding add_entries
add_entries-step env e es last cid st {n} {st'} h fits =
    elim (Result-cases (checked_entry env e last cid st).0) [
      | inl (header, k) ↦
          let (number, _, _, _, _, _, _) = checked_entry-ok env e last cid st k in
          let next : e.block_number ≡ last + 1 = number ∙ ground arith in
          let there : add_entries env es e.block_number cid
                (prune env e.block_number (store_header header st))
              ≡ (ok n, st') =
            ground (arith, checked_entry-reads env e last cid st) in
          (
            header,
            checked_entry-IsHeaderOf env e last cid st k,
            next,
            subst
                (λ (m : ℕ).
                  add_entries env es m cid (prune env m (store_header header st)) ≡ (ok n, st'))
                next there,
          )
      | inr (x, k) ↦ absurd (ground arith)
    ]

-- The batch leaves the headers below it that are near enough to its end.
add_entries-headers :
    (env : Env) (es : List AddBlockEntry) (last cid : ℕ) (st : State) (k : ℕ) {n : ℕ} {st' : State}
    → add_entries env es last cid st ≡ (ok n, st')
    → last + length es < 2 ^ 64
    → k ≤ last
    → last + length es < k + 101
    → st'.headers k ≡ st.headers k
unfolding add_entries
add_entries-headers env [] last cid st k h fits below near = ground arith
add_entries-headers env (e ∷ es) last cid st k {n} {st'} h fits below near =
    let (header, made, number, there) = add_entries-step env e es last cid st h fits in
    let mid = prune env (last + 1) (store_header header st) in
    let rest =
      add_entries-headers env es (last + 1) cid mid k there (omega arith) (omega arith)
        (omega arith) in
    rest
    ∙ stored-headers env header (last + 1) k st (made.number ∙ number) (omega arith) (omega arith)

add_entries-kept :
    (env : Env) (es : List AddBlockEntry) (last cid : ℕ) (st : State) (e : AddBlockEntry) {n : ℕ}
    {st' : State}
    → add_entries env es last cid st ≡ (ok n, st')
    → last + length es < 2 ^ 64
    → verifier st ≡ none
    → IsIn e es
    → IsUint64 e
    → last + length es < e.block_number + 101
    → (h : EthBlockHeader) × (get_header env st' e.block_number ≡ some h) × IsHeaderOf e h
add_entries-kept env [] last cid st e h fits no_verifier at words near = absurd (omega arith)
add_entries-kept env (f ∷ es) last cid st e {n} {st'} h fits no_verifier (inr at) words near =
    let (header, made, number, there) = add_entries-step env f es last cid st h fits in
    let mid = prune env (last + 1) (store_header header st) in
    add_entries-kept env es (last + 1) cid mid e there (omega arith)
      (verifier-store env header (last + 1) st ∙ no_verifier) at words (omega arith)
add_entries-kept env (f ∷ es) last cid st e {n} {st'} h fits no_verifier (inl same) words near =
    let (header, made_f, number_f, there) = add_entries-step env f es last cid st h fits in
    let made : IsHeaderOf e header =
      subst (λ (x : AddBlockEntry). IsHeaderOf x header) (sym same) made_f in
    let number : e.block_number ≡ last + 1 =
      ap (λ (x : AddBlockEntry). x.block_number) same ∙ number_f in
    let stored = store_header header st in
    let mid = prune env (last + 1) stored in
    let mid_verifier = verifier-store env header (last + 1) st ∙ no_verifier in
    let (_, _, end_verifier) = add_entries-ok env es (last + 1) cid mid there (omega arith) in
    let kept =
      add_entries-headers env es (last + 1) cid mid (last + 1) there (omega arith) (omega arith)
        (omega arith)
      ∙ pruned-headers env (last + 1) stored in
    let seen =
      get_header-store_header env header st (header-IsWellFormed e header (omega arith) words made)
        no_verifier in
    let at_end =
      get_header-frame env stored st' (last + 1) (verifier-stored header st ∙ no_verifier)
        (end_verifier ∙ mid_verifier) kept in
    let height : header.block_number ≡ last + 1 = made.number ∙ number in
    (header, rw number (at_end ∙ rw height at seen), made)

-- Every header of a batch that is accepted is read back afterwards under its height, with the roots and
-- the numbers of its entry, where it is among the last 101 heights: the ones stored after it do not
-- overwrite it and pruning does not take it. There is no verifier contract, and the numbers fit a uint64.
pub added_header_kept :
    (env : Env) (blocks : List AddBlockEntry) (cid : ℕ) (st : State) (e : AddBlockEntry)
    {st' : State}
    → handle_add_blocks env blocks cid st ≡ (ok tt, st')
    → verifier st ≡ none
    → get_last_height env st + length blocks < 2 ^ 64
    → IsIn e blocks
    → IsUint64 e
    → get_last_height env st + length blocks < e.block_number + 101
    → (h : EthBlockHeader) × (get_header env st' e.block_number ≡ some h) × IsHeaderOf e h
unfolding handle_add_blocks
added_header_kept env blocks cid st e {st'} ran no_verifier fits at words near =
    let last = get_last_height env st in
    let added = add_entries env blocks last cid st in
    elim (Result-cases added.0) [
      | inr (x, k) ↦ absurd (ground arith)
      | inl (n, k) ↦
          let there : add_entries env blocks last cid st ≡ (ok n, added.1) =
            ap (λ r. (r, added.1)) k in
          let (h, found, made) =
            add_entries-kept env blocks last cid st e there fits no_verifier at words near in
          let (_, _, same) = add_entries-ok env blocks last cid st there fits in
          let written : st' ≡ set_last_height n added.1 = ground arith in
          let end =
            get_header-frame env added.1 (set_last_height n added.1) e.block_number
              (same ∙ no_verifier) (verifier-set_last n added.1 ∙ (same ∙ no_verifier))
              (headers-set_last n e.block_number added.1) in
          (h, rw written (end ∙ found), made)
    ]
