-- ===== src/Monitor/Build.antt =====
-- monitor/trie.go: `BuildTrie`. A key stands with its value; the recursion is on fuel, one unit for each
-- level, and a level takes at least a nibble of the longest key.
use account_mapping.Prelude.{
  ℕ, zero, suc, ◌+◌, ◌-◌, Bool, true, ◌&&◌, Option, none, some, List, [], ◌∷◌, Bytes, map, length,
  ltb, ◌==◌, if◌then◌else◌, take, drop, get_or,
}
use Prim.Native.Nat.{max}
use account_mapping.Monitor.Trie.{
  Trie, leaf, branch, extension, Slots, no_slots, nil_slot, slot, key_to_nibbles,
}

abbrev pub Entry : Type 0
Entry = Bytes × Bytes

-- The shortest and the longest key.
unfoldable pub shortest : ℕ → List Entry → ℕ
shortest n [] = n
shortest n ((k, v) ∷ es) = shortest (if ltb (length k) n then length k else n) es

unfoldable pub longest : List Entry → ℕ
longest [] = 0
longest ((k, v) ∷ es) = max (length k) (longest es)

-- All keys have the nibble at the position.
unfoldable pub all_match : (position nibble : ℕ) → List Entry → Bool
all_match position nibble [] = true
all_match position nibble ((k, v) ∷ es) =
    get_or k position 0 == nibble && all_match position nibble es

-- The loop of `commonPrefixLen`, with the rounds left.
unfoldable pub common_from : (rounds position : ℕ) → (first : Bytes) → List Entry → ℕ
common_from zero position first es = 0
common_from (suc rounds) position first es =
    let more = suc (common_from rounds (suc position) first es) in
    if all_match position (get_or first position 0) es then more else 0

unfoldable pub common_prefix_len : List Entry → (depth : ℕ) → ℕ
unfolding shortest
common_prefix_len [] depth = 0
common_prefix_len (e ∷ []) depth = 0
common_prefix_len ((k, v) ∷ es) depth = common_from (shortest (length k) es - depth) depth k es

-- The entries whose key goes on with the nibble, and the value of a key that ends.
unfoldable pub with_nibble : (depth nibble : ℕ) → List Entry → List Entry
with_nibble depth nibble [] = []
with_nibble depth nibble ((k, v) ∷ es) =
    let rest = with_nibble depth nibble es in
    if ltb depth (length k) && get_or k depth 0 == nibble then (k, v) ∷ rest else rest

unfoldable pub ended_value : (depth : ℕ) → Bytes → List Entry → Bytes
ended_value depth found [] = found
ended_value depth found ((k, v) ∷ es) =
    ended_value depth (if length k == depth then v else found) es

-- The loop over the nibbles; `build` builds a child.
unfoldable pub slots_from :
    (List Entry → Option Trie) → (rounds nibble depth : ℕ) → List Entry → Slots
slots_from build zero nibble depth es = no_slots
slots_from build (suc rounds) nibble depth es =
    let rest = slots_from build rounds (suc nibble) depth es in
    elim (build (with_nibble depth nibble es)) [ none ↦ nil_slot rest | some t ↦ slot t rest ]

-- More than one entry: an extension over what the keys share, or a branch.
unfoldable pub build_many :
    (List Entry → ℕ → Option Trie) → (first : Bytes) → List Entry → (depth : ℕ) → Option Trie
build_many build first es depth =
    let shared = common_prefix_len es depth in
    let child = build es (depth + shared) in
    if ltb 0 shared
    then elim child [ none ↦ none | some t ↦ some (extension (take shared (drop depth first)) t) ]
    else some
        (branch (slots_from (λ sub. build sub (suc depth)) 16 0 depth es) (ended_value depth [] es))

unfoldable pub build_node : (fuel : ℕ) → List Entry → (depth : ℕ) → Option Trie
build_node zero es depth = none
build_node (suc fuel) [] depth = none
build_node (suc fuel) ((k, v) ∷ []) depth = some (leaf (drop depth k) v)
build_node (suc fuel) ((k, v) ∷ e ∷ es) depth =
    build_many (build_node fuel) k ((k, v) ∷ e ∷ es) depth

abbrev pub nibble_entry : Entry → Entry
nibble_entry (k, v) = (key_to_nibbles k, v)

unfoldable pub build_trie : List Entry → Option Trie
unfolding build_node longest
build_trie es = let nibbles = map nibble_entry es in build_node (suc (longest nibbles)) nibbles 0
