-- ===== src/Monitor/Accept/Built.antt =====
-- The trie that the monitor builds (monitor/trie.go, `BuildTrie`) has every value under its key.
use account_mapping.Prelude.{
  ℕ, zero, suc, ◌+◌, ◌<◌, ◌≤◌, ◌≡◌, refl, ◌∙◌, ap, subst, inl, inr, false, Bytes, List, [], ◌∷◌,
  ◌++◌, length, length-append, take, drop, eqb_refl, ltb, arith, Bool-cases, Option, none, some,
  drop-append_length, take-append_length, append_assoc,
}
use account_mapping.Monitor.Trie.{Trie, leaf, extension}
use account_mapping.Monitor.Build.{
  Entry, longest, common_prefix_len, with_nibble, build_many, build_node,
}
use account_mapping.Monitor.Compact.{AreNibbles}
use account_mapping.Monitor.Accept.{IsTrie, lookup}
use account_mapping.Monitor.Accept.Entries.{
  IsEntry, IsGood, AreGood, AreDistinct, IsGood-at, good-drop, longest-at, AreNibbles-drop,
  AreNibbles-take, with_nibble-good, with_nibble-distinct, with_nibble-longest,
}
use account_mapping.Monitor.Accept.Shared.{common_prefix_len-good}
use account_mapping.Monitor.Accept.Branch.{IsBuilt, branch-IsBuilt, good-length}

-- The key of an extension.
lookup-extension : (ks r : Bytes) (t : Trie) → lookup (extension ks t) (ks ++ r) ≡ lookup t r
unfolding lookup
lookup-extension ks r t =
    let n = length-append ks r in
    let not_short : ltb (length (ks ++ r)) (length ks) ≡ false = ground arith in
    rw
      (
        not_short,
        take-append_length (length ks) ks r refl,
        eqb_refl ks,
        drop-append_length (length ks) ks r refl,
      )
      refl

-- One entry is a leaf.
leaf-IsBuilt :
    (p k v : Bytes) → IsGood p k v → IsBuilt ((k, v) ∷ []) p (some (leaf (drop (length p) k) v))
unfolding IsTrie lookup
leaf-IsBuilt p k v g = record {
  tree = leaf (drop (length p) k) v;
  made = refl;
  is_trie = is_leaf;
  finds = found;
}
  where
    is_leaf : IsTrie (leaf (drop (length p) k) v)
    is_leaf =
        let n = ap (λ (s : Bytes). length s) g.behind in
        let m : length (drop (length p) k) ≡ length g.rest =
          ap (λ (s : Bytes). length s) (good-drop p k v g) in
        let low = g.short in
        (
          AreNibbles-drop (length p) k g.nibbles,
          omega (arith, length-append p g.rest),
          g.big,
          g.fits,
        )

    found :
        (l w : Bytes)
        → IsEntry (l, w) ((k, v) ∷ [])
        → lookup (leaf (drop (length p) k) v) (drop (length p) l) ≡ some w
    found l w (inl e) =
        let key : l ≡ k = ap (λ (x : Entry). x.0) e in
        let value : w ≡ v = ap (λ (x : Entry). x.1) e in
        rw (key, value, eqb_refl (drop (length p) k)) refl
    found l w (inr at) = absurd (omega arith)

-- What keys that share nibbles behind the prefix make.
extension-IsBuilt :
    (p ks k v l w : Bytes) (es : List Entry) (child : Option Trie)
    → AreNibbles ks
    → AreGood (p ++ ks) ((k, v) ∷ (l, w) ∷ es)
    → IsBuilt ((k, v) ∷ (l, w) ∷ es) (p ++ ks) child
    → IsBuilt ((k, v) ∷ (l, w) ∷ es) p (elim child [ none ↦ none | some t ↦ some (extension ks t) ])
unfolding IsTrie
extension-IsBuilt p ks k v l w es child nibbles (one, (two, good)) b =
    let all = (k, v) ∷ (l, w) ∷ es in
    record {
      tree = extension ks b.tree;
      made = rw b.made refl;
      is_trie = (
        nibbles,
        (let n = good-length (p ++ ks) k v one in
            let s = one.short in omega (arith, length-append p ks)),
        b.is_trie,
      );
      finds = λ m u at.
          let g = IsGood-at (p ++ ks) m u all (one, (two, good)) at in
          let behind : drop (length p) m ≡ ks ++ g.rest =
            ap (λ (s : Bytes). drop (length p) s) (g.behind ∙ append_assoc p ks g.rest)
            ∙ drop-append_length (length p) p (ks ++ g.rest) refl in
          let found : lookup b.tree g.rest ≡ some u =
            subst (λ (s : Bytes). lookup b.tree s ≡ some u) (good-drop (p ++ ks) m u g)
              (b.finds m u at) in
          ap (λ (s : Bytes). lookup (extension ks b.tree) s) behind
          ∙ lookup-extension ks g.rest b.tree
          ∙ found;
    }

no_entries : (fuel d : ℕ) → build_node fuel [] d ≡ none
unfolding build_node
no_entries zero d = refl
no_entries (suc fuel) d = refl

-- The trie of the entries behind a prefix, on enough fuel.
pub node-IsBuilt :
    (fuel : ℕ) (p : Bytes) (es : List Entry)
    → AreGood p es
    → AreDistinct es
    → 1 ≤ length es
    → longest es < length p + fuel
    → IsBuilt es p (build_node fuel es (length p))
unfolding build_node build_many
node-IsBuilt fuel p [] good distinct some_key enough = absurd (omega arith)
node-IsBuilt zero p ((k, v) ∷ es) (one, good) distinct some_key enough =
    let n = good-length p k v one in
    let m = longest-at k v ((k, v) ∷ es) (inl refl) in absurd (omega arith)
node-IsBuilt (suc fuel) p ((k, v) ∷ []) (one, good) distinct some_key enough =
    leaf-IsBuilt p k v one
node-IsBuilt (suc fuel) p ((k, v) ∷ (l, w) ∷ es) (one, (two, good)) distinct some_key enough =
    let all = (k, v) ∷ (l, w) ∷ es in
    let c = common_prefix_len all (length p) in
    elim (Bool-cases (ltb 0 c)) [
      | inl shares ↦
          let ks = take c (drop (length p) k) in
          let (behind, whole) = common_prefix_len-good p k v l w es (one, (two, good)) in
          let longer : length (p ++ ks) ≡ length p + c = omega (arith, length-append p ks) in
          let rest = node-IsBuilt fuel (p ++ ks) all behind distinct some_key (ground arith) in
          let child : IsBuilt all (p ++ ks) (build_node fuel all (length p + c)) =
            rw longer at rest in
          rw shares (
            extension-IsBuilt p ks k v l w es (build_node fuel all (length p + c))
              (AreNibbles-take c (drop (length p) k) (AreNibbles-drop (length p) k one.nibbles))
              behind child)
      | inr apart ↦ rw apart (
          branch-IsBuilt (λ sub. build_node fuel sub (suc (length p))) p k v l w es
            (no_entries fuel (suc (length p)))
            (λ n some_entry.
              let sub = with_nibble (length p) n all in
              let one_more : length (p ++ n ∷ []) ≡ suc (length p) =
                omega (arith, length-append p (n ∷ [])) in
              let few = with_nibble-longest (length p) n all in
              let rest =
                node-IsBuilt fuel (p ++ n ∷ []) sub (with_nibble-good p n all (one, (two, good)))
                  (with_nibble-distinct (length p) n all distinct) some_entry (omega arith) in
              rw one_more at rest)
            (one, (two, good)) distinct)
    ]
