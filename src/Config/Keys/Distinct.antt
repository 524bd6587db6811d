-- ===== src/Config/Keys/Distinct.antt =====
-- internal/config/load.go: `rejectDuplicateKeys` and documents without duplicate keys.
use oryxos_go.Common.{
  inl, inr, Bool-cases, Distinct, ◌↔◌, String, Option, none, some, List, [], ◌∷◌, ◌++◌, false,
  ◌===◌, ===_self, ===_ne, ◌≡◌, ◌≢◌, ◌↔◌, refl, sym, ap, All, Distinct, Bool-cases,
}
use oryxos_go.Config.{
  ConfigError, or_error, Node, absent, document, sequence, mapping, scalar, alias, Nodes, no_node,
  node, Pairs, no_pair, pair, node_value,
}
use oryxos_go.Config.Keys.{seen_in, reject_duplicate_keys, reject_in_nodes, reject_in_pairs}

-- The values of the keys of a mapping.
pub keys_of : Pairs → List String
keys_of no_pair = []
keys_of (pair key value pairs) = node_value key ∷ keys_of pairs

mutual
  -- No mapping of the document has a key twice.
  pub HasDistinctKeys : Node → Type 0
  HasDistinctKeys absent = Unit
  HasDistinctKeys (document nodes) = HaveDistinctKeys nodes
  HasDistinctKeys (sequence line nodes) = HaveDistinctKeys nodes
  HasDistinctKeys (mapping line pairs) = Distinct (keys_of pairs) × ValuesHaveDistinctKeys pairs
  HasDistinctKeys (scalar line tag value) = Unit
  HasDistinctKeys (alias line value) = Unit

  pub HaveDistinctKeys : Nodes → Type 0
  HaveDistinctKeys no_node = Unit
  HaveDistinctKeys (node child nodes) = HasDistinctKeys child × HaveDistinctKeys nodes

  pub ValuesHaveDistinctKeys : Pairs → Type 0
  ValuesHaveDistinctKeys no_pair = Unit
  ValuesHaveDistinctKeys (pair key value pairs) =
      HasDistinctKeys value × ValuesHaveDistinctKeys pairs

or_error-none :
    (first second : Option ConfigError)
    → or_error first second ≡ none
    → (first ≡ none) × (second ≡ none)
or_error-none none second h = (refl, h)
or_error-none (some e) second h = cc

seen_cons :
    (name key : String) (seen : List String)
    → seen_in key (name ∷ seen) ≡ false
    → (key ≢ name) × (seen_in key seen ≡ false)
seen_cons name key seen h = elim (Bool-cases (name === key)) [
  | inl same ↦ cc
  | inr other ↦ (λ e. cc (===_self name, ap (λ k. name === k) e, other), rw other at h)
]

unseen_cons :
    (name key : String) (seen : List String)
    → key ≢ name
    → seen_in key seen ≡ false
    → seen_in key (name ∷ seen) ≡ false
unseen_cons name key seen other h = rw (===_ne {s = name} {t = key} (λ e. other (sym e))) h

-- None of the keys was seen.
abbrev pub Unseen : List String → List String → Type 0
Unseen seen keys = All (λ (key : String). seen_in key seen ≡ false) keys

pub Unseen-split :
    (name : String) (seen keys : List String)
    → Unseen (name ∷ seen) keys
    → All (λ (key : String). key ≢ name) keys × Unseen seen keys
Unseen-split name seen [] h = (tt, tt)
Unseen-split name seen (key ∷ keys) (h, hs) =
    let (other, unseen) = seen_cons name key seen h in
    let (others, all_unseen) = Unseen-split name seen keys hs in
    ((other, others), (unseen, all_unseen))

pub Unseen-join :
    (name : String) (seen keys : List String)
    → All (λ (key : String). key ≢ name) keys
    → Unseen seen keys
    → Unseen (name ∷ seen) keys
Unseen-join name seen [] h k = tt
Unseen-join name seen (key ∷ keys) (other, others) (h, hs) =
    (unseen_cons name key seen other h, Unseen-join name seen keys others hs)

pub Unseen-none : (keys : List String) → Unseen [] keys
Unseen-none [] = tt
Unseen-none (key ∷ keys) = (refl, Unseen-none keys)

mutual
  unfolding reject_duplicate_keys reject_in_nodes reject_in_pairs HasDistinctKeys HaveDistinctKeys
      ValuesHaveDistinctKeys keys_of

  distinct_of_accepted :
      (n : Node) (path : List String) → reject_duplicate_keys n path ≡ none → HasDistinctKeys n
  distinct_of_accepted absent path h = tt
  distinct_of_accepted (document nodes) path h = nodes_of_accepted nodes path h
  distinct_of_accepted (sequence line nodes) path h = nodes_of_accepted nodes path h
  distinct_of_accepted (mapping line pairs) path h =
      let (unseen, distinct, values) = pairs_of_accepted [] pairs path h in (distinct, values)
  distinct_of_accepted (scalar line tag value) path h = tt
  distinct_of_accepted (alias line value) path h = tt

  nodes_of_accepted :
      (nodes : Nodes) (path : List String)
      → reject_in_nodes nodes path ≡ none
      → HaveDistinctKeys nodes
  nodes_of_accepted no_node path h = tt
  nodes_of_accepted (node child nodes) path h =
      let (first, rest) = or_error-none _ _ h in
      (distinct_of_accepted child path first, nodes_of_accepted nodes path rest)

  pairs_of_accepted :
      (seen : List String) (pairs : Pairs) (path : List String)
      → reject_in_pairs seen pairs path ≡ none
      → Unseen seen (keys_of pairs) × Distinct (keys_of pairs) × ValuesHaveDistinctKeys pairs
  pairs_of_accepted seen no_pair path h = (tt, tt, tt)
  pairs_of_accepted seen (pair key value pairs) path h =
      elim (Bool-cases (seen_in (node_value key) seen)) [
        | inl there ↦ cc (rw there at h)
        | inr new ↦
            let (child, rest) = or_error-none _ _ (rw new at h) in
            let (unseen, distinct, values) =
              pairs_of_accepted (node_value key ∷ seen) pairs path rest in
            let (others, all_unseen) = Unseen-split (node_value key) seen (keys_of pairs) unseen in
            (
              (new, all_unseen),
              (others, distinct),
              (distinct_of_accepted value (path ++ node_value key ∷ []) child, values),
            )
      ]

mutual
  unfolding reject_duplicate_keys reject_in_nodes reject_in_pairs HasDistinctKeys HaveDistinctKeys
      ValuesHaveDistinctKeys keys_of

  accepted_of_distinct :
      (n : Node) (path : List String) → HasDistinctKeys n → reject_duplicate_keys n path ≡ none
  accepted_of_distinct absent path h = refl
  accepted_of_distinct (document nodes) path h = accepted_of_nodes nodes path h
  accepted_of_distinct (sequence line nodes) path h = accepted_of_nodes nodes path h
  accepted_of_distinct (mapping line pairs) path (distinct, values) =
      accepted_of_pairs [] pairs path (Unseen-none (keys_of pairs)) distinct values
  accepted_of_distinct (scalar line tag value) path h = refl
  accepted_of_distinct (alias line value) path h = refl

  accepted_of_nodes :
      (nodes : Nodes) (path : List String)
      → HaveDistinctKeys nodes
      → reject_in_nodes nodes path ≡ none
  accepted_of_nodes no_node path h = refl
  accepted_of_nodes (node child nodes) path (first, rest) =
      rw (accepted_of_distinct child path first) (accepted_of_nodes nodes path rest)

  accepted_of_pairs :
      (seen : List String) (pairs : Pairs) (path : List String)
      → Unseen seen (keys_of pairs)
      → Distinct (keys_of pairs)
      → ValuesHaveDistinctKeys pairs
      → reject_in_pairs seen pairs path ≡ none
  accepted_of_pairs seen no_pair path unseen distinct values = refl
  accepted_of_pairs seen (pair key value pairs) path (new, unseen) (others, distinct)
        (child, values) =
      rw (new, accepted_of_distinct value (path ++ node_value key ∷ []) child)
        (accepted_of_pairs (node_value key ∷ seen) pairs path
          (Unseen-join (node_value key) seen (keys_of pairs) others unseen) distinct values)

-- `rejectDuplicateKeys` accepts a YAML document exactly where no mapping in it, at any depth, has the
-- same key twice.
pub reject_duplicate_keys-HasDistinctKeys :
    (n : Node) (path : List String) → (reject_duplicate_keys n path ≡ none) ↔ HasDistinctKeys n
reject_duplicate_keys-HasDistinctKeys n path =
    (distinct_of_accepted n path, accepted_of_distinct n path)
