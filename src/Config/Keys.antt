-- ===== src/Config/Keys.antt =====
-- internal/config/load.go: `rejectDuplicateKeys`.
pub mod Distinct
use oryxos_go.Common.{
  String, Option, none, some, List, [], ◌∷◌, ◌++◌, Bool, false, ◌===◌, ◌||◌, if◌then◌else◌, ◌≢◌,
  All,
}
use oryxos_go.Config.{
  ConfigError, new_config_error, or_error, Node, absent, document, sequence, mapping, scalar, alias,
  Nodes, no_node, node, Pairs, no_pair, pair, node_value, config_path,
}

-- `_, ok := seen[name]`
abbrev pub seen_in : String → List String → Bool
seen_in name [] = false
seen_in name (other ∷ seen) = other === name || seen_in name seen

mutual
  -- `rejectDuplicateKeys`
  pub reject_duplicate_keys : Node → List String → Option ConfigError
  reject_duplicate_keys absent path = none
  reject_duplicate_keys (document nodes) path = reject_in_nodes nodes path
  reject_duplicate_keys (sequence line nodes) path = reject_in_nodes nodes path
  reject_duplicate_keys (mapping line pairs) path = reject_in_pairs [] pairs path
  reject_duplicate_keys (scalar line tag value) path = none
  reject_duplicate_keys (alias line value) path = none

  pub reject_in_nodes : Nodes → List String → Option ConfigError
  reject_in_nodes no_node path = none
  reject_in_nodes (node child nodes) path =
      or_error (reject_duplicate_keys child path) (reject_in_nodes nodes path)

  -- The loop over a mapping, after the keys `seen`.
  pub reject_in_pairs : List String → Pairs → List String → Option ConfigError
  reject_in_pairs seen no_pair path = none
  reject_in_pairs seen (pair key value pairs) path =
      let child = reject_duplicate_keys value (path ++ node_value key ∷ []) in
      let rest = reject_in_pairs (node_value key ∷ seen) pairs path in
      if seen_in (node_value key) seen
      then some (new_config_error (config_path (path ++ node_value key ∷ [])) "duplicate key" none)
      else or_error child rest
