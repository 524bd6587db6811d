-- ===== src/Config/Expand.antt =====
-- internal/config/expand.go: environment placeholders in the scalars of a document.
pub mod Steps
use Prim.Native.Char.{code}
use Prim.Native.String
use oryxos_go.Common.{
  ℕ, zero, suc, String, Option, none, some, List, [], ◌∷◌, ◌++◌, Bool, true, false, not, ◌&&◌, ◌||◌,
  ◌==◌, ◌===◌, if◌then◌else◌,
}
use oryxos_go.Go.Text.{◌⊕◌}
use oryxos_go.Go.Scan.{contains, is_letter, is_digit, is_empty_text, rune_count}
use oryxos_go.Go.Parse.{cut}
use oryxos_go.Config.{
  ConfigError, new_config_error, Configured, configured, rejected, and_then, Node, absent, document,
  sequence, mapping, scalar, alias, Nodes, no_node, node, Pairs, no_pair, pair, node_value,
  config_path,
}

-- The characters of a name after the first; letters and digits are those of ASCII.
all_word : String → Bool
all_word String.[] = true
all_word (String.◌∷◌ c s) =
    (code c == b'_' || is_letter (code c) || is_digit (code c)) && all_word s

-- `validEnvironmentName`
unfoldable pub valid_environment_name : String → Bool
unfolding all_word
valid_environment_name String.[] = false
valid_environment_name (String.◌∷◌ c s) = (code c == b'_' || is_letter (code c)) && all_word s

abbrev pub with_text : String → Configured String → Configured String
with_text before (configured rest) = configured (before ⊕ rest)
with_text before (rejected e) = rejected e

-- `lookupEnv == nil`, or its answer.
abbrev pub look_up : Option (String → Option String) → String → Option String
look_up none name = none
look_up (some lookup_env) name = lookup_env name

-- A placeholder: its name is checked and looked up; `rest` is the expansion of what follows.
pub resolve_name :
    Option (String → Option String) → String → String → Configured String → Configured String
unfolding valid_environment_name
resolve_name lookup_env path name rest =
    if not (valid_environment_name name)
    then rejected (new_config_error path "malformed environment placeholder" none)
    else elim (look_up lookup_env name) [
      | none ↦
          rejected (new_config_error path ("environment variable " ⊕ name ⊕ " is not set") none)
      | some resolved ↦ with_text resolved rest
    ]

module _ (lookup_env : Option (String → Option String)) (path : String) where
  -- The loop of `expandString`, of at most so many rounds; past them the text is empty.
  pub expand_loop : ℕ → String → Configured String
  unfolding cut resolve_name
  expand_loop zero rest = configured ""
  expand_loop (suc rounds) rest =
      if is_empty_text rest then configured "" else elim (cut "${" rest) [
        | none ↦ configured rest
        | some (before, placeholder) ↦ with_text before (elim (cut "}" placeholder) [
          | none ↦ rejected (new_config_error path "malformed environment placeholder" none)
          | some (name, after) ↦ resolve_name lookup_env path name (expand_loop rounds after)
        ])
      ]

  -- `expandString`
  unfoldable pub expand_string : String → Configured String
  unfolding expand_loop
  expand_string value = expand_loop (suc (rune_count value)) value

module _ (lookup_env : Option (String → Option String)) where
  mutual
    unfolding config_path expand_string contains

    -- `expandScalars`: the document with the changed values.
    pub expand_scalars : Node → List String → Configured Node
    expand_scalars absent path = configured absent
    expand_scalars (document nodes) path =
        and_then (expand_nodes nodes path) (λ nodes'. configured (document nodes'))
    expand_scalars (sequence line nodes) path =
        and_then (expand_nodes nodes path) (λ nodes'. configured (sequence line nodes'))
    expand_scalars (mapping line pairs) path =
        and_then (expand_pairs pairs path) (λ pairs'. configured (mapping line pairs'))
    expand_scalars (scalar line tag value) path =
        if not (tag === "!!str") || not (contains value "${")
        then configured (scalar line tag value)
        else and_then (expand_string lookup_env (config_path path) value)
            (λ expanded. configured (scalar line tag expanded))
    expand_scalars (alias line value) path = configured (alias line value)

    pub expand_nodes : Nodes → List String → Configured Nodes
    expand_nodes no_node path = configured no_node
    expand_nodes (node child nodes) path =
        and_then (expand_scalars child path)
          (λ child'. and_then (expand_nodes nodes path) (λ nodes'. configured (node child' nodes')))

    pub expand_pairs : Pairs → List String → Configured Pairs
    expand_pairs no_pair path = configured no_pair
    expand_pairs (pair key value pairs) path =
        and_then (expand_scalars value (path ++ node_value key ∷ [])) (λ value'.
          and_then (expand_pairs pairs path) (λ pairs'. configured (pair key value' pairs')))
