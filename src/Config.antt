-- ===== src/Config.antt =====
-- internal/config: the server configuration and its YAML document. `lookup_env` may be nil. The YAML
-- library, `time.ParseDuration` and the patterns of SanitizeErrorString are parameters.
pub mod Keys
pub mod Expand
pub mod Shape
pub mod Fields
pub mod Server
pub mod Load
use oryxos_go.Common.{ℕ, String, Option, none, some, List, [], ◌++◌, ◌∷◌}
use oryxos_go.Common.Int.{ℤ}
use oryxos_go.Go.Text.{◌⊕◌, join}
use oryxos_go.Go.Error.{Error, Redaction}

-- `configError`
pub record ConfigError : Type 0 where
  pub path : String
  pub message : String
  pub cause : Option Error

-- `configError.Error`
pub error_text : Redaction → ConfigError → String
error_text redaction e = "config " ⊕ e.path ⊕ ": " ⊕ redaction.sanitize e.message

-- `newConfigError`
abbrev pub new_config_error : String → String → Option Error → ConfigError
new_config_error path message cause = record { path = path; message = message; cause = cause }

-- A value, or a configuration error.
pub data Configured {ℓ} (A : Type ℓ) : Type ℓ where
  configured : A → Configured A
  rejected : ConfigError → Configured A

module _ {A B : Type 0} where
  abbrev pub and_then : Configured A → (A → Configured B) → Configured B
  and_then (configured a) next = next a
  and_then (rejected e) next = rejected e

-- After a test that may give an error.
abbrev pub unless_error : {A : Type 0} → Option ConfigError → Configured A → Configured A
unless_error none next = next
unless_error (some e) next = rejected e

abbrev pub or_error : Option ConfigError → Option ConfigError → Option ConfigError
or_error none next = next
or_error (some e) next = some e

-- `yaml.Node`: its kind, tag, value and line, those that the program reads. The zero node is `absent`;
-- the content of a mapping is its keys and values in turns.
mutual
  pub data Node : Type 0 where
    absent : Node
    document : Nodes → Node
    sequence : ℕ → Nodes → Node
    mapping : ℕ → Pairs → Node
    scalar : ℕ → String → String → Node
    alias : ℕ → String → Node

  pub data Nodes : Type 0 where
    no_node : Nodes
    node : Node → Nodes → Nodes

  pub data Pairs : Type 0 where
    no_pair : Pairs
    pair : Node → Node → Pairs → Pairs

-- `node.Value`
abbrev pub node_value : Node → String
node_value (scalar line tag value) = value
node_value (alias line value) = value
node_value _ = ""

-- `node.Line`; a document is on no line that is compared.
abbrev pub node_line : Node → ℕ
node_line (sequence line nodes) = line
node_line (mapping line pairs) = line
node_line (scalar line tag value) = line
node_line (alias line value) = line
node_line _ = 0

-- `configPath`
unfoldable pub config_path : List String → String
unfolding join
config_path [] = "document"
config_path (name ∷ names) = join (name ∷ names) "."
