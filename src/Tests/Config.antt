-- ===== src/Tests/Config.antt =====
-- A configuration of two settings, and a document with a key twice.
use oryxos_go.Common.{◌≡◌, ◌↔◌, refl, String, Option, none, some, [], ◌∷◌, if◌then◌else◌, ◌===◌}
use oryxos_go.Common.Int.{ℤ}
use oryxos_go.Go.Error.{Sentinel, leaf, sentinel}
use oryxos_go.Go.Effect.{Result, ok, err}
use oryxos_go.Config.{
  Node, document, mapping, scalar, node, no_node, pair, no_pair, configured, Pairs,
}
use oryxos_go.Config.Keys.{reject_duplicate_keys}
use oryxos_go.Config.Keys.Distinct.{HasDistinctKeys, reject_duplicate_keys-HasDistinctKeys}
use oryxos_go.Config.Expand.{expand_string}
use oryxos_go.Config.Expand.Steps.{IsExpanded, expand_string-IsExpanded}
use oryxos_go.Config.Fields.Found.{IsNamed, HaveNamedKeys, IsFound, find_yaml_field_path-IsFound}
use oryxos_go.Config.Fields.{find_yaml_field_path, unknown_field, yaml_error_line}
use oryxos_go.Config.Server.{RawServerConfig, validate_server_config}
use oryxos_go.Config.Server.Accepts.{Judged}
use oryxos_go.Config.Server.Accepts.Complete.{
  IsAcceptable, IsConfigOf, validate_server_config-Judged,
}
use oryxos_go.Config.Load.{YamlLibrary, load_server_yaml}
use oryxos_go.Config.Load.Sound.{Holds, IsUnambiguous, IsSettled, load_server_yaml-IsSettled}

abbrev text_node : String → Node
text_node value = scalar 1 "!!str" value

abbrev twice : Node
twice =
    mapping 1
      (pair (text_node "http") (mapping 2 no_pair) (pair (text_node "http") (text_node "") no_pair))

reject_duplicate_keys-HasDistinctKeys_example :
    (reject_duplicate_keys twice [] ≡ none) ↔ HasDistinctKeys twice
reject_duplicate_keys-HasDistinctKeys_example = reject_duplicate_keys-HasDistinctKeys twice []

abbrev environment : String → Option String
environment name = if name === "KEY" then some "${KEY}" else none

expand_string-IsExpanded_example :
    IsExpanded
      (some environment)
      "api_key"
      "k-${KEY}-${NONE}"
      (expand_string (some environment) "api_key" "k-${KEY}-${NONE}")
expand_string-IsExpanded_example =
    expand_string-IsExpanded (some environment) "api_key" "k-${KEY}-${NONE}"

-- A value is not expanded again.
expands_once : expand_string (some environment) "api_key" "k-${KEY}" ≡ configured "k-${KEY}"
unfolding expand_string
expands_once = refl

abbrev duration : String → Result ℤ
duration text =
    if text === "0s"
    then ok (ℤ.pos 0)
    else if text === ""
    then err (leaf "time: invalid duration \"\"")
    else ok (ℤ.pos 1000000000)

abbrev settings : RawServerConfig
settings = record {
  listen_address = some "localhost:65535";
  log_format = none;
  providers = record { name = some " deepseek "; api_key = some "k" } ∷ [];
  http = some (record {
    read_header_timeout = none;
    read_timeout = some "1s";
    write_timeout = none;
    idle_timeout = none;
  });
  shutdown_timeout = none;
}

validate_server_config-Judged_example :
    Judged
      (IsAcceptable duration settings)
      (IsConfigOf duration settings)
      (validate_server_config duration settings)
validate_server_config-Judged_example = validate_server_config-Judged duration settings

abbrev yaml : YamlLibrary
yaml = record {
  decode = λ text. (
    document
        (node (mapping 1 (pair (text_node "listen_address") (text_node text) no_pair)) no_node),
    none,
  );
  decode_trailing = λ text. some (sentinel Sentinel.eof);
  encode = λ root. ok "";
  decode_raw = λ text. ok settings;
  decode_raw_trailing = λ text. some (sentinel Sentinel.eof);
  type_errors = λ e. none;
  parse_duration = duration;
}

load_server_yaml-IsSettled_example :
    Holds
      (λ config. IsUnambiguous yaml (yaml.decode "localhost:65535").0 × IsSettled yaml config)
      (load_server_yaml yaml none "localhost:65535")
load_server_yaml-IsSettled_example = load_server_yaml-IsSettled yaml none "localhost:65535"

names_unknown_field :
    (unknown_field "line 2: field colour not found in type config.rawHTTP" ≡ "colour")
    × (yaml_error_line "line 12: cannot unmarshal" ≡ some (ℤ.pos 12))
unfolding unknown_field yaml_error_line
names_unknown_field = (refl, refl)

abbrev colourful : Pairs
colourful =
    pair (text_node "http") (mapping 2 (pair (text_node "colour") (text_node "red") no_pair))
      no_pair

colourful-HaveNamedKeys : HaveNamedKeys colourful
unfolding HaveNamedKeys IsNamed
colourful-HaveNamedKeys = (refl, (refl, tt, tt), tt)

find_yaml_field_path-IsFound_example :
    IsFound colourful [] "colour"
      (find_yaml_field_path (document (node (mapping 1 colourful) no_node)) "colour")
find_yaml_field_path-IsFound_example =
    find_yaml_field_path-IsFound 1 colourful no_node "colour" colourful-HaveNamedKeys
