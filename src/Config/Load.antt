-- ===== src/Config/Load.antt =====
-- internal/config/load.go: `LoadServerYAML`, from the bytes to the configuration.
pub mod Sound
use oryxos_go.Common.{String, Option, none, some, List, [], Bool, true, false, if◌then◌else◌}
use oryxos_go.Common.Int.{ℤ}
use oryxos_go.Go.Error.{Error, Sentinel, is}
use oryxos_go.Go.Effect.{Result, ok, err}
use oryxos_go.Config.{
  new_config_error, Configured, configured, rejected, and_then, unless_error, Node, absent,
  document, sequence, mapping, pair, node,
}
use oryxos_go.Config.Keys.{reject_duplicate_keys}
use oryxos_go.Config.Expand.{expand_scalars}
use oryxos_go.Config.Shape.{validate_yaml_shape}
use oryxos_go.Config.Fields.{strict_decode_error}
use oryxos_go.Config.Server.{RawServerConfig, ServerConfig, validate_server_config}

-- The calls of the YAML library and `time.ParseDuration`. `decode` gives the node and the error of the
-- first `Decode`; `decode_trailing` is the error of the second, and so for the strict decoder.
-- `type_errors` is `errors.As` with a `yaml.TypeError`.
pub record YamlLibrary : Type 0 where
  pub decode : String → Node × Option Error
  pub decode_trailing : String → Option Error
  pub encode : Node → Result String
  pub decode_raw : String → Result RawServerConfig
  pub decode_raw_trailing : String → Option Error
  pub type_errors : Error → Option (List String)
  pub parse_duration : String → Result ℤ

-- A `Decode` that should find no further document.
abbrev pub no_document : {A : Type 0} → Option Error → A → Configured A
unfolding is
no_document none a =
    rejected (new_config_error "document" "must contain exactly one YAML document" none)
no_document (some e) a =
    if is e Sentinel.eof
    then configured a
    else rejected (new_config_error "document" "invalid trailing YAML document" (some e))

abbrev pub is_eof : Option Error → Bool
unfolding is
is_eof none = true
is_eof (some e) = is e Sentinel.eof

-- The zero value where nothing was set.
abbrev pub no_settings : RawServerConfig
no_settings = record {
  listen_address = none;
  log_format = none;
  providers = [];
  http = none;
  shutdown_timeout = none;
}

-- `len(document.Content) != 0`
abbrev pub has_content : Node → Bool
has_content (document (node child nodes)) = true
has_content (sequence line (node child nodes)) = true
has_content (mapping line (pair key value pairs)) = true
has_content _ = false

module _ (yaml : YamlLibrary) where
  -- `decodeSingleDocument`
  pub decode_single_document : String → Configured Node
  decode_single_document data_text =
      let (root, failed) = yaml.decode data_text in
      if is_eof failed
      then no_document (yaml.decode_trailing data_text) root
      else rejected (new_config_error "document" "invalid YAML document" failed)

  abbrev pub decoded_raw : Node → String → Result RawServerConfig → Configured RawServerConfig
  unfolding strict_decode_error
  decoded_raw root text (err e) = rejected (strict_decode_error yaml.type_errors root e)
  decoded_raw root text (ok raw) = no_document (yaml.decode_raw_trailing text) raw

  abbrev pub encoded : Node → Result String → Configured RawServerConfig
  encoded root (err e) =
      rejected (new_config_error "document" "could not encode YAML document" (some e))
  encoded root (ok text) = decoded_raw root text (yaml.decode_raw text)

  -- `decodeStrictRaw`
  pub decode_strict_raw : Node → Configured RawServerConfig
  decode_strict_raw root =
      if has_content root then encoded root (yaml.encode root) else configured no_settings

  -- The three steps over a document that is there.
  pub prepare_present : Option (String → Option String) → Node → Configured Node
  unfolding validate_yaml_shape
  prepare_present lookup_env root = unless_error (reject_duplicate_keys root []) (
      and_then (expand_scalars lookup_env root [])
        (λ expanded. unless_error (validate_yaml_shape expanded) (configured expanded)))

  pub prepare : Option (String → Option String) → Node → Configured Node
  unfolding prepare_present
  prepare lookup_env absent = configured absent
  prepare lookup_env root = prepare_present lookup_env root

  -- `LoadServerYAML`
  unfoldable pub load_server_yaml :
      Option (String → Option String) → String → Configured ServerConfig
  unfolding decode_single_document prepare decode_strict_raw validate_server_config
  load_server_yaml lookup_env data_text = and_then (decode_single_document data_text) (λ root.
      and_then (prepare lookup_env root) (λ expanded.
        and_then (decode_strict_raw expanded)
          (λ raw. validate_server_config yaml.parse_duration raw)))
