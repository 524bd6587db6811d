-- ===== src/Config/Fields.antt =====
-- internal/config/load.go: from an error of the YAML decoder to the path of the field in the document.
pub mod Found
use oryxos_go.Common.{
  ℕ, String, Option, none, some, List, [], ◌∷◌, ◌++◌, Bool, false, ◌||◌, ◌==◌, ◌===◌, if◌then◌else◌,
}
use oryxos_go.Common.Int.{ℤ}
use oryxos_go.Go.Text.{◌⊕◌, quote}
use oryxos_go.Go.Scan.{strip_prefix}
use oryxos_go.Go.Parse.{cut, atoi}
use oryxos_go.Go.Error.{Error, message}
use oryxos_go.Go.Effect.{Result, ok, err}
use oryxos_go.Config.{
  ConfigError, new_config_error, Node, absent, document, sequence, mapping, scalar, alias, node,
  Pairs, no_pair, pair, node_value, node_line, config_path,
}

abbrev atoi_ok : Result ℤ → Option ℤ
atoi_ok (err e) = none
atoi_ok (ok line) = some line

abbrev line_before_colon : Option (String × String) → Option ℤ
unfolding atoi
line_before_colon none = none
line_before_colon (some (number, rest)) = atoi_ok (atoi number)

-- `yamlErrorLine`
unfoldable pub yaml_error_line : String → Option ℤ
unfolding atoi cut strip_prefix
yaml_error_line text = elim (strip_prefix "line " text) [
  | none ↦ none
  | some rest ↦ line_before_colon (cut ":" rest)
]

abbrev before_not_found : Option (String × String) → String
unfolding cut
before_not_found none = ""
before_not_found (some (before, remainder)) = elim (cut " not found" remainder) [
  | none ↦ ""
  | some (field, rest) ↦ field
]

-- `unknownField`
unfoldable pub unknown_field : String → String
unfolding cut
unknown_field text = before_not_found (cut "field " text)

-- `value.Line == line` for the line of a node, which is not negative.
abbrev pub same_line : ℕ → ℤ → Bool
same_line n (ℤ.pos line) = n == line
same_line n (ℤ.negsuc line) = false

mutual
  unfolding config_path

  -- `findMappingFieldPathByLine`
  pub find_mapping_field_path_by_line : Node → List String → ℤ → String
  find_mapping_field_path_by_line (mapping line pairs) path at_line =
      find_pair_by_line pairs path at_line
  find_mapping_field_path_by_line absent path at_line = ""
  find_mapping_field_path_by_line (document nodes) path at_line = ""
  find_mapping_field_path_by_line (sequence line nodes) path at_line = ""
  find_mapping_field_path_by_line (scalar line tag value) path at_line = ""
  find_mapping_field_path_by_line (alias line value) path at_line = ""

  pub find_pair_by_line : Pairs → List String → ℤ → String
  find_pair_by_line no_pair path at_line = ""
  find_pair_by_line (pair key value pairs) path at_line =
      let field_path = path ++ node_value key ∷ [] in
      let nested = find_mapping_field_path_by_line value field_path at_line in
      let later = find_pair_by_line pairs path at_line in
      if nested === ""
      then if same_line (node_line value) at_line || same_line (node_line key) at_line
        then config_path field_path
        else later
      else nested

mutual
  unfolding config_path

  -- `findMappingField`: the path and the key.
  pub find_mapping_field : Node → List String → String → String × String
  find_mapping_field (mapping line pairs) path field = find_field_in_pairs pairs path field
  find_mapping_field absent path field = ("", field)
  find_mapping_field (document nodes) path field = ("", field)
  find_mapping_field (sequence line nodes) path field = ("", field)
  find_mapping_field (scalar line tag value) path field = ("", field)
  find_mapping_field (alias line value) path field = ("", field)

  pub find_field_in_pairs : Pairs → List String → String → String × String
  find_field_in_pairs no_pair path field = ("", field)
  find_field_in_pairs (pair key value pairs) path field =
      let found = find_mapping_field value (path ++ node_value key ∷ []) field in
      let later = find_field_in_pairs pairs path field in
      if node_value key === field
      then (config_path path, node_value key)
      else if found.0 === ""
      then later
      else found

-- `findYAMLFieldPathByLine`
pub find_yaml_field_path_by_line : Node → ℤ → String
unfolding find_mapping_field_path_by_line
find_yaml_field_path_by_line (document (node root nodes)) at_line =
    find_mapping_field_path_by_line root [] at_line
find_yaml_field_path_by_line _ at_line = ""

-- `findYAMLFieldPath`
pub find_yaml_field_path : Node → String → String × String
unfolding find_mapping_field
find_yaml_field_path (document (node root nodes)) field = find_mapping_field root [] field
find_yaml_field_path _ field = ("", field)

-- The loop of `findYAMLDecodeErrorPath` over the messages of a `yaml.TypeError`.
pub find_in_messages : Node → List String → String
unfolding yaml_error_line find_yaml_field_path_by_line
find_in_messages root [] = ""
find_in_messages root (text ∷ texts) =
    let later = find_in_messages root texts in
    elim (yaml_error_line text) [
      | none ↦ later
      | some line ↦
          let path = find_yaml_field_path_by_line root line in if path === "" then later else path
    ]

-- `findYAMLDecodeErrorPath`; `type_errors` is `errors.As` with a `yaml.TypeError`.
pub find_yaml_decode_error_path : (Error → Option (List String)) → Node → Error → String
unfolding find_in_messages
find_yaml_decode_error_path type_errors root cause = elim (type_errors cause) [
  | none ↦ ""
  | some texts ↦ find_in_messages root texts
]

abbrev pub or_document : String → String
or_document path = if path === "" then "document" else path

-- `strictDecodeError`
unfoldable pub strict_decode_error : (Error → Option (List String)) → Node → Error → ConfigError
unfolding unknown_field find_yaml_decode_error_path find_yaml_field_path message
strict_decode_error type_errors root cause =
    let field = unknown_field (message cause) in
    if field === ""
    then new_config_error (or_document (find_yaml_decode_error_path type_errors root cause))
        "invalid server configuration" (some cause)
    else let (path, key) = find_yaml_field_path root field in
      new_config_error (or_document path) ("unknown field " ⊕ quote key) (some cause)
