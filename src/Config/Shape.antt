-- ===== src/Config/Shape.antt =====
-- internal/config/load.go: `validateYAMLShape`.
use oryxos_go.Common.{ℕ, suc, String, Option, none, some, not, ◌||◌, ◌===◌, if◌then◌else◌}
use oryxos_go.Go.Text.{◌⊕◌, itoa}
use oryxos_go.Config.{
  ConfigError, new_config_error, or_error, Node, document, sequence, mapping, scalar, Nodes,
  no_node, node, Pairs, no_pair, pair, node_value,
}

-- `validateScalarString`
unfoldable pub validate_scalar_string : Node → String → Option ConfigError
validate_scalar_string (scalar line tag value) path =
    if tag === "!!null"
    then some (new_config_error path "must not be null" none)
    else if not (tag === "!!str")
    then some (new_config_error path "must be a scalar string" none)
    else none
validate_scalar_string _ path = some (new_config_error path "must be a scalar string" none)

-- The fields of the mapping "http".
pub validate_http : Pairs → Option ConfigError
unfolding validate_scalar_string
validate_http no_pair = none
validate_http (pair key value pairs) =
    let name = node_value key in
    or_error
      (if name === "read_header_timeout"
          || name === "read_timeout"
          || name === "write_timeout"
          || name === "idle_timeout"
        then validate_scalar_string value ("http." ⊕ name)
        else none)
      (validate_http pairs)

pub validate_provider_fields : String → Pairs → Option ConfigError
unfolding validate_scalar_string
validate_provider_fields path no_pair = none
validate_provider_fields path (pair field value pairs) =
    let name = node_value field in
    or_error
      (if name === "name" || name === "api_key"
        then validate_scalar_string value (path ⊕ "." ⊕ name)
        else none)
      (validate_provider_fields path pairs)

pub validate_provider_nodes : ℕ → Nodes → Option ConfigError
unfolding validate_provider_fields itoa
validate_provider_nodes index no_node = none
validate_provider_nodes index (node (mapping line pairs) nodes) =
    or_error (validate_provider_fields ("providers." ⊕ itoa index) pairs)
      (validate_provider_nodes (suc index) nodes)
validate_provider_nodes index (node _ nodes) =
    some (new_config_error ("providers." ⊕ itoa index) "must be a mapping" none)

pub validate_http_node : Node → Option ConfigError
unfolding validate_http
validate_http_node (mapping line pairs) = validate_http pairs
validate_http_node _ = some (new_config_error "http" "must be a mapping" none)

pub validate_providers_node : Node → Option ConfigError
unfolding validate_provider_nodes
validate_providers_node (sequence line nodes) = validate_provider_nodes 0 nodes
validate_providers_node _ = some (new_config_error "providers" "must be a sequence" none)

-- One field of the root.
pub validate_field : String → Node → Option ConfigError
unfolding validate_http_node validate_providers_node validate_scalar_string
validate_field name value =
    if name === "listen_address" || name === "log_format" || name === "shutdown_timeout"
    then validate_scalar_string value name
    else if name === "http"
    then validate_http_node value
    else if name === "providers"
    then validate_providers_node value
    else none

pub validate_fields : Pairs → Option ConfigError
unfolding validate_field
validate_fields no_pair = none
validate_fields (pair key value pairs) =
    or_error (validate_field (node_value key) value) (validate_fields pairs)

abbrev validate_root : Node → Option ConfigError
unfolding validate_fields
validate_root (mapping line pairs) = validate_fields pairs
validate_root _ = some (new_config_error "document" "must be a mapping" none)

-- `validateYAMLShape`
unfoldable pub validate_yaml_shape : Node → Option ConfigError
unfolding validate_fields
validate_yaml_shape (document (node root nodes)) = validate_root root
validate_yaml_shape _ = none
