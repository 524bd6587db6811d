-- ===== src/Config/Server.antt =====
-- internal/config/config.go and load.go: `validateServerConfig`. `time.ParseDuration` is a parameter.
pub mod Accepts
use oryxos_go.Common.{
  ℕ, suc, String, Option, none, some, List, [], ◌∷◌, Bool, true, false, not, ◌&&◌, ◌||◌, leb, ◌===◌,
  if◌then◌else◌,
}
use oryxos_go.Common.Int.{ℤ, is_positive}
use oryxos_go.Go.Text.{◌⊕◌, itoa, quote, trim_space, is_blank}
use oryxos_go.Go.Parse.{atoi, split_host_port}
use oryxos_go.Go.Error.{Error}
use oryxos_go.Go.Effect.{Result, ok, err}
use oryxos_go.Config.{
  ConfigError, new_config_error, Configured, configured, rejected, and_then, unless_error,
}
use oryxos_go.Config.Keys.{seen_in}

-- `ProviderDefinition`
pub record ProviderDefinition : Type 0 where
  pub name : String
  pub api_key : String

-- `ServerConfig`; a `time.Duration` is its nanoseconds.
pub record ServerConfig : Type 0 where
  pub listen_address : String
  pub log_format : String
  pub providers : List ProviderDefinition
  pub read_header_timeout : ℤ
  pub read_timeout : ℤ
  pub write_timeout : ℤ
  pub idle_timeout : ℤ
  pub shutdown_timeout : ℤ

-- `rawProviderDefinition`, `rawHTTP` and `rawServerConfig`
pub record RawProviderDefinition : Type 0 where
  pub name : Option String
  pub api_key : Option String

pub record RawHttp : Type 0 where
  pub read_header_timeout : Option String
  pub read_timeout : Option String
  pub write_timeout : Option String
  pub idle_timeout : Option String

pub record RawServerConfig : Type 0 where
  pub listen_address : Option String
  pub log_format : Option String
  pub providers : List RawProviderDefinition
  pub http : Option RawHttp
  pub shutdown_timeout : Option String

abbrev pub default_listen_address : String
default_listen_address = "127.0.0.1:8080"

abbrev pub default_log_format : String
default_log_format = "console"

abbrev pub default_read_header_timeout : String
default_read_header_timeout = "5s"

abbrev pub default_read_timeout : String
default_read_timeout = "30s"

abbrev pub default_write_timeout : String
default_write_timeout = "5m"

abbrev pub default_idle_timeout : String
default_idle_timeout = "60s"

abbrev pub default_shutdown_timeout : String
default_shutdown_timeout = "30s"

-- `stringOrDefault`
abbrev pub string_or_default : Option String → String → String
string_or_default none default_value = default_value
string_or_default (some value) default_value = value

-- `rawHTTPValue`
abbrev pub raw_http_value : Option RawHttp → (RawHttp → Option String) → Option String
raw_http_value none field = none
raw_http_value (some http) field = field http

abbrev pub address_message : String
address_message = "must be a non-empty host:port with a port from 1 through 65535"

-- `port < 1 || port > 65535`
abbrev pub in_port_range : ℤ → Bool
in_port_range (ℤ.pos n) = leb 1 n && leb n 65535
in_port_range (ℤ.negsuc n) = false

abbrev pub validate_port : Result ℤ → Option ConfigError
validate_port (err e) = some (new_config_error "listen_address" address_message (some e))
validate_port (ok port) =
    if in_port_range port
    then none
    else some (new_config_error "listen_address" address_message none)

-- `validateListenAddress` after the split.
pub validate_host : Result (String × String) → Option ConfigError
unfolding atoi
validate_host (err e) = some (new_config_error "listen_address" address_message (some e))
validate_host (ok (host, port)) =
    if host === ""
    then some (new_config_error "listen_address" address_message none)
    else validate_port (atoi port)

-- `validateListenAddress`
pub validate_listen_address : String → Option ConfigError
unfolding validate_host split_host_port
validate_listen_address address = validate_host (split_host_port address)

pub validate_log_format : String → Option ConfigError
validate_log_format log_format =
    if not (log_format === "console") && not (log_format === "json")
    then some (new_config_error "log_format" "must be one of \"console\" or \"json\"" none)
    else none

-- `parsePositiveDuration` after `time.ParseDuration`.
pub positive_duration : String → Result ℤ → Configured ℤ
positive_duration path (err e) =
    rejected (new_config_error path "must be a Go duration greater than zero" (some e))
positive_duration path (ok duration) =
    if is_positive duration
    then configured duration
    else rejected (new_config_error path "must be a Go duration greater than zero" none)

-- One round of the loop of `validateProviders`; `rest` is what the rounds after it give.
pub validate_provider :
    ℕ
    → List String
    → RawProviderDefinition
    → Configured (List ProviderDefinition)
    → Configured (List ProviderDefinition)
unfolding trim_space itoa quote is_blank
validate_provider index seen raw rest =
    let path = "providers." ⊕ itoa index in
    let name = trim_space (string_or_default raw.name "") in
    let api_key = string_or_default raw.api_key "" in
    if name === ""
    then rejected (new_config_error (path ⊕ ".name") "must not be empty" none)
    else if not (name === "deepseek") && not (name === "minimax")
    then rejected (new_config_error (path ⊕ ".name") ("unsupported provider " ⊕ quote name) none)
    else if seen_in name seen
    then rejected (new_config_error (path ⊕ ".name") ("duplicate provider " ⊕ quote name) none)
    else if is_blank api_key
    then rejected (new_config_error (path ⊕ ".api_key") "must not be empty" none)
    else and_then rest
        (λ providers. configured (record { name = name; api_key = api_key } ∷ providers))

-- The loop of `validateProviders`, after the names `seen`.
pub validate_providers_from :
    ℕ → List String → List RawProviderDefinition → Configured (List ProviderDefinition)
unfolding validate_provider trim_space
validate_providers_from index seen [] = configured []
validate_providers_from index seen (raw ∷ raws) =
    validate_provider index seen raw
      (validate_providers_from (suc index) (trim_space (string_or_default raw.name "") ∷ seen) raws)

-- `validateProviders`
unfoldable pub validate_providers :
    List RawProviderDefinition → Configured (List ProviderDefinition)
unfolding validate_providers_from
validate_providers raws = validate_providers_from 0 [] raws

module _ (parse_duration : String → Result ℤ) where
  -- `parsePositiveDuration` of a value or its default.
  pub parse_positive_duration : String → Option String → String → Configured ℤ
  unfolding positive_duration
  parse_positive_duration path value default_value =
      positive_duration path (parse_duration (string_or_default value default_value))

  -- `validateServerConfig`
  unfoldable pub validate_server_config : RawServerConfig → Configured ServerConfig
  unfolding validate_listen_address validate_log_format parse_positive_duration validate_providers
  validate_server_config raw =
      let address = string_or_default raw.listen_address default_listen_address in
      let log_format = string_or_default raw.log_format default_log_format in
      unless_error (validate_listen_address address) (
        unless_error (validate_log_format log_format) (
          and_then
            (parse_positive_duration "http.read_header_timeout"
              (raw_http_value raw.http (λ http. http.read_header_timeout))
              default_read_header_timeout)
            (λ read_header_timeout.
              and_then
                (parse_positive_duration "http.read_timeout"
                  (raw_http_value raw.http (λ http. http.read_timeout)) default_read_timeout)
                (λ read_timeout.
                  and_then
                    (parse_positive_duration "http.write_timeout"
                      (raw_http_value raw.http (λ http. http.write_timeout)) default_write_timeout)
                    (λ write_timeout.
                      and_then
                        (parse_positive_duration "http.idle_timeout"
                          (raw_http_value raw.http (λ http. http.idle_timeout))
                          default_idle_timeout)
                        (λ idle_timeout.
                          and_then
                            (parse_positive_duration "shutdown_timeout" raw.shutdown_timeout
                              default_shutdown_timeout)
                            (λ shutdown_timeout.
                              and_then (validate_providers raw.providers) (λ providers.
                                configured (record {
                                  listen_address = address;
                                  log_format = log_format;
                                  providers = providers;
                                  read_header_timeout = read_header_timeout;
                                  read_timeout = read_timeout;
                                  write_timeout = write_timeout;
                                  idle_timeout = idle_timeout;
                                  shutdown_timeout = shutdown_timeout;
                                })))))))))
