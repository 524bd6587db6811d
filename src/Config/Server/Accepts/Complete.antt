-- ===== src/Config/Server/Accepts/Complete.antt =====
-- internal/config/load.go: `validateServerConfig` as a whole.
use oryxos_go.Common.{◌≡◌, refl, String, Option, true, map}
use oryxos_go.Common.Int.{ℤ, is_positive}
use oryxos_go.Go.Parse.{split_host_port}
use oryxos_go.Go.Effect.{Result, ok}
use oryxos_go.Config.Server.{
  ServerConfig, RawServerConfig, string_or_default, raw_http_value, default_listen_address,
  default_log_format, default_read_header_timeout, default_read_timeout, default_write_timeout,
  default_idle_timeout, default_shutdown_timeout, validate_listen_address, parse_positive_duration,
  validate_server_config,
}
use oryxos_go.Config.Server.Accepts.{
  Tested, Judged, accepts, IsHostPort, IsLogFormat, IsDuration, unless_error-Judged,
  and_then-Judged, validate_host-Tested, validate_log_format-Tested, positive_duration-Judged,
}
use oryxos_go.Config.Server.Accepts.Providers.{provider_of, AreProviders, validate_providers-Judged}

module _ (parse_duration : String → Result ℤ) where
  abbrev pub IsTimeout : Option String → String → Type 0
  IsTimeout value default_value =
      IsDuration (parse_duration (string_or_default value default_value))

  -- Settings, with their defaults, that a server can use: an address with a host and a port from 1 to
  -- 65535, a known log format, timeouts greater than zero, and distinct supported providers with keys.
  pub IsAcceptable : RawServerConfig → Type 0
  unfolding split_host_port
  IsAcceptable raw =
      IsHostPort (split_host_port (string_or_default raw.listen_address default_listen_address))
      × (IsLogFormat (string_or_default raw.log_format default_log_format)
          × (IsTimeout (raw_http_value raw.http (λ http. http.read_header_timeout))
                default_read_header_timeout
              × (IsTimeout (raw_http_value raw.http (λ http. http.read_timeout))
                    default_read_timeout
                  × (IsTimeout (raw_http_value raw.http (λ http. http.write_timeout))
                        default_write_timeout
                      × (IsTimeout (raw_http_value raw.http (λ http. http.idle_timeout))
                            default_idle_timeout
                          × (IsTimeout raw.shutdown_timeout default_shutdown_timeout
                              × (AreProviders raw.providers × Unit {0})))))))

  abbrev pub Timeout : Option String → String → ℤ → Type 0
  Timeout value default_value d =
      (parse_duration (string_or_default value default_value) ≡ ok d) × (is_positive d ≡ true)

  -- A configuration made of the settings.
  pub record IsConfigOf (raw : RawServerConfig) (config : ServerConfig) : Type 0 where
    pub address_eq :
        config.listen_address ≡ string_or_default raw.listen_address default_listen_address
    pub format_eq : config.log_format ≡ string_or_default raw.log_format default_log_format
    pub read_header :
        Timeout
          (raw_http_value raw.http (λ http. http.read_header_timeout))
          default_read_header_timeout
          config.read_header_timeout
    pub read :
        Timeout
          (raw_http_value raw.http (λ http. http.read_timeout))
          default_read_timeout
          config.read_timeout
    pub write :
        Timeout
          (raw_http_value raw.http (λ http. http.write_timeout))
          default_write_timeout
          config.write_timeout
    pub idle :
        Timeout
          (raw_http_value raw.http (λ http. http.idle_timeout))
          default_idle_timeout
          config.idle_timeout
    pub shutdown : Timeout raw.shutdown_timeout default_shutdown_timeout config.shutdown_timeout
    pub providers_eq : config.providers ≡ map provider_of raw.providers

  duration :
      (path : String) (value : Option String) (default_value : String)
      → Judged
          (IsTimeout value default_value)
          (Timeout value default_value)
          (parse_positive_duration parse_duration path value default_value)
  unfolding parse_positive_duration
  duration path value default_value = positive_duration-Judged path _

  address :
      (text : String) → Tested (IsHostPort (split_host_port text)) (validate_listen_address text)
  unfolding validate_listen_address
  address text = validate_host-Tested (split_host_port text)

  -- `validateServerConfig` accepts settings exactly where, with the defaults for those that are
  -- missing, the address has a host and a port from 1 to 65535, the log format is known, the five
  -- timeouts are durations greater than zero, and the providers are supported, distinct and have a
  -- key that is not blank. The configuration that it returns is made of those settings.
  pub validate_server_config-Judged :
      (raw : RawServerConfig)
      → Judged (IsAcceptable raw) (IsConfigOf raw) (validate_server_config parse_duration raw)
  unfolding validate_server_config IsAcceptable
  validate_server_config-Judged raw =
      unless_error-Judged _ _ _ _ _
        (address (string_or_default raw.listen_address default_listen_address))
        (λ here.
          unless_error-Judged _ _ _ _ _
            (validate_log_format-Tested (string_or_default raw.log_format default_log_format))
            (λ known.
              and_then-Judged _ _ _ _ _ _
                (duration "http.read_header_timeout"
                  (raw_http_value raw.http (λ http. http.read_header_timeout))
                  default_read_header_timeout)
                (λ read_header h1.
                  and_then-Judged _ _ _ _ _ _
                    (duration "http.read_timeout"
                      (raw_http_value raw.http (λ http. http.read_timeout)) default_read_timeout)
                    (λ read h2.
                      and_then-Judged _ _ _ _ _ _
                        (duration "http.write_timeout"
                          (raw_http_value raw.http (λ http. http.write_timeout))
                          default_write_timeout)
                        (λ write h3.
                          and_then-Judged _ _ _ _ _ _
                            (duration "http.idle_timeout"
                              (raw_http_value raw.http (λ http. http.idle_timeout))
                              default_idle_timeout)
                            (λ idle h4.
                              and_then-Judged _ _ _ _ _ _
                                (duration "shutdown_timeout" raw.shutdown_timeout
                                  default_shutdown_timeout)
                                (λ shutdown h5.
                                  and_then-Judged _ _ _ _ _ _
                                    (validate_providers-Judged raw.providers)
                                    (λ ps h6. accepts _ tt (record {
                                      address_eq = refl;
                                      format_eq = refl;
                                      read_header = h1;
                                      read = h2;
                                      write = h3;
                                      idle = h4;
                                      shutdown = h5;
                                      providers_eq = h6;
                                    })))))))))
