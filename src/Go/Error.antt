-- ===== src/Go/Error.antt =====
-- Go error values: their texts, and the searches of `errors.Is` and `errors.As` through a chain.
-- `leaf` and `wrap` are what `fmt.Errorf` makes without and with %w; `sealed` and `safe` are
-- *sanitizedWrappedError without and with a cause; `audit` is *AuditPersistenceError (service.go).
use oryxos_go.Common.{String, ◌≡◌, refl, Bool, true, false, ◌||◌, Option, none, some, ◌⊎◌}
use oryxos_go.Go.Text.{◌⊕◌}

-- The error values that the program compares by identity.
pub data Sentinel : Type 0 where
  max_iterations eof closed_pipe canceled deadline_exceeded not_exist exist server_closed
        short_write :
      Sentinel

-- An error made by code that is not the repository's: its text, what `errors.Is` and `errors.As`
-- find in its chain.
pub record ForeignError : Type 0 where
  pub text : String
  pub is_a : Sentinel → Bool
  pub retryable : Option Bool

pub data Error : Type 0 where
  leaf : String → Error
  wrap : String → Error → Error
  join : Error → Error → Error
  sentinel : Sentinel → Error
  sealed : String → String → Error
  safe : String → String → Error → Error
  audit : Error → Error
  foreign : ForeignError → Error

sentinel_text : Sentinel → String
sentinel_text Sentinel.max_iterations = "react loop reached maximum iterations"
sentinel_text Sentinel.eof = "EOF"
sentinel_text Sentinel.closed_pipe = "io: read/write on closed pipe"
sentinel_text Sentinel.canceled = "context canceled"
sentinel_text Sentinel.deadline_exceeded = "context deadline exceeded"
sentinel_text Sentinel.not_exist = "file does not exist"
sentinel_text Sentinel.exist = "file already exists"
sentinel_text Sentinel.server_closed = "http: Server closed"
sentinel_text Sentinel.short_write = "short write"

-- `err.Error()`
unfoldable pub message : Error → String
unfolding sentinel_text
message (leaf text) = text
message (wrap prefix cause) = prefix ⊕ ": " ⊕ message cause
message (join first second) = message first ⊕ "\n" ⊕ message second
message (sentinel s) = sentinel_text s
message (sealed prefix text) = prefix ⊕ ": " ⊕ text
message (safe prefix text cause) = prefix ⊕ ": " ⊕ text
message (audit cause) = message cause
message (foreign e) = e.text

same_sentinel : Sentinel → Sentinel → Bool
same_sentinel Sentinel.max_iterations Sentinel.max_iterations = true
same_sentinel Sentinel.eof Sentinel.eof = true
same_sentinel Sentinel.closed_pipe Sentinel.closed_pipe = true
same_sentinel Sentinel.canceled Sentinel.canceled = true
same_sentinel Sentinel.deadline_exceeded Sentinel.deadline_exceeded = true
same_sentinel Sentinel.not_exist Sentinel.not_exist = true
same_sentinel Sentinel.exist Sentinel.exist = true
same_sentinel Sentinel.server_closed Sentinel.server_closed = true
same_sentinel Sentinel.short_write Sentinel.short_write = true
same_sentinel _ _ = false

-- `errors.Is`
unfoldable pub is : Error → Sentinel → Bool
unfolding same_sentinel
is (leaf text) target = false
is (wrap prefix cause) target = is cause target
is (join first second) target = is first target || is second target
is (sentinel s) target = same_sentinel s target
is (sealed prefix text) target = false
is (safe prefix text cause) target = is cause target
is (audit cause) target = is cause target
is (foreign e) target = e.is_a target

abbrev first_some : Option Bool → Option Bool → Option Bool
first_some (some b) other = some b
first_some none other = other

-- `errors.As` with an interface that has `Retryable() bool`, and the answer of what it finds.
unfoldable pub as_retryable : Error → Option Bool
as_retryable (leaf text) = none
as_retryable (wrap prefix cause) = as_retryable cause
as_retryable (join first second) = first_some (as_retryable first) (as_retryable second)
as_retryable (sentinel s) = none
as_retryable (sealed prefix text) = none
as_retryable (safe prefix text cause) = as_retryable cause
as_retryable (audit cause) = as_retryable cause
as_retryable (foreign e) = e.retryable

-- `errors.As` with an interface that has `ModelResponseAvailable() bool`; the one type of the
-- program that has it answers true.
unfoldable pub as_model_response : Error → Option Bool
as_model_response (leaf text) = none
as_model_response (wrap prefix cause) = as_model_response cause
as_model_response (join first second) =
    first_some (as_model_response first) (as_model_response second)
as_model_response (sentinel s) = none
as_model_response (sealed prefix text) = none
as_model_response (safe prefix text cause) = as_model_response cause
as_model_response (audit cause) = some true
as_model_response (foreign e) = none

-- `errors.Join` of two errors that may be nil.
abbrev pub join_errors : Option Error → Option Error → Option Error
join_errors none second = second
join_errors (some first) none = some first
join_errors (some first) (some second) = some (join first second)

-- `config.SanitizeErrorString` as its callers see it: a text passes unchanged, or is replaced whole.
pub record Redaction : Type 0 where
  pub sanitize : String → String
  pub sanitize_cases : (t : String) → (sanitize t ≡ t) ⊎ (sanitize t ≡ "[REDACTED]")

is_test : is (wrap "a" (join (leaf "b") (sentinel Sentinel.eof))) Sentinel.eof ≡ true
unfolding is
is_test = refl

message_test : message (wrap "a" (join (leaf "b") (sentinel Sentinel.eof))) ≡ "a: b\nEOF"
unfolding message
message_test = refl
