-- ===== src/Tool/Executor.antt =====
-- internal/tool/executor.go and types.go. The tool, the recorder, the clock, the wait and the log
-- are functions of the world; times are nanoseconds, and a duration in milliseconds is cut at zero
-- as the source cuts it.
pub mod Attempts
pub mod Records
use oryxos_go.Store.{ToolInvocation}
use oryxos_go.Common.{
  ℕ, zero, suc, ◌+◌, ◌-◌, ◌*◌, ◌/◌, ◌^◌, String, Option, none, some, List, [], ◌∷◌, Bool, true,
  false, ◌&&◌, ◌||◌, not, ltb, ◌===◌, if◌then◌else◌,
}
use oryxos_go.Common.Int.{ℤ, is_positive}
use oryxos_go.Go.Text.{◌⊕◌, quote, trim_space}
use oryxos_go.Go.Error.{Error, Redaction, leaf, wrap, message, as_retryable, join_errors}
use oryxos_go.Go.Json.{marshal_text}
use oryxos_go.Go.Effect.{Result, ok, err, Exec, Context, Correlation, without_cancel}
use oryxos_go.Llm.{ToolCall, ToolDefinition}

abbrev pub max_tool_retries : ℕ
max_tool_retries = 3

-- A call of `Invoke` has a text beside its error.
pub record InvokableTool (W : Type 0) : Type 0 where
  pub info : Context W → Exec W ToolDefinition
  pub invoke : Context W → String → W → (String × Option Error) × W

pub record OryxTool (W : Type 0) : Type 0 where
  pub tool : Option (InvokableTool W)
  pub retryable : Bool
  pub idempotent : Bool
  pub timeout : ℤ

-- What `logAttempt` hands to the logger, with the correlation of its context.
pub record AttemptLog : Type 0 where
  pub correlation : Correlation
  pub tool_name : String
  pub attempt : ℕ
  pub final : Bool
  pub success : Bool
  pub duration_ms : ℕ
  pub error_message : Option String

-- `validate` is `validateArguments`, `valid_json` is `json.Valid`, `with_timeout` is the context of
-- `context.WithTimeout`.
pub record Executor (W : Type 0) : Type 0 where
  pub lookup : String → Option (OryxTool W)
  pub create : Context W → ToolInvocation → W → Option Error × W
  pub log : AttemptLog → W → W
  pub now : W → ℕ × W
  pub wait : Context W → ℕ → W → Option Error × W
  pub with_timeout : Context W → ℤ → Context W
  pub validate : String → String → Option Error
  pub valid_json : String → Bool

-- `containsExact`
pub contains_exact : List String → String → Bool
contains_exact [] wanted = false
contains_exact (value ∷ values) wanted = value === wanted || contains_exact values wanted

-- `isRetryable`
pub is_retryable : Error → Bool
unfolding as_retryable
is_retryable e = elim (as_retryable e) [ none ↦ false | some b ↦ b ]

-- `finishedAt.Sub(startedAt).Milliseconds()`, and zero where that is negative.
abbrev pub elapsed_ms : ℕ → ℕ → ℕ
elapsed_ms started finished = (finished - started) / 1000000

-- The wait before the next attempt, in milliseconds.
abbrev pub backoff_ms : ℕ → ℕ
backoff_ms attempt = 2 ^ attempt * 10

-- What `execute` returns: a text beside an error that may be nil.
abbrev pub Returned : Type 0
Returned = String × Option Error

-- `errors.New` of the redacted text where redaction changes it.
pub sanitize_tool_error : Redaction → Option Error → Option Error
unfolding message
sanitize_tool_error redaction none = none
sanitize_tool_error redaction (some e) =
    if redaction.sanitize (message e) === message e
    then some e
    else some (leaf (redaction.sanitize (message e)))

module _ {W : Type 0} (redaction : Redaction) (executor : Executor W) (ctx : Context W)
    (session_id : String) where
  -- `logAttempt`
  pub log_attempt : String → ℕ → Bool → Bool → ℕ → Option Error → W → W
  unfolding message
  log_attempt name attempt final success duration failed w =
      executor.log
        (record {
          correlation =
              if ctx.correlation.session_id === ""
              then record ctx.correlation { session_id = session_id }
              else ctx.correlation;
          tool_name = name;
          attempt = attempt;
          final = final;
          success = success;
          duration_ms = duration;
          error_message = elim failed [
            | none ↦ none
            | some e ↦ some (redaction.sanitize (message e))
          ];
        })
        w

  module _ (name : String) (configured : OryxTool W) (arguments : String) where
    -- `retryEligible`
    pub retry_eligible : ℕ → Error → Bool
    unfolding is_retryable
    retry_eligible attempt e =
        ltb attempt max_tool_retries
        && configured.retryable
        && configured.idempotent
        && is_retryable e

    -- After the wait between two attempts; `again` is the rest of the loop.
    pub waited :
        (W → Option (Returned × W))
        → ℕ
        → ℕ
        → String
        → Error
        → Option Error
        → W
        → Option (Returned × W)
    unfolding log_attempt
    waited again attempt duration result e (some interrupted) w = some (
      (result, some (wrap ("execute tool " ⊕ quote name ⊕ " retry wait") interrupted)),
      log_attempt name (suc attempt) true false duration (some e) w,
    )
    waited again attempt duration result e none w =
        again (log_attempt name (suc attempt) false false duration (some e) w)

    -- After the tool returned an error, by whether a retry is eligible.
    pub failed :
        Bool → (W → Option (Returned × W)) → ℕ → ℕ → String → Error → W → Option (Returned × W)
    unfolding waited
    failed true again attempt duration result e w =
        let (interrupted, w') = executor.wait ctx (backoff_ms attempt) w in
        waited again attempt duration result e interrupted w'
    failed false again attempt duration result e w = some (
      (result, some (wrap ("execute tool " ⊕ quote name) e)),
      log_attempt name (suc attempt) true false duration (some e) w,
    )

    -- After one call of `Invoke`.
    pub invoked :
        (W → Option (Returned × W)) → ℕ → ℕ → String → Option Error → W → Option (Returned × W)
    unfolding failed retry_eligible
    invoked again attempt duration result none w =
        some ((result, none), log_attempt name (suc attempt) true true duration none w)
    invoked again attempt duration result (some e) w =
        failed (retry_eligible attempt e) again attempt duration result e w

    -- One round of the loop.
    pub try_once : (W → Option (Returned × W)) → InvokableTool W → ℕ → W → Option (Returned × W)
    unfolding invoked
    try_once again tool attempt w =
        let (started, w1) = executor.now w in
        let (done, w2) = tool.invoke (executor.with_timeout ctx configured.timeout) arguments w1 in
        let (finished, w3) = executor.now w2 in
        invoked again attempt (elapsed_ms started finished) done.0 done.1 w3

    -- The loop, which has no bound of its own; `none` means that the fuel ran out.
    unfoldable pub attempts : ℕ → InvokableTool W → ℕ → W → Option (Returned × W)
    unfolding try_once
    attempts zero tool attempt w = none
    attempts (suc fuel) tool attempt w = try_once (attempts fuel tool (suc attempt)) tool attempt w

    -- The loop from its start; `attempts_total` shows that this fuel is enough.
    pub invoke_all : InvokableTool W → W → Returned × W
    unfolding attempts
    invoke_all tool w = elim (attempts (suc max_tool_retries) tool 0 w) [
      | some r ↦ r
      | none ↦ (("", none), w)
    ]

    -- The checks of the tool's metadata and of the arguments.
    pub with_definition : InvokableTool W → Result ToolDefinition → W → Returned × W
    unfolding invoke_all
    with_definition tool (err e) w =
        (("", some (wrap ("execute tool: read " ⊕ quote name ⊕ " metadata") e)), w)
    with_definition tool (ok definition) w =
        if definition.name === name
        then elim (executor.validate definition.input_schema arguments) [
          | some e ↦ (("", some (wrap ("execute tool " ⊕ quote name) e)), w)
          | none ↦ invoke_all tool w
        ]
        else (
          (
            "",
            some (
                leaf (
                  "execute tool: metadata name "
                  ⊕ quote definition.name
                  ⊕ " does not match call "
                  ⊕ quote name)),
          ),
          w,
        )

    pub with_implementation : Option (InvokableTool W) → W → Returned × W
    unfolding with_definition
    with_implementation none w =
        (("", some (leaf ("execute tool: tool " ⊕ quote name ⊕ " has no implementation"))), w)
    with_implementation (some tool) w =
        if is_positive configured.timeout
        then (let (definition, w') = tool.info ctx w in with_definition tool definition w')
        else (
          ("", some (leaf ("execute tool: tool " ⊕ quote name ⊕ " timeout must be positive"))),
          w,
        )

  -- `execute`
  unfoldable pub execute_allowed : String → List String → String → W → Returned × W
  unfolding contains_exact with_implementation
  execute_allowed name allowed arguments w =
      if name === ""
      then (("", some (leaf "execute tool: tool name is required")), w)
      else if not (contains_exact allowed name)
      then (
        ("", some (leaf ("execute tool: tool " ⊕ quote name ⊕ " is not allowed by profile"))),
        w,
      )
      else elim (executor.lookup name) [
        | none ↦ (("", some (leaf ("execute tool: tool " ⊕ quote name ⊕ " is not registered"))), w)
        | some configured ↦ with_implementation name configured arguments configured.tool w
      ]

  -- `normalizedJSON`
  pub normalized_json : String → String
  unfolding marshal_text
  normalized_json raw = if executor.valid_json raw then raw else marshal_text raw

  -- The record of one logical call.
  pub invocation : String → String → Returned → ℕ → ℕ → ToolInvocation
  unfolding normalized_json marshal_text message
  invocation name arguments (result, failed) started finished = record {
    session_id = session_id;
    tool_name = if name === "" then "<unknown>" else name;
    input_json = normalized_json arguments;
    result_json = marshal_text result;
    success = elim failed [ none ↦ true | some e ↦ false ];
    duration_ms = elapsed_ms started finished;
    error_message = elim failed [ none ↦ none | some e ↦ some (message e) ];
    created_at = finished;
  }

  -- From the first reading of the clock on.
  unfoldable pub execute_recorded : List String → ToolCall → W → Returned × W
  unfolding execute_allowed sanitize_tool_error invocation trim_space
  execute_recorded allowed call w =
      let name = trim_space call.function.name in
      let (started, w1) = executor.now w in
      let (returned, w2) = execute_allowed name allowed call.function.arguments w1 in
      let (finished, w3) = executor.now w2 in
      let safe : Option Error = sanitize_tool_error redaction returned.1 in
      let (lost, w4) =
        executor.create (without_cancel ctx)
          (invocation name call.function.arguments (returned.0, safe) started finished) w3 in
      (
        (
          returned.0,
          join_errors safe
              (elim lost [ none ↦ none | some e ↦ some (wrap "record tool invocation" e) ]),
        ),
        w4,
      )

-- `Execute`; an executor that is nil or that lacks a part is `none`.
unfoldable pub execute :
    {W : Type 0}
    → Redaction
    → Option (Executor W)
    → Option (Context W)
    → String
    → List String
    → ToolCall
    → W
    → Returned × W
unfolding execute_recorded
execute redaction none ctx session_id allowed call w =
    (("", some (leaf "execute tool: executor is not initialized")), w)
execute redaction (some executor) none session_id allowed call w =
    (("", some (leaf "execute tool: context is nil")), w)
execute redaction (some executor) (some ctx) session_id allowed call w =
    execute_recorded redaction executor ctx session_id allowed call w
