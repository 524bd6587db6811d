-- ===== src/Store.antt =====
-- internal/store: the rows of the two audit tables, without the key that the database assigns, and
-- the repositories that check a row before it is inserted. The insert is a function of the world.
-- A duration is not below zero and a time is not the zero time in this model.
use oryxos_go.Common.{
  ℕ, String, Option, none, some, Bool, true, false, ◌&&◌, ◌||◌, not, if◌then◌else◌,
}
use oryxos_go.Common.Int.{ℤ, is_negative}
use oryxos_go.Go.Text.{is_blank}
use oryxos_go.Go.Error.{Error, Redaction, leaf, wrap}
use oryxos_go.Go.Effect.{Context}

pub record LlmCall : Type 0 where
  pub session_id : String
  pub provider : String
  pub model : String
  pub prompt_tokens : ℤ
  pub completion_tokens : ℤ
  pub total_tokens : ℤ
  pub success : Bool
  pub error_message : Option String
  pub duration_ms : ℕ
  pub created_at : ℕ

pub record ToolInvocation : Type 0 where
  pub session_id : String
  pub tool_name : String
  pub input_json : String
  pub result_json : String
  pub success : Bool
  pub duration_ms : ℕ
  pub error_message : Option String
  pub created_at : ℕ

abbrev given : Option String → Bool
given none = false
given (some text) = true

-- `validateLlmCall`; a row that is none is a nil pointer.
unfoldable pub validate_llm_call : Option LlmCall → Option Error
unfolding is_blank
validate_llm_call none = some (leaf "create llm call: record is nil")
validate_llm_call (some call) =
    if is_blank call.session_id
    then some (leaf "create llm call: session_id is required")
    else if is_blank call.provider
    then some (leaf "create llm call: provider is required")
    else if is_blank call.model
    then some (leaf "create llm call: model is required")
    else if is_negative call.prompt_tokens
        || is_negative call.completion_tokens
        || is_negative call.total_tokens
    then some (leaf "create llm call: token counts must be non-negative")
    else if call.success && given call.error_message
    then some (leaf "create llm call: successful record must not contain error_message")
    else none

abbrev without_text : Option String → Bool
without_text none = true
without_text (some text) = is_blank text

-- `validateToolInvocation`
unfoldable pub validate_tool_invocation : Option ToolInvocation → Option Error
unfolding is_blank
validate_tool_invocation none = some (leaf "create tool invocation: record is nil")
validate_tool_invocation (some row) =
    if is_blank row.session_id
    then some (leaf "create tool invocation: session_id is required")
    else if is_blank row.tool_name
    then some (leaf "create tool invocation: tool_name is required")
    else if row.success && given row.error_message
    then some (leaf "create tool invocation: successful record must not contain error_message")
    else if not row.success && without_text row.error_message
    then some (leaf "create tool invocation: failed record requires error_message")
    else none

-- `invocation.ErrorMessage` is redacted in place.
abbrev pub redact_row : Redaction → ToolInvocation → ToolInvocation
redact_row redaction row = record row {
  error_message = elim row.error_message [
    | none ↦ none
    | some text ↦ some (redaction.sanitize text)
  ];
}

abbrev pub redact : Redaction → Option ToolInvocation → Option ToolInvocation
redact redaction none = none
redact redaction (some row) = some (redact_row redaction row)

-- The end of both `Create` methods: the insert, of a row that passed.
abbrev pub insert_row :
    {W Row : Type 0}
    → String
    → (Context W → Row → W → Option Error × W)
    → Context W
    → Option Row
    → Option Error
    → W
    → Option Error × W
insert_row prefix database ctx row (some e) w = (some e, w)
insert_row prefix database ctx none none w = (none, w)
insert_row prefix database ctx (some row) none w =
    let (failed, w') = database ctx row w in
    (elim failed [ none ↦ none | some e ↦ some (wrap prefix e) ], w')

module _ {W : Type 0} where
  -- `LlmCallRepository.Create`; the insert is `database.Create`, none where the repository is nil.
  unfoldable pub create_llm_call :
      Option (Context W → LlmCall → W → Option Error × W)
      → Option (Context W)
      → Option LlmCall
      → W
      → Option Error × W
  unfolding validate_llm_call
  create_llm_call none ctx row w = (some (leaf "create llm call: repository is nil"), w)
  create_llm_call (some database) none row w = (some (leaf "create llm call: context is nil"), w)
  create_llm_call (some database) (some ctx) row w =
      insert_row "create llm call" database ctx row (validate_llm_call row) w

  -- `ToolInvocationRepository.Create`
  unfoldable pub create_tool_invocation :
      Redaction
      → Option (Context W → ToolInvocation → W → Option Error × W)
      → Option (Context W)
      → Option ToolInvocation
      → W
      → Option Error × W
  unfolding validate_tool_invocation
  create_tool_invocation redaction none ctx row w =
      (some (leaf "create tool invocation: repository is nil"), w)
  create_tool_invocation redaction (some database) none row w =
      (some (leaf "create tool invocation: context is nil"), w)
  create_tool_invocation redaction (some database) (some ctx) row w =
      insert_row "create tool invocation" database ctx (redact redaction row)
        (validate_tool_invocation (redact redaction row)) w
