-- ===== src/Provider/Service.antt =====
-- internal/provider/service.go and tool_schema_resolver.go: one model call of a profile, with its
-- audit row. Times are nanoseconds, and a duration in milliseconds is cut at zero as the source cuts
-- it.
pub mod Tools
pub mod Ready
pub mod Outcome
pub mod Rows
use oryxos_go.Common.{
  ℕ, ◌-◌, ◌/◌, String, Option, none, some, List, [], ◌∷◌, Bool, true, false, if◌then◌else◌,
}
use oryxos_go.Go.Text.{◌⊕◌, quote, is_blank}
use oryxos_go.Go.Error.{Error, Redaction, leaf, audit, message, join_errors}
use oryxos_go.Go.Effect.{Result, ok, err, Exec, Context, without_cancel}
use oryxos_go.Llm.{Message, Response, Usage, ToolDefinition, no_response}
use oryxos_go.Profile.{Profile}
use oryxos_go.Store.{LlmCall}
use oryxos_go.Provider.Registry.{Registry, ChatModel, model, safe_wrap}

-- `info` is `ToolDefinitionSource.Info`.
pub record ToolSchemaResolver (W : Type 0) : Type 0 where
  pub info : Context W → String → W → Option ToolDefinition × W

-- `recorder` is `LlmCallRecorder.Create`.
pub record Service (W : Type 0) : Type 0 where
  pub registry : Registry W
  pub resolver : Option (ToolSchemaResolver W)
  pub recorder : Context W → LlmCall → W → Option Error × W
  pub now : W → ℕ × W

pub record CallMetadata : Type 0 where
  pub session_id : String
  pub provider : String
  pub model : String

-- `callMetadataFrom`
abbrev pub call_metadata_from : String → Profile → CallMetadata
call_metadata_from session_id selected = record {
  session_id = session_id;
  provider = selected.provider.name;
  model = selected.provider.model;
}

-- `finishedAt.Sub(startedAt).Milliseconds()`, and zero where that is negative.
abbrev pub duration_ms : ℕ → ℕ → ℕ
duration_ms started finished = (finished - started) / 1000000

abbrev no_usage : Usage
no_usage = no_response.usage

-- `response.Usage` where the call succeeded and has a response.
abbrev pub usage_of : Option Response → Option Error → Usage
usage_of (some response) none = response.usage
usage_of none none = no_usage
usage_of response (some e) = no_usage

abbrev pub text_of : Option Error → Option String
unfolding message
text_of none = none
text_of (some e) = some (message e)

abbrev pub succeeded : Option Error → Bool
succeeded none = true
succeeded (some e) = false

-- `safeWrap`, where nil stays nil.
abbrev pub safe_wrap_option : Redaction → String → Option Error → Option Error
safe_wrap_option redaction prefix none = none
safe_wrap_option redaction prefix (some e) = some (safe_wrap redaction prefix e)

-- The row of a call.
pub call_row : Redaction → CallMetadata → ℕ → ℕ → Option Response → Option Error → LlmCall
unfolding safe_wrap message
call_row redaction metadata started finished response failed = record {
  session_id = metadata.session_id;
  provider = metadata.provider;
  model = metadata.model;
  prompt_tokens = (usage_of response failed).prompt_tokens;
  completion_tokens = (usage_of response failed).completion_tokens;
  total_tokens = (usage_of response failed).total_tokens;
  success = succeeded failed;
  error_message = text_of (safe_wrap_option redaction "provider call failed" failed);
  duration_ms = duration_ms started finished;
  created_at = finished;
}

-- What `prepareCall` returns, with the service, context and profile that are then known not to be nil.
pub record Prepared (W : Type 0) : Type 0 where
  pub service : Service W
  pub ctx : Context W
  pub selected : Profile
  pub chat_model : ChatModel W
  pub definitions : List ToolDefinition

-- What `Chat` returns from the errors of the call and of its record.
-- A failed call has an outcome that is an error, so the third case does not occur.
abbrev pub reply : Result Response → Option Error → Response × Option Error
reply (ok response) none = (response, none)
reply (ok response) (some e) = (response, some (audit e))
reply (err e) none = (no_response, none)
reply (err e) (some outcome) = (no_response, some outcome)

abbrev pub response_of : Result Response → Option Response
response_of (ok response) = some response
response_of (err e) = none

abbrev pub error_of : Result Response → Option Error
error_of (ok response) = none
error_of (err e) = some e

module _ {W : Type 0} (redaction : Redaction) where
  -- The loop of `Resolve`; a definition with a blank name counts as not found.
  pub resolve_names : ToolSchemaResolver W → Context W → List String → Exec W (List ToolDefinition)
  unfolding is_blank
  resolve_names resolver ctx [] w = (ok [], w)
  resolve_names resolver ctx (name ∷ names) w =
      let (found, w') = resolver.info ctx name w in
      let (rest, w'') = resolve_names resolver ctx names w' in
      if is_blank name
      then (err (leaf "resolve tool schemas: tool name is empty"), w)
      else elim found [
        | none ↦ (err (leaf ("resolve tool schemas: tool " ⊕ quote name ⊕ " not found")), w')
        | some definition ↦
            if is_blank definition.name
            then (err (leaf ("resolve tool schemas: tool " ⊕ quote name ⊕ " not found")), w')
            else elim rest [
              | err e ↦ (err e, w'')
              | ok definitions ↦ (ok (definition ∷ definitions), w'')
            ]
      ]

  -- The definitions of the tools of a profile.
  pub resolved :
      Option (ToolSchemaResolver W)
      → Context W
      → String
      → List String
      → Exec W (List ToolDefinition)
  unfolding resolve_names safe_wrap
  resolved resolver ctx operation [] w = (ok [], w)
  resolved none ctx operation (name ∷ names) w =
      (err (leaf (operation ⊕ ": tool schema resolver is required")), w)
  resolved (some resolver) ctx operation (name ∷ names) w =
      let (found, w') = resolve_names resolver ctx (name ∷ names) w in
      elim found [
        | err e ↦ (err (safe_wrap redaction (operation ⊕ ": resolve tool schemas") e), w')
        | ok definitions ↦ (ok definitions, w')
      ]

  -- `prepareCall` from the lookup of the model on.
  pub with_model :
      Service W
      → Context W
      → Profile
      → String
      → Option (ChatModel W)
      → Exec W (ChatModel W × List ToolDefinition)
  unfolding resolved
  with_model service ctx selected operation none w = (
    err (leaf (operation ⊕ ": model binding for profile " ⊕ quote selected.name ⊕ " not found")),
    w,
  )
  with_model service ctx selected operation (some chat_model) w =
      let (found, w') = resolved service.resolver ctx operation selected.tools w in
      elim found [ err e ↦ (err e, w') | ok definitions ↦ (ok (chat_model, definitions), w') ]

  abbrev pub prepared_from :
      Service W
      → Context W
      → Profile
      → Result (ChatModel W × List ToolDefinition) × W
      → Result (Prepared W) × W
  prepared_from service ctx selected (err e, w) = (err e, w)
  prepared_from service ctx selected (ok (chat_model, definitions), w) = (
    ok (record {
      service = service;
      ctx = ctx;
      selected = selected;
      chat_model = chat_model;
      definitions = definitions;
    }),
    w,
  )

  -- `prepareCall`; a service is none where it is nil or misses its registry or its recorder.
  unfoldable pub prepare_call :
      Option (Service W)
      → Option (Context W)
      → String
      → Option Profile
      → String
      → Exec W (Prepared W)
  unfolding with_model is_blank
  prepare_call none ctx session_id selected operation w =
      (err (leaf (operation ⊕ ": service is not initialized")), w)
  prepare_call (some service) none session_id selected operation w =
      (err (leaf (operation ⊕ ": context is nil")), w)
  prepare_call (some service) (some ctx) session_id none operation w =
      if is_blank session_id
      then (err (leaf (operation ⊕ ": session_id is required")), w)
      else (err (leaf (operation ⊕ ": profile is required")), w)
  prepare_call (some service) (some ctx) session_id (some selected) operation w =
      if is_blank session_id
      then (err (leaf (operation ⊕ ": session_id is required")), w)
      else if is_blank selected.name
      then (err (leaf (operation ⊕ ": profile is required")), w)
      else prepared_from service ctx selected (
          with_model service ctx selected operation (model (some service.registry) selected.name) w)

  -- `recordOutcome`
  unfoldable pub record_outcome :
      Service W
      → Context W
      → CallMetadata
      → ℕ
      → Option Response
      → Option Error
      → W
      → Option Error × W
  unfolding call_row safe_wrap
  record_outcome service ctx metadata started response failed w =
      let (finished, w') = service.now w in
      let (unsaved, w'') =
        service.recorder (without_cancel ctx)
          (call_row redaction metadata started finished response failed) w' in
      (
        join_errors (safe_wrap_option redaction "persist llm call" unsaved)
            (safe_wrap_option redaction "provider call failed" failed),
        w'',
      )

  -- `Chat` from the model call on.
  pub call_model : Prepared W → String → List Message → W → (Response × Option Error) × W
  unfolding record_outcome
  call_model prepared session_id messages w =
      let (started, w1) = prepared.service.now w in
      let (called, w2) =
        prepared.chat_model.generate prepared.ctx
          (record { messages = messages; tools = prepared.definitions }) w1 in
      let (outcome, w3) =
        record_outcome prepared.service prepared.ctx
          (call_metadata_from session_id prepared.selected) started (response_of called)
          (error_of called) w2 in
      (reply called outcome, w3)

  -- `Chat`
  unfoldable pub chat :
      Option (Service W)
      → Option (Context W)
      → String
      → Option Profile
      → List Message
      → W
      → (Response × Option Error) × W
  unfolding prepare_call call_model
  chat service ctx session_id selected messages w =
      let (prepared, w') = prepare_call service ctx session_id selected "provider chat" w in
      elim prepared [
        | err e ↦ ((no_response, some e), w')
        | ok call ↦ call_model call session_id messages w'
      ]
