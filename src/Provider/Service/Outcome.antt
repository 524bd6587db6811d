-- ===== src/Provider/Service/Outcome.antt =====
-- internal/provider/service.go: the audit row of a call, and what `Chat` returns for it.
use oryxos_go.Common.{ℕ, ◌-◌, ◌/◌, ◌≡◌, refl, String, Option, none, some, true, false}
use oryxos_go.Common.Int.{ℤ}
use oryxos_go.Go.Error.{Error, Redaction, audit, join_errors, message}
use oryxos_go.Go.Effect.{Result, ok, err}
use oryxos_go.Llm.{Response, no_response}
use oryxos_go.Profile.{Profile}
use oryxos_go.Store.{LlmCall}
use oryxos_go.Provider.Registry.{safe_wrap}
use oryxos_go.Provider.Service.{
  call_row, call_metadata_from, response_of, error_of, reply, safe_wrap_option, CallMetadata,
}

-- A row has the usage of a response, as a call that succeeded.
pub record IsCharged (row : LlmCall) (response : Response) : Type 0 where
  pub success_eq : row.success ≡ true
  pub message_eq : row.error_message ≡ none
  pub prompt_eq : row.prompt_tokens ≡ response.usage.prompt_tokens
  pub completion_eq : row.completion_tokens ≡ response.usage.completion_tokens
  pub total_eq : row.total_tokens ≡ response.usage.total_tokens

-- A row has the sanitized error of a call that failed, and no usage.
pub record IsBlamed (redaction : Redaction) (row : LlmCall) (cause : Error) : Type 0 where
  pub success_eq : row.success ≡ false
  pub message_eq :
      row.error_message ≡ some (message (safe_wrap redaction "provider call failed" cause))
  pub prompt_eq : row.prompt_tokens ≡ ℤ.pos 0
  pub completion_eq : row.completion_tokens ≡ ℤ.pos 0
  pub total_eq : row.total_tokens ≡ ℤ.pos 0

-- A row beside what the model returned, what the recorder returned for the row, and what the caller
-- gets.
pub data IsOutcome (redaction : Redaction) (row : LlmCall)
    : Result Response → Option Error → Response × Option Error → Type 0 where
  replied :
      (response : Response)
      → IsCharged row response
      → IsOutcome redaction row (ok response) none (response, none)
  unsaved :
      (response : Response) (lost : Error)
      → IsCharged row response
      → IsOutcome redaction row
          (ok response)
          (some lost)
          (response, some (audit (safe_wrap redaction "persist llm call" lost)))
  failed :
      (cause : Error)
      → IsBlamed redaction row cause
      → IsOutcome redaction row
          (err cause)
          none
          (no_response, some (safe_wrap redaction "provider call failed" cause))
  failed_unsaved :
      (cause lost : Error)
      → IsBlamed redaction row cause
      → IsOutcome redaction row (err cause) (some lost) (
        no_response,
        join_errors
            (some (safe_wrap redaction "persist llm call" lost))
            (some (safe_wrap redaction "provider call failed" cause)),
      )

-- The row of a call of `session_id` with this profile, between these two readings of the clock.
pub record IsDated (row : LlmCall) (session_id : String) (selected : Profile) (started finished : ℕ)
    : Type 0 where
  pub session_eq : row.session_id ≡ session_id
  pub provider_eq : row.provider ≡ selected.provider.name
  pub model_eq : row.model ≡ selected.provider.model
  pub duration_eq : row.duration_ms ≡ (finished - started) / 1000000
  pub created_eq : row.created_at ≡ finished

module _ (redaction : Redaction) where
  IsCharged-call_row :
      (response : Response) (metadata : CallMetadata) (started finished : ℕ)
      → IsCharged (call_row redaction metadata started finished (some response) none) response
  unfolding call_row
  IsCharged-call_row response metadata started finished = record {
    success_eq = refl;
    message_eq = refl;
    prompt_eq = refl;
    completion_eq = refl;
    total_eq = refl;
  }

  IsBlamed-call_row :
      (cause : Error) (metadata : CallMetadata) (started finished : ℕ)
      → IsBlamed redaction (call_row redaction metadata started finished none (some cause)) cause
  unfolding call_row
  IsBlamed-call_row cause metadata started finished = record {
    success_eq = refl;
    message_eq = refl;
    prompt_eq = refl;
    completion_eq = refl;
    total_eq = refl;
  }

  pub reply_outcome :
      (called : Result Response) (persisted : Option Error) (metadata : CallMetadata)
      (started finished : ℕ)
      → IsOutcome redaction
          (call_row redaction metadata started finished (response_of called) (error_of called))
          called
          persisted
          (reply called (
            join_errors
              (safe_wrap_option redaction "persist llm call" persisted)
              (safe_wrap_option redaction "provider call failed" (error_of called))))
  reply_outcome (ok response) none metadata started finished =
      replied response (IsCharged-call_row response metadata started finished)
  reply_outcome (ok response) (some e) metadata started finished =
      unsaved response e (IsCharged-call_row response metadata started finished)
  reply_outcome (err e) none metadata started finished =
      failed e (IsBlamed-call_row e metadata started finished)
  reply_outcome (err e) (some f) metadata started finished =
      failed_unsaved e f (IsBlamed-call_row e metadata started finished)

  pub IsDated-call_row :
      (session_id : String) (selected : Profile) (started finished : ℕ) (response : Option Response)
      (failure : Option Error)
      → IsDated
          (call_row redaction
            (call_metadata_from session_id selected)
            started
            finished
            response
            failure)
          session_id
          selected
          started
          finished
  unfolding call_row
  IsDated-call_row session_id selected started finished response failure = record {
    session_eq = refl;
    provider_eq = refl;
    model_eq = refl;
    duration_eq = refl;
    created_eq = refl;
  }
