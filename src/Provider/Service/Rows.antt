-- ===== src/Provider/Service/Rows.antt =====
-- internal/provider/service.go: what `Chat` returns against the audit row that it writes.
use oryxos_go.Common.{◌≡◌, refl, ◌∙◌, ap, String, Option, some, List, [], ◌∷◌, ◌++◌, lookup}
use oryxos_go.Go.Error.{Error, Redaction}
use oryxos_go.Go.Effect.{Result, ok, err, Context, without_cancel}
use oryxos_go.Llm.{Message, Response, ToolDefinition, no_response}
use oryxos_go.Profile.{Profile}
use oryxos_go.Store.{LlmCall}
use oryxos_go.Provider.Registry.{ChatModel}
use oryxos_go.Provider.Service.Outcome.{IsOutcome, IsDated, reply_outcome, IsDated-call_row}
use oryxos_go.Provider.Service.Tools.{IsKept, Resolves}
use oryxos_go.Provider.Service.Ready.{
  IsTurnedAway, IsPrepared, turned_away, ready, prepare_call_lem,
}
use oryxos_go.Provider.Service.{
  Service, Prepared, call_row, call_metadata_from, record_outcome, call_model, chat, response_of,
  error_of,
}

-- The call of the model, after a reading of the clock in `v`.
abbrev pub generated :
    {W : Type 0}
    → Service W
    → ChatModel W
    → Context W
    → List Message
    → List ToolDefinition
    → W
    → Result Response × W
generated service chat_model ctx messages definitions v =
    chat_model.generate ctx (record { messages = messages; tools = definitions }) (service.now v).1

-- What `Chat` is called with.
pub record ChatCall (W : Type 0) : Type 0 where
  pub given : Option (Context W)
  pub session_id : String
  pub chosen : Option Profile
  pub messages : List Message

-- The end of a call: nothing was recorded and the caller gets an error, or the model was called and
-- one row was given to the recorder, which ends the call.
pub data IsAccounted {W : Type 0} (redaction : Redaction) (rows : W → List LlmCall)
    (service : Service W) (call : ChatCall W) (w : W) : (Response × Option Error) × W → Type 0 where
  refused :
      (e : Error) (w' : W)
      → rows w' ≡ rows w
      → IsTurnedAway service call.session_id w call.given call.chosen
      → IsAccounted redaction rows service call w ((no_response, some e), w')
  recorded :
      (ctx : Context W) (selected : Profile) (chat_model : ChatModel W)
      (definitions : List ToolDefinition) (v : W) (row : LlmCall)
      (returned : Response × Option Error) (w' : W)
      → call.given ≡ some ctx
      → call.chosen ≡ some selected
      → lookup selected.name service.registry.models ≡ some chat_model
      → Resolves service.resolver ctx selected.tools w definitions v
      → rows v ≡ rows w
      → IsDated row call.session_id selected
          (service.now v).0
          (service.now (generated service chat_model ctx call.messages definitions v).1).0
      → w'
        ≡ (service.recorder
            (without_cancel ctx)
            row
            (service.now (generated service chat_model ctx call.messages definitions v).1).1).1
      → rows w' ≡ rows w ++ row ∷ []
      → IsOutcome redaction row
          (generated service chat_model ctx call.messages definitions v).0
          (service.recorder
            (without_cancel ctx)
            row
            (service.now (generated service chat_model ctx call.messages definitions v).1).1).0
          returned
      → IsAccounted redaction rows service call w (returned, w')

module _ {W : Type 0} (redaction : Redaction) (rows : W → List LlmCall) where
  call_model_lem :
      (service : Service W)
      → IsKept rows service
      → (ctx : Context W) (selected : Profile) (chat_model : ChatModel W)
        (definitions : List ToolDefinition) (call : ChatCall W) (v w : W)
      → call.given ≡ some ctx
      → call.chosen ≡ some selected
      → lookup selected.name service.registry.models ≡ some chat_model
      → Resolves service.resolver ctx selected.tools w definitions v
      → rows v ≡ rows w
      → IsAccounted redaction rows service call w (
          call_model redaction
            (record {
              service = service;
              ctx = ctx;
              selected = selected;
              chat_model = chat_model;
              definitions = definitions;
            })
            call.session_id
            call.messages
            v)
  unfolding call_model record_outcome
  call_model_lem service kept ctx selected chat_model definitions call v w given chosen bound
        answers same =
      let (called, w2) = generated service chat_model ctx call.messages definitions v in
      let (finished, w3) = service.now w2 in
      let row =
        call_row redaction (call_metadata_from call.session_id selected) (service.now v).0 finished
          (response_of called) (error_of called) in
      recorded ctx selected chat_model definitions v row _ _ given chosen bound answers same
        (IsDated-call_row redaction call.session_id selected _ finished (response_of called)
          (error_of called))
        refl
        (kept.recorder_rows _ _ w3
          ∙ ap (λ seen. seen ++ row ∷ [])
              (kept.now_rows w2
                ∙ kept.generate_rows selected.name chat_model bound ctx _ (service.now v).1
                ∙ kept.now_rows v
                ∙ same))
        (reply_outcome redaction called _ _ _ finished)

  chat_from :
      (service : Service W)
      → IsKept rows service
      → (call : ChatCall W) (w : W) (prepared : Result (Prepared W) × W)
      → IsPrepared rows service call.session_id call.given call.chosen w prepared
      → IsAccounted redaction rows service call w (elim prepared.0 [
        | err e ↦ ((no_response, some e), prepared.1)
        | ok ready_call ↦ call_model redaction ready_call call.session_id call.messages prepared.1
      ])
  chat_from service kept call w _ (turned_away e w' same why) = refused e w' same why
  chat_from service kept call w _
        (ready ctx selected chat_model definitions w' given chosen bound answers same) =
      call_model_lem service kept ctx selected chat_model definitions call w' w given chosen bound
        answers same

  -- `Chat` of a service whose registry and recorder are there, where only the recorder adds rows,
  -- either refuses the call: an error, an empty response and no row, and only where there is no
  -- context, no session id, no profile with a name, no model for it in the registry, or a tool of the
  -- profile that is not resolved. Or it calls the model that the
  -- registry has for the profile, under the caller's context, with the messages and with one definition
  -- for each of the profile's tools, which the resolver gave for its name, and gives the recorder one row, under that context without its cancellation. The row
  -- has the session, the profile's provider and model, the time after the call and the milliseconds
  -- since the time before it. Where the model answered, the row is a success with the usage of the
  -- answer, and the caller gets the answer, with an error exactly where the recorder returned one: that
  -- one, sanitized, marked as an audit error. Where the model failed, the row is a failure with the
  -- sanitized error and no usage, and the caller gets an empty response and that error, joined with the
  -- recorder's where there is one.
  pub chat-IsAccounted :
      (service : Service W)
      → IsKept rows service
      → (call : ChatCall W) (w : W)
      → IsAccounted redaction rows service call w
          (chat redaction (some service) call.given call.session_id call.chosen call.messages w)
  unfolding chat
  chat-IsAccounted service kept call w = chat_from service kept call w _ (
      prepare_call_lem redaction rows service kept call.given call.session_id call.chosen
        "provider chat" w)
