-- ===== src/Provider/Service/Ready.antt =====
-- internal/provider/service.go and tool_schema_resolver.go: what `prepareCall` returns.
use oryxos_go.Common.{◌≡◌, refl, String, Option, none, some, List, inl, inr, lookup, if_elim, true}
use oryxos_go.Go.Text.{is_blank}
use oryxos_go.Go.Error.{Error, Redaction}
use oryxos_go.Go.Effect.{Result, ok, err, Result-cases, Context}
use oryxos_go.Llm.{ToolDefinition}
use oryxos_go.Profile.{Profile}
use oryxos_go.Store.{LlmCall}
use oryxos_go.Provider.Registry.{ChatModel}
use oryxos_go.Provider.Service.Tools.{
  IsKept, Resolves, Unresolved, Resolved, resolved-Resolved, resolved_rows,
}
use oryxos_go.Provider.Service.{
  Service, Prepared, resolved, with_model, prepare_call, prepared_from,
}

-- Why a call is refused.
pub data IsTurnedAway {W : Type 0} (service : Service W) (session_id : String) (w : W)
    : Option (Context W) → Option Profile → Type 0 where
  no_context : (chosen : Option Profile) → IsTurnedAway service session_id w none chosen
  no_session :
      (given : Option (Context W)) (chosen : Option Profile)
      → is_blank session_id ≡ true
      → IsTurnedAway service session_id w given chosen
  no_profile : (given : Option (Context W)) → IsTurnedAway service session_id w given none
  unnamed :
      (given : Option (Context W)) (selected : Profile)
      → is_blank selected.name ≡ true
      → IsTurnedAway service session_id w given (some selected)
  no_model :
      (given : Option (Context W)) (selected : Profile)
      → lookup selected.name service.registry.models ≡ none
      → IsTurnedAway service session_id w given (some selected)
  no_tools :
      (ctx : Context W) (selected : Profile)
      → Unresolved service.resolver ctx selected.tools w
      → IsTurnedAway service session_id w (some ctx) (some selected)

-- The end of `prepare_call`: no row, and a model that the registry has.
pub data IsPrepared {W : Type 0} (rows : W → List LlmCall) (service : Service W)
    (session_id : String) (given : Option (Context W)) (chosen : Option Profile) (w : W)
    : Result (Prepared W) × W → Type 0 where
  turned_away :
      (e : Error) (w' : W)
      → rows w' ≡ rows w
      → IsTurnedAway service session_id w given chosen
      → IsPrepared rows service session_id given chosen w (err e, w')
  ready :
      (ctx : Context W) (selected : Profile) (chat_model : ChatModel W)
      (definitions : List ToolDefinition) (w' : W)
      → given ≡ some ctx
      → chosen ≡ some selected
      → lookup selected.name service.registry.models ≡ some chat_model
      → Resolves service.resolver ctx selected.tools w definitions w'
      → rows w' ≡ rows w
      → IsPrepared rows service session_id given chosen w (
        ok (record {
          service = service;
          ctx = ctx;
          selected = selected;
          chat_model = chat_model;
          definitions = definitions;
        }),
        w',
      )

module _ {W : Type 0} (redaction : Redaction) (rows : W → List LlmCall) where
  with_model_lem :
      (service : Service W)
      → IsKept rows service
      → (ctx : Context W) (session_id : String) (selected : Profile) (operation : String)
        (found : Option (ChatModel W)) (w : W)
      → lookup selected.name service.registry.models ≡ found
      → IsPrepared rows service session_id (some ctx) (some selected) w (
          prepared_from redaction service ctx selected
            (with_model redaction service ctx selected operation found w))
  unfolding with_model Resolved
  with_model_lem service kept ctx session_id selected operation none w eq =
      turned_away _ _ refl (no_model _ selected eq)
  with_model_lem service kept ctx session_id selected operation (some chat_model) w eq =
      let same = resolved_rows redaction rows service kept ctx operation selected.tools w in
      elim (Result-cases (resolved redaction service.resolver ctx operation selected.tools w).0) [
        | inl (e, bad) ↦
            rw (bad, with_model, prepared_from)
              (turned_away e _ same (
                no_tools ctx selected (
                  rw (bad, Resolved) at
                    (resolved-Resolved redaction rows service.resolver ctx operation selected.tools
                      w))))
        | inr (definitions, good) ↦
            rw (good, with_model, prepared_from)
              (ready ctx selected chat_model definitions _ refl refl eq
                (rw (good, Resolved) at
                  (resolved-Resolved redaction rows service.resolver ctx operation selected.tools
                    w))
                same)
      ]

  pub prepare_call_lem :
      (service : Service W)
      → IsKept rows service
      → (ctx : Option (Context W)) (session_id : String) (selected : Option Profile)
        (operation : String) (w : W)
      → IsPrepared rows service session_id ctx selected w
          (prepare_call redaction (some service) ctx session_id selected operation w)
  unfolding prepare_call
  prepare_call_lem service kept none session_id selected operation w =
      turned_away _ _ refl (no_context selected)
  prepare_call_lem service kept (some ctx) session_id none operation w =
      if_elim (λ out. IsPrepared rows service session_id (some ctx) none w out)
        (is_blank session_id) _ _ (λ h. turned_away _ _ refl (no_profile _))
        (λ h. turned_away _ _ refl (no_profile _))
  prepare_call_lem service kept (some ctx) session_id (some selected) operation w =
      if_elim (λ out. IsPrepared rows service session_id (some ctx) (some selected) w out)
        (is_blank session_id) _ _ (λ h. turned_away _ _ refl (no_session _ _ h))
        (λ h.
          if_elim (λ out. IsPrepared rows service session_id (some ctx) (some selected) w out)
            (is_blank selected.name) _ _ (λ k. turned_away _ _ refl (unnamed _ selected k))
            (λ k. with_model_lem service kept ctx session_id selected operation _ w refl))
