-- ===== src/Runtime/Agent/Saves.antt =====
-- internal/runtime/agent_service.go: when a session is saved, and what the caller is told.
use mathlib.Core.Path.{subst}
use oryxos_go.Common.{
  sym, ◌≢◌, Option-cases, inl, inr, append_assoc, ◌≡◌, refl, ◌∙◌, ap, String, Option, none, some,
  List, [], ◌∷◌, ◌++◌, ◌===◌, if_elim, true, false,
}
use oryxos_go.Go.Text.{is_blank, trim_space}
use oryxos_go.Go.Error.{Error, Redaction, message, join, join_errors}
use oryxos_go.Go.Effect.{Result, ok, err, Context, without_cancel}
use oryxos_go.Profile.{Profile}
use oryxos_go.Session.{Session}
use oryxos_go.Runtime.Agent.{
  AgentService, AgentRequest, AgentResponse, no_agent_response, safe_runtime_wrap, content_of,
  failure_of, run_context, run_and_save, with_session, with_profile, invoke,
}

-- What the world sees of an agent: the loop runs over a session for a text, or a session is given to the
-- session service to be saved.
pub data Event : Type 0 where
  runs : Session → String → Event
  saves : Session → Event

-- `trace` lists the events that a state of the world has seen, the latest at its end.
pub record IsTraced {W : Type 0} (trace : W → List Event) (service : AgentService W) : Type 0 where
  pub resolve_eq :
      (ctx : Context W) (request : AgentRequest) (name : String) (w : W)
      → trace (service.resolve ctx request name w).1 ≡ trace w
  pub run_eq :
      (ctx : Context W) (current : Session) (text : String) (selected : Profile) (w : W)
      → trace (service.run ctx current text selected w).2 ≡ trace w ++ runs current text ∷ []
  pub save_eq :
      (ctx : Context W) (current : Session) (w : W)
      → trace (service.save ctx current w).1 ≡ trace w ++ saves current ∷ []

-- The error that the caller gets, beside what the loop and the session service returned.
pub data IsTold (redaction : Redaction) : Result String → Option Error → Option Error → Type 0 where
  done : (content : String) → IsTold redaction (ok content) none none
  not_saved :
      (content : String) (failure e : Error)
      → safe_runtime_wrap redaction "invoke agent: save session" (some failure) ≡ some e
      → IsTold redaction (ok content) (some failure) (some e)
  not_run :
      (failure e : Error)
      → safe_runtime_wrap redaction "invoke agent: run" (some failure) ≡ some e
      → IsTold redaction (err failure) none (some e)
  neither :
      (failure other e f : Error)
      → safe_runtime_wrap redaction "invoke agent: run" (some failure) ≡ some e
      → safe_runtime_wrap redaction "invoke agent: save session" (some other) ≡ some f
      → IsTold redaction (err failure) (some other) (some (join e f))

-- Why an invocation is refused: there is no context, the name of the profile or the message is blank, no
-- profile has that name, or no session with an id was resolved.
pub data IsRefused {W : Type 0} (service : AgentService W) (request : AgentRequest) (w : W)
    : Option (Context W) → Type 0 where
  no_context : IsRefused service request w none
  no_name :
      (ctx : Context W)
      → (trim_space request.profile_name === "") ≡ true
      → IsRefused service request w (some ctx)
  no_message :
      (ctx : Context W) → is_blank request.message ≡ true → IsRefused service request w (some ctx)
  no_profile :
      (ctx : Context W)
      → service.get (trim_space request.profile_name) ≡ none
      → IsRefused service request w (some ctx)
  no_session :
      (ctx : Context W) (selected : Profile)
      → service.get (trim_space request.profile_name) ≡ some selected
      → ((current : Session)
          → (service.resolve ctx request selected.name w).0 ≡ ok (some current)
          → is_blank current.id ≡ true)
      → IsRefused service request w (some ctx)

-- The end of an invocation. `refused`: no loop ran, nothing was saved. `ran`: the loop ran once, over
-- the session that was resolved for the profile, under a context that names both; what it left was given
-- once to the session service, after it, and that ends the invocation.
pub data IsInvoked {W : Type 0} (redaction : Redaction) (trace : W → List Event)
    (service : AgentService W) (given : Option (Context W)) (request : AgentRequest) (w : W)
    : (AgentResponse × Option Error) × W → Type 0 where
  refused :
      (e : Error) (w' : W)
      → trace w' ≡ trace w
      → IsRefused service request w given
      → IsInvoked redaction trace service given request w ((no_agent_response, some e), w')
  ran :
      (caller ctx : Context W) (current : Session) (selected : Profile) (v : W)
      (told : Option Error) (w' : W)
      → given ≡ some caller
      → service.get (trim_space request.profile_name) ≡ some selected
      → service.resolve caller request selected.name w ≡ (ok (some current), v)
      → is_blank current.id ≡ false
      → ctx.correlation.session_id ≡ current.id
      → ctx.correlation.profile_name ≡ selected.name
      → trace w'
        ≡ trace w
          ++ runs current request.message
            ∷ saves (service.run ctx current request.message selected v).1
            ∷ []
      → w'
        ≡ (service.save
            (without_cancel ctx)
            (service.run ctx current request.message selected v).1
            (service.run ctx current request.message selected v).2).1
      → IsTold redaction
          (service.run ctx current request.message selected v).0
          (service.save
            (without_cancel ctx)
            (service.run ctx current request.message selected v).1
            (service.run ctx current request.message selected v).2).0
          told
      → IsInvoked redaction trace service given request w (
        (
          record {
            session_id = (service.run ctx current request.message selected v).1.id;
            content = content_of (service.run ctx current request.message selected v).0;
          },
          told,
        ),
        w',
      )

blank_of :
    (current other : Session)
    → is_blank current.id ≡ true
    → Path (Result (Option Session)) (ok (some current)) (ok (some other))
    → is_blank other.id ≡ true
blank_of current other h same = let eq : current ≡ other = cc same in rw (← eq) h

module _ (redaction : Redaction) where
  safe_runtime_wrap-ne-none :
      (prefix : String) (cause : Error) → safe_runtime_wrap redaction prefix (some cause) ≢ none
  unfolding safe_runtime_wrap
  safe_runtime_wrap-ne-none prefix cause =
      if_elim (λ out. out ≢ none) (redaction.sanitize (message cause) === message cause) _ _
        (λ h k. cc k) (λ h k. cc k)

  safe_elim :
      (P : Option Error → Type 0) (prefix : String) (cause : Error)
      → ((e : Error) → safe_runtime_wrap redaction prefix (some cause) ≡ some e → P (some e))
      → P (safe_runtime_wrap redaction prefix (some cause))
  safe_elim P prefix cause f =
      elim (Option-cases (safe_runtime_wrap redaction prefix (some cause))) [
        | inl missing ↦ absurd (safe_runtime_wrap-ne-none prefix cause missing)
        | inr (e, told) ↦ subst P (sym told) (f e told)
      ]

  told_lem :
      (ended : Result String) (unsaved : Option Error)
      → IsTold redaction ended unsaved (
          join_errors
            (safe_runtime_wrap redaction "invoke agent: run" (failure_of ended))
            (safe_runtime_wrap redaction "invoke agent: save session" unsaved))
  unfolding safe_runtime_wrap
  told_lem (ok content) none = done content
  told_lem (ok content) (some failure) =
      safe_elim (λ out. IsTold redaction (ok content) (some failure) out)
        "invoke agent: save session" failure (λ e same. not_saved content failure e same)
  told_lem (err failure) none =
      safe_elim (λ out. IsTold redaction (err failure) none (join_errors out none))
        "invoke agent: run" failure (λ e same. not_run failure e same)
  told_lem (err failure) (some other) =
      safe_elim
        (λ out.
          IsTold redaction (err failure) (some other) (
            join_errors out
              (safe_runtime_wrap redaction "invoke agent: save session" (some other))))
        "invoke agent: run" failure
        (λ e same.
          safe_elim (λ out. IsTold redaction (err failure) (some other) (join_errors (some e) out))
            "invoke agent: save session" other (λ f same'. neither failure other e f same same'))

module _ {W : Type 0} (redaction : Redaction) (trace : W → List Event) (service : AgentService W)
    (traced : IsTraced trace service) where
  module _ (ctx : Context W) (request : AgentRequest) (w : W) where
    module _ (selected : Profile)
        (known : service.get (trim_space request.profile_name) ≡ some selected) where
      still :
          (found : Result (Option Session)) (v : W)
          → service.resolve ctx request selected.name w ≡ (found, v)
          → trace v ≡ trace w
      still found v resolved =
          sym (ap (λ (out : Result (Option Session) × W). trace out.1) resolved)
          ∙ traced.resolve_eq ctx request selected.name w

      run_and_save_lem :
          (current : Session) (v : W)
          → service.resolve ctx request selected.name w ≡ (ok (some current), v)
          → is_blank current.id ≡ false
          → IsInvoked redaction trace service
              (some ctx)
              request
              w
              (run_and_save redaction service ctx request selected current v)
      unfolding run_and_save
      run_and_save_lem current v resolved named =
          let run_ctx = run_context ctx request current selected in
          let (ended, left, v') = service.run run_ctx current request.message selected v in
          ran ctx run_ctx current selected v _ _ refl known resolved named refl refl
            (traced.save_eq _ left v'
              ∙ ap (λ seen. seen ++ saves left ∷ [])
                  (traced.run_eq run_ctx current request.message selected v
                    ∙ ap (λ seen. seen ++ runs current request.message ∷ []) (still _ v resolved))
              ∙ append_assoc (trace w) _ _)
            refl (told_lem redaction ended _)

      with_session_lem :
          (found : Result (Option Session)) (v : W)
          → service.resolve ctx request selected.name w ≡ (found, v)
          → IsInvoked redaction trace service
              (some ctx)
              request
              w
              (with_session redaction service ctx request selected found v)
      unfolding with_session
      with_session_lem (err e) v resolved =
          safe_elim redaction
            (λ out.
              IsInvoked redaction trace service (some ctx) request w ((no_agent_response, out), v))
            "invoke agent: resolve session" e
            (λ f same.
              refused f v (still (err e) v resolved)
                (no_session ctx selected known (λ current h. cc (ap (λ out. out.0) resolved, h))))
      with_session_lem (ok none) v resolved =
          refused _ v (still (ok none) v resolved)
            (no_session ctx selected known (λ current h. cc (ap (λ out. out.0) resolved, h)))
      with_session_lem (ok (some current)) v resolved =
          if_elim (λ out. IsInvoked redaction trace service (some ctx) request w out)
            (is_blank current.id) _ _
            (λ h. refused _ v (still (ok (some current)) v resolved) (
              no_session ctx selected known
                (λ other k. blank_of current other h (sym (ap (λ out. out.0) resolved) ∙ k))))
            (λ h. run_and_save_lem current v resolved h)

    with_profile_lem :
        (found : Option Profile)
        → service.get (trim_space request.profile_name) ≡ found
        → IsInvoked redaction trace service
            (some ctx)
            request
            w
            (with_profile redaction service ctx request found w)
    unfolding with_profile
    with_profile_lem none known = refused _ w refl (no_profile ctx known)
    with_profile_lem (some selected) known =
        let (found, w') = service.resolve ctx request selected.name w in
        with_session_lem selected known found w' refl

  -- Where only the loop and the session service add to the trace, `Invoke` either refuses: an empty
  -- response, an error, no run of the loop, and nothing saved, and only where there is no context, the
  -- name of the profile or the message is blank, there is no such profile, or no session with an id was
  -- resolved. Or the loop ran once, for the text of the
  -- request, over the session that was resolved for the profile of that trimmed name, under a context
  -- with the id of that session and the name of that profile; and then the session as the loop left it
  -- was given once to the session service, under that context without its cancellation, whether the
  -- loop failed or not. The response then has that session's id and the text of the loop, empty where
  -- the loop failed. There is no error exactly where the loop and the session service returned none;
  -- otherwise it is what they returned, sanitized, joined where both failed.
  pub invoke-IsInvoked :
      (ctx : Option (Context W)) (request : AgentRequest) (w : W)
      → IsInvoked redaction trace service ctx request w
          (invoke redaction (some service) ctx request w)
  unfolding invoke
  invoke-IsInvoked none request w = refused _ w refl no_context
  invoke-IsInvoked (some ctx) request w =
      if_elim (λ out. IsInvoked redaction trace service (some ctx) request w out)
        (trim_space request.profile_name === "") _ _ (λ h. refused _ w refl (no_name ctx h))
        (λ h.
          if_elim (λ out. IsInvoked redaction trace service (some ctx) request w out)
            (is_blank request.message) _ _ (λ k. refused _ w refl (no_message ctx k))
            (λ k. with_profile_lem ctx request w _ refl))
