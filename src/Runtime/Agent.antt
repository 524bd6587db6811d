-- ===== src/Runtime/Agent.antt =====
-- internal/runtime/agent_service.go: one invocation of an agent, from the request to the saved
-- session. The session that the loop changes is returned by the loop here.
pub mod Saves
use oryxos_go.Common.{String, Option, none, some, Bool, ◌===◌, if◌then◌else◌}
use oryxos_go.Go.Text.{◌⊕◌, quote, is_blank, trim_space}
use oryxos_go.Go.Error.{Error, Redaction, leaf, wrap, message, join_errors}
use oryxos_go.Go.Effect.{
  Result, ok, err, Result-cases, Exec, Context, Correlation, with_correlation, without_cancel,
}
use oryxos_go.Profile.{Profile}
use oryxos_go.Session.{Session}

-- types.go
pub record AgentRequest : Type 0 where
  pub profile_name : String
  pub channel : String
  pub user_id : String
  pub session_id : String
  pub message : String
  pub stateless : Bool

pub record AgentResponse : Type 0 where
  pub session_id : String
  pub content : String

-- `AgentResponse{}`
abbrev pub no_agent_response : AgentResponse
no_agent_response = record { session_id = ""; content = "" }

-- `get` is that of the profile resolver, `resolve` and `save` are those of the session service, and
-- `run` is that of the loop.
pub record AgentService (W : Type 0) : Type 0 where
  pub get : String → Option Profile
  pub resolve : Context W → AgentRequest → String → Exec W (Option Session)
  pub save : Context W → Session → W → Option Error × W
  pub run : Context W → Session → String → Profile → W → Result String × Session × W

-- `safeRuntimeWrap`
unfoldable pub safe_runtime_wrap : Redaction → String → Option Error → Option Error
unfolding message
safe_runtime_wrap redaction prefix none = none
safe_runtime_wrap redaction prefix (some cause) =
    if redaction.sanitize (message cause) === message cause
    then some (wrap prefix cause)
    else some (leaf (prefix ⊕ ": " ⊕ redaction.sanitize (message cause)))

abbrev pub content_of : Result String → String
content_of (ok content) = content
content_of (err e) = ""

abbrev pub failure_of : Result String → Option Error
failure_of (ok content) = none
failure_of (err e) = some e

module _ {W : Type 0} where
  -- The context of the run.
  abbrev pub run_context : Context W → AgentRequest → Session → Profile → Context W
  run_context ctx request current selected = with_correlation ctx (record ctx.correlation {
    session_id = current.id;
    profile_name = selected.name;
    channel = request.channel;
  })

module _ {W : Type 0} (redaction : Redaction) where
  -- `Invoke` from the run of the loop on.
  pub run_and_save :
      AgentService W
      → Context W
      → AgentRequest
      → Profile
      → Session
      → W
      → (AgentResponse × Option Error) × W
  unfolding safe_runtime_wrap
  run_and_save service ctx request selected current w =
      let run_ctx = run_context ctx request current selected in
      let (ran, current', w') = service.run run_ctx current request.message selected w in
      let (unsaved, w'') = service.save (without_cancel run_ctx) current' w' in
      (
        (
          record { session_id = current'.id; content = content_of ran },
          join_errors (safe_runtime_wrap redaction "invoke agent: run" (failure_of ran))
              (safe_runtime_wrap redaction "invoke agent: save session" unsaved),
        ),
        w'',
      )

  -- After the session was resolved.
  pub with_session :
      AgentService W
      → Context W
      → AgentRequest
      → Profile
      → Result (Option Session)
      → W
      → (AgentResponse × Option Error) × W
  unfolding run_and_save is_blank safe_runtime_wrap
  with_session service ctx request selected (err e) w =
      ((no_agent_response, safe_runtime_wrap redaction "invoke agent: resolve session" (some e)), w)
  with_session service ctx request selected (ok none) w = (
    (no_agent_response, some (leaf "invoke agent: session service returned an invalid session")),
    w,
  )
  with_session service ctx request selected (ok (some current)) w =
      if is_blank current.id
      then (
        (
          no_agent_response,
          some (leaf "invoke agent: session service returned an invalid session"),
        ),
        w,
      )
      else run_and_save service ctx request selected current w

  -- After the profile was looked up.
  pub with_profile :
      AgentService W
      → Context W
      → AgentRequest
      → Option Profile
      → W
      → (AgentResponse × Option Error) × W
  unfolding with_session
  with_profile service ctx request none w = (
    (
      no_agent_response,
      some (
          leaf ("invoke agent: profile " ⊕ quote (trim_space request.profile_name) ⊕ " not found")),
    ),
    w,
  )
  with_profile service ctx request (some selected) w =
      let (found, w') = service.resolve ctx request selected.name w in
      with_session service ctx request selected found w'

  -- `Invoke`; a service is none where it is nil or misses a part.
  unfoldable pub invoke :
      Option (AgentService W)
      → Option (Context W)
      → AgentRequest
      → W
      → (AgentResponse × Option Error) × W
  unfolding with_profile trim_space is_blank
  invoke none ctx request w =
      ((no_agent_response, some (leaf "invoke agent: service is not initialized")), w)
  invoke (some service) none request w =
      ((no_agent_response, some (leaf "invoke agent: context is nil")), w)
  invoke (some service) (some ctx) request w =
      if trim_space request.profile_name === ""
      then ((no_agent_response, some (leaf "invoke agent: profile_name is required")), w)
      else if is_blank request.message
      then ((no_agent_response, some (leaf "invoke agent: message is required")), w)
      else with_profile service ctx request (service.get (trim_space request.profile_name)) w
