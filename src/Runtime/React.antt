-- ===== src/Runtime/React.antt =====
-- internal/runtime/react_loop.go. The chat service, the tool executor and the prompt builder are
-- interfaces there and a record of functions here; the loop owns the session.
pub mod Conversation
pub mod Calls
use oryxos_go.Common.{
  ℕ, zero, suc, String, Option, none, some, List, [], ◌∷◌, Bool, true, false, if◌then◌else◌,
}
use oryxos_go.Common.Int.{is_positive, pos_part}
use oryxos_go.Go.Text.{is_blank}
use oryxos_go.Go.Error.{Error, Sentinel, leaf, wrap, sentinel, as_model_response}
use oryxos_go.Go.Effect.{Result, ok, err, Exec, Context}
use oryxos_go.Llm.{Message, ToolCall, Response, text_message, role_user, role_tool}
use oryxos_go.Profile.{Profile}
use oryxos_go.Session.{Session, appended}

-- `chatService`, `toolExecutor` and `promptBuilder`. A call of the first two has a value beside
-- its error.
pub record Services (W : Type 0) : Type 0 where
  pub chat : Context W → String → Profile → List Message → W → (Response × Option Error) × W
  pub execute : Context W → String → List String → ToolCall → W → (String × Option Error) × W
  pub build : Context W → Session → Profile → String → Exec W (List Message)

-- `modelResponseAvailable`
pub model_response_available : Error → Bool
unfolding as_model_response
model_response_available e = elim (as_model_response e) [ none ↦ false | some b ↦ b ]

-- The message that a tool's result becomes.
abbrev pub tool_message : ToolCall → String → Message
tool_message call result = record (text_message role_tool result) {
  tool_call_id = call.id;
  tool_name = call.function.name;
}

-- `Run` returns a text or an error; the session and the world are as it leaves them.
abbrev pub Outcome : Type 0 → Type 0
Outcome W = Result String × Session × W

module _ {W : Type 0} (services : Services W) (ctx : Context W) (selected : Profile)
    (text : String) where
  -- The loop over the tool calls of a response.
  pub run_calls : List ToolCall → Session → W → Option Error × Session × W
  run_calls [] s w = (none, s, w)
  run_calls (call ∷ calls) s w =
      let (done, w') = services.execute ctx s.id selected.tools call w in
      let s' = appended s (tool_message call done.0) in
      elim done.1 [ some e ↦ (some e, s', w') | none ↦ run_calls calls s' w' ]

  -- After the tool calls: the loop goes on, or returns the error of a tool.
  pub observed : (Session → W → Outcome W) → Option Error → Session → W → Outcome W
  observed again (some e) s w = (err e, s, w)
  observed again none s w = again s w

  -- After the response was appended to the session.
  pub replied : (Session → W → Outcome W) → Message → List ToolCall → Session → W → Outcome W
  unfolding run_calls observed
  replied again message [] s w = (ok message.content, s, w)
  replied again message (call ∷ calls) s w =
      let (failed, s', w') = run_calls (call ∷ calls) s w in observed again failed s' w'

  -- After the chat service returned.
  pub answered : (Session → W → Outcome W) → Response → Option Error → Session → W → Outcome W
  unfolding replied model_response_available
  answered again response (some e) s w =
      (err e, if model_response_available e then appended s response.message else s, w)
  answered again response none s w =
      replied again response.message response.message.tool_calls (appended s response.message) w

  -- After the prompt was built.
  pub prompted : (Session → W → Outcome W) → Result (List Message) → Session → W → Outcome W
  unfolding answered
  prompted again (err e) s w = (err (wrap "build prompt" e), s, w)
  prompted again (ok messages) s w =
      let (reply, w') = services.chat ctx s.id selected messages w in
      answered again reply.0 reply.1 s w'

  -- One iteration; `again` is the rest of the loop.
  pub round : (Session → W → Outcome W) → Session → W → Outcome W
  unfolding prompted
  round again s w = elim (ctx.cancelled w) [
    | some e ↦ (err e, s, w)
    | none ↦ let (built, w') = services.build ctx s selected text w in prompted again built s w'
  ]

  -- The loop, `n` being `MaxIterations - iteration`.
  pub iterate : ℕ → Session → W → Outcome W
  unfolding round
  iterate zero s w = (err (sentinel Sentinel.max_iterations), s, w)
  iterate (suc n) s w = round (iterate n) s w

  -- From the append of the user message on.
  unfoldable pub run_session : Session → W → Outcome W
  unfolding iterate
  run_session s w =
      iterate (pos_part selected.settings.max_iterations) (appended s (text_message role_user text))
        w

refuse : {W : Type 0} → String → Option Session → W → Result String × Option Session × W
refuse reason current w = (err (leaf reason), current, w)

-- `Run`; a loop that is nil or that lacks a service is `none`.
unfoldable pub run :
    {W : Type 0}
    → Option (Services W)
    → Option (Context W)
    → Option Session
    → String
    → Option Profile
    → W
    → Result String × Option Session × W
unfolding run_session refuse is_blank
run none ctx current text selected w = refuse "run react loop: loop is not initialized" current w
run (some services) none current text selected w = refuse "run react loop: context is nil" current w
run (some services) (some ctx) none text selected w =
    refuse "run react loop: session is required" none w
run (some services) (some ctx) (some s) text none w =
    refuse
      (if is_blank s.id
        then "run react loop: session is required"
        else "run react loop: profile is required")
      (some s) w
run (some services) (some ctx) (some s) text (some selected) w =
    if is_blank s.id
    then refuse "run react loop: session is required" (some s) w
    else if is_blank selected.name
    then refuse "run react loop: profile is required" (some s) w
    else if is_positive selected.settings.max_iterations
    then (let (result, s', w') = run_session services ctx selected text s w in
        (result, some s', w'))
    else refuse "run react loop: max_iterations must be positive" (some s) w
