-- ===== src/Runtime/React/Calls.antt =====
-- How often one run calls the model.
use oryxos_go.Common.{
  ℕ, zero, suc, ◌+◌, ◌≤◌, ◌≡◌, refl, ◌∙◌, String, Option, none, some, List, [], ◌∷◌, arith, inl,
  inr, Option-cases,
}
use oryxos_go.Common.Int.{pos_part}
use oryxos_go.Go.Error.{Error}
use oryxos_go.Go.Effect.{Result, ok, err, Context}
use oryxos_go.Llm.{Message, ToolCall, Response, text_message, role_user}
use oryxos_go.Profile.{Profile}
use oryxos_go.Session.{Session, appended}
use oryxos_go.Runtime.React.{
  Services, Outcome, tool_message, run_calls, observed, replied, answered, prompted, round, iterate,
  run_session,
}

-- `chats` counts the calls of the chat service that a state of the world has seen.
pub record IsCounted {W : Type 0} (services : Services W) (chats : W → ℕ) : Type 0 where
  pub chat :
      (ctx : Context W) (id : String) (p : Profile) (ms : List Message) (w : W)
      → chats (services.chat ctx id p ms w).1 ≡ suc (chats w)
  pub execute :
      (ctx : Context W) (id : String) (tools : List String) (call : ToolCall) (w : W)
      → chats (services.execute ctx id tools call w).1 ≡ chats w
  pub build :
      (ctx : Context W) (s : Session) (p : Profile) (text : String) (w : W)
      → chats (services.build ctx s p text w).1 ≡ chats w

module _ {W : Type 0} (services : Services W) (ctx : Context W) (selected : Profile) (text : String)
    (chats : W → ℕ) (counted : IsCounted services chats) where
  chats-run_calls :
      (calls : List ToolCall) (s : Session) (w : W)
      → chats (run_calls services ctx selected text calls s w).2 ≡ chats w
  unfolding run_calls
  chats-run_calls [] s w = refl
  chats-run_calls (call ∷ calls) s w =
      let result = services.execute ctx s.id selected.tools call w in
      let kept = counted.execute ctx s.id selected.tools call w in
      let ih = chats-run_calls calls (appended s (tool_message call result.0.0)) result.1 in
      elim (Option-cases result.0.1) [
        | inr (e, failed) ↦ rw (failed, run_calls) kept
        | inl fine ↦ rw (fine, run_calls) (ih ∙ kept)
      ]

  module _ (n : ℕ) (again : Session → W → Outcome W)
      (ih : (s : Session) (w : W) → chats (again s w).2 ≤ chats w + n) where
    chats-observed :
        (failed : Option Error) (s : Session) (w : W)
        → chats (observed services ctx selected text again failed s w).2 ≤ chats w + n
    unfolding observed
    chats-observed (some e) s w = omega arith
    chats-observed none s w = ih s w

    chats-replied :
        (m : Message) (calls : List ToolCall) (s : Session) (w : W)
        → chats (replied services ctx selected text again m calls s w).2 ≤ chats w + n
    unfolding replied
    chats-replied m [] s w = omega arith
    chats-replied m (call ∷ calls) s w =
        let r = run_calls services ctx selected text (call ∷ calls) s w in
        rw (← chats-run_calls (call ∷ calls) s w) (chats-observed r.0 r.1 r.2)

    chats-answered :
        (response : Response) (failed : Option Error) (s : Session) (w : W)
        → chats (answered services ctx selected text again response failed s w).2 ≤ chats w + n
    unfolding answered
    chats-answered response none s w =
        chats-replied response.message response.message.tool_calls (appended s response.message) w
    chats-answered response (some e) s w = omega arith

    chats-prompted :
        (built : Result (List Message)) (s : Session) (w : W)
        → chats (prompted services ctx selected text again built s w).2 ≤ chats w + suc n
    unfolding prompted
    chats-prompted (err e) s w = omega arith
    chats-prompted (ok messages) s w =
        let reply = services.chat ctx s.id selected messages w in
        omega (
          arith,
          counted.chat ctx s.id selected messages w,
          chats-answered reply.0.0 reply.0.1 s reply.1,
        )

    chats-round :
        (s : Session) (w : W)
        → chats (round services ctx selected text again s w).2 ≤ chats w + suc n
    unfolding round
    chats-round s w = elim (Option-cases (ctx.cancelled w)) [
      | inr (e, cancelled) ↦ rw (cancelled, round) (omega arith)
      | inl live ↦
          let built = services.build ctx s selected text w in
          rw (live, round)
            (omega (arith, counted.build ctx s selected text w, chats-prompted built.0 s built.1))
    ]

  chats-iterate :
      (n : ℕ) (s : Session) (w : W)
      → chats (iterate services ctx selected text n s w).2 ≤ chats w + n
  unfolding iterate
  chats-iterate zero s w = omega arith
  chats-iterate (suc n) s w =
      chats-round n (iterate services ctx selected text n) (chats-iterate n) s w

  -- One run calls the chat service at most max_iterations times, where a counter of those calls
  -- goes up by one with each and the other services leave it alone.
  pub chats-run_session :
      (s : Session) (w : W)
      → chats (run_session services ctx selected text s w).2
        ≤ chats w + pos_part selected.settings.max_iterations
  unfolding run_session
  chats-run_session s w =
      chats-iterate (pos_part selected.settings.max_iterations)
        (appended s (text_message role_user text)) w
