-- ===== src/Runtime/React/Conversation.antt =====
-- What one run adds to the conversation, whatever the services answer.
use mathlib.Core.Path.{subst}
use oryxos_go.Common.{
  ℕ, zero, suc, ◌<◌, ◌≡◌, ◌≢◌, refl, sym, ap, ◌∙◌, String, Option, none, some, List, [], ◌∷◌, ◌++◌,
  true, arith, ◌⊎◌, inl, inr, Bool-cases, Option-cases, append_assoc, append-nil,
}
use oryxos_go.Common.Int.{pos_part}
use oryxos_go.Go.Error.{Error, Sentinel, sentinel, wrap}
use oryxos_go.Go.Effect.{Result, ok, err, Context}
use oryxos_go.Llm.{Message, ToolCall, Response, text_message, role_user}
use oryxos_go.Profile.{Profile}
use oryxos_go.Session.{Session, appended}
use oryxos_go.Session.Turns.{appended_lem}
use oryxos_go.Runtime.React.{
  Services, Outcome, model_response_available, tool_message, run_calls, observed, replied, answered,
  prompted, round, iterate, run_session,
}

-- One tool message for each call, in the order of the calls, with the call's id and name.
abbrev pub Answers : List ToolCall → List Message → Type 0
Answers [] [] = Unit {0}
Answers (call ∷ calls) (m ∷ ms) =
    ((content : String) × (m ≡ tool_message call content)) × Answers calls ms
Answers _ _ = ⊥

-- The same for the first calls only.
abbrev pub AnswersSome : List ToolCall → List Message → Type 0
AnswersSome calls [] = Unit {0}
AnswersSome (call ∷ calls) (m ∷ ms) =
    ((content : String) × (m ≡ tool_message call content)) × AnswersSome calls ms
AnswersSome [] (m ∷ ms) = ⊥

-- `k` responses with tool calls, each followed by the answers to all its calls.
pub data Rounds : ℕ → List Message → Type 0 where
  done : Rounds zero []
  more :
      {k : ℕ} {response : Message} (answers rest : List Message)
      → response.tool_calls ≢ []
      → Answers response.tool_calls answers
      → Rounds k rest
      → Rounds (suc k) (response ∷ (answers ++ rest))

-- The ways in which a loop of at most `limit` iterations ends, by what it added and returned.
pub data Conversation (limit : ℕ) (added : List Message) (result : Result String) : Type 0 where
  finished :
      {k : ℕ} {rounds : List Message} (final : Message)
      → Rounds k rounds
      → k < limit
      → final.tool_calls ≡ []
      → added ≡ rounds ++ final ∷ []
      → result ≡ ok final.content
      → Conversation limit added result
  exhausted :
      Rounds limit added
      → result ≡ err (sentinel Sentinel.max_iterations)
      → Conversation limit added result
  stopped :
      {k : ℕ} (e : Error)
      → Rounds k added
      → k < limit
      → result ≡ err e
      → Conversation limit added result
  retained :
      {k : ℕ} {rounds : List Message} (response : Message) (e : Error)
      → Rounds k rounds
      → k < limit
      → model_response_available e ≡ true
      → added ≡ rounds ++ response ∷ []
      → result ≡ err e
      → Conversation limit added result
  tool_failed :
      {k : ℕ} {rounds : List Message} (response : Message) (answers : List Message) (e : Error)
      → Rounds k rounds
      → k < limit
      → AnswersSome response.tool_calls answers
      → answers ≢ []
      → added ≡ rounds ++ response ∷ answers
      → result ≡ err e
      → Conversation limit added result

-- A complete round may be put before a conversation.
module _ {response : Message} (answers : List Message) (calls : response.tool_calls ≢ [])
    (full : Answers response.tool_calls answers) where
  regroup :
      {added : List Message} (rounds last : List Message)
      → added ≡ rounds ++ last
      → response ∷ (answers ++ added) ≡ (response ∷ (answers ++ rounds)) ++ last
  regroup rounds last split =
      ap (λ ms. response ∷ (answers ++ ms)) split
      ∙ ap (λ ms. response ∷ ms) (sym (append_assoc answers rounds last))

  Conversation-more :
      {limit : ℕ} {added : List Message} {result : Result String}
      → Conversation limit added result
      → Conversation (suc limit) (response ∷ (answers ++ added)) result
  Conversation-more (Conversation.finished {rounds = rs} final r h last split same) =
      Conversation.finished final (Rounds.more answers rs calls full r) (omega arith) last
        (regroup rs (final ∷ []) split) same
  Conversation-more {added} (Conversation.exhausted r same) =
      Conversation.exhausted (Rounds.more answers added calls full r) same
  Conversation-more {added} (Conversation.stopped e r h same) =
      Conversation.stopped e (Rounds.more answers added calls full r) (omega arith) same
  Conversation-more (Conversation.retained {rounds = rs} m e r h kept split same) =
      Conversation.retained m e (Rounds.more answers rs calls full r) (omega arith) kept
        (regroup rs (m ∷ []) split) same
  Conversation-more (Conversation.tool_failed {rounds = rs} m ts e r h first ne split same) =
      Conversation.tool_failed m ts e (Rounds.more answers rs calls full r) (omega arith) first ne
        (regroup rs (m ∷ ts) split) same

-- The session with messages added at its end.
abbrev extended : Session → List Message → Session
extended s added = record s { messages = s.messages ++ added }

extended-extended :
    (s : Session) (xs ys : List Message) → extended (extended s xs) ys ≡ extended s (xs ++ ys)
extended-extended s xs ys = λ i. record s { messages = append_assoc s.messages xs ys i }

extended-nil : (s : Session) → extended s [] ≡ s
extended-nil s = λ i. record s { messages = append-nil s.messages i }

extended-appended :
    (s : Session) (m : Message) (xs : List Message)
    → extended (appended s m) xs ≡ extended s (m ∷ xs)
extended-appended s m xs =
    ap (λ t. extended t xs) (appended_lem s m) ∙ extended-extended s (m ∷ []) xs

-- What a loop leaves: the session it was given, longer by a conversation.
abbrev IsRun : {W : Type 0} → ℕ → Session → Outcome W → Type 0
IsRun limit s outcome =
    (added : List Message) × (outcome.1 ≡ extended s added) × Conversation limit added outcome.0

module _ {W : Type 0} (services : Services W) (ctx : Context W) (selected : Profile)
    (text : String) where
  abbrev CallsDone : List ToolCall → Session → Option Error × Session × W → Type 0
  CallsDone calls s r =
      (answers : List Message) × (r.1 ≡ extended s answers)
      × (((r.0 ≡ none) × Answers calls answers)
          ⊎ ((e : Error) × (r.0 ≡ some e) × AnswersSome calls answers × (answers ≢ [])))

  CallsDone-more :
      (call : ToolCall) (calls : List ToolCall) (s : Session) (content : String)
      (r : Option Error × Session × W)
      → CallsDone calls (appended s (tool_message call content)) r
      → CallsDone (call ∷ calls) s r
  CallsDone-more call calls s content r (answers, grown, inl (fine, full)) = (
    tool_message call content ∷ answers,
    grown ∙ extended-appended s (tool_message call content) answers,
    inl (fine, ((content, refl), full)),
  )
  CallsDone-more call calls s content r (answers, grown, inr (e, failed, first, ne)) = (
    tool_message call content ∷ answers,
    grown ∙ extended-appended s (tool_message call content) answers,
    inr (e, failed, ((content, refl), first), cc),
  )

  run_calls-CallsDone :
      (calls : List ToolCall) (s : Session) (w : W)
      → CallsDone calls s (run_calls services ctx selected text calls s w)
  unfolding run_calls
  run_calls-CallsDone [] s w = ([], sym (extended-nil s), inl (refl, tt))
  run_calls-CallsDone (call ∷ calls) s w =
      let result = services.execute ctx s.id selected.tools call w in
      let m = tool_message call result.0.0 in
      let ih = run_calls-CallsDone calls (appended s m) result.1 in
      elim (Option-cases result.0.1) [
        | inr (e, failed) ↦
            rw (failed, run_calls)
              (m ∷ [], appended_lem s m, inr (e, refl, ((result.0.0, refl), tt), cc))
        | inl fine ↦
            rw (fine, run_calls)
              (CallsDone-more call calls s result.0.0
                (run_calls services ctx selected text calls (appended s m) result.1) ih)
      ]

  -- One iteration, where the rest of the loop is known to behave.
  module _ (n : ℕ) (again : Session → W → Outcome W)
      (ih : (s : Session) (w : W) → IsRun n s (again s w)) where
    observed-IsRun :
        (m : Message) (s : Session) (r : Option Error × Session × W)
        → m.tool_calls ≢ []
        → CallsDone m.tool_calls (appended s m) r
        → IsRun (suc n) s (observed services ctx selected text again r.0 r.1 r.2)
    unfolding observed
    observed-IsRun m s r calls (answers, grown, inl (fine, full)) =
        let (added, longer, conversation) = ih r.1 r.2 in
        rw (fine, observed)
          (
            m ∷ (answers ++ added),
            longer
                ∙ ap (λ t. extended t added) (grown ∙ extended-appended s m answers)
                ∙ extended-extended s (m ∷ answers) added,
            Conversation-more answers calls full conversation,
          )
    observed-IsRun m s r calls (answers, grown, inr (e, failed, first, ne)) =
        rw (failed, observed)
          (
            m ∷ answers,
            grown ∙ extended-appended s m answers,
            Conversation.tool_failed m answers e Rounds.done (omega arith) first ne refl refl,
          )

    replied-IsRun :
        (m : Message) (calls : List ToolCall) (s : Session) (w : W)
        → m.tool_calls ≡ calls
        → IsRun (suc n) s (replied services ctx selected text again m calls (appended s m) w)
    unfolding replied
    replied-IsRun m [] s w none_left = (
      m ∷ [],
      appended_lem s m,
      Conversation.finished m Rounds.done (omega arith) none_left refl refl,
    )
    replied-IsRun m (call ∷ calls) s w same =
        let r = run_calls services ctx selected text (call ∷ calls) (appended s m) w in
        let finished : CallsDone m.tool_calls (appended s m) r =
          subst (λ cs. CallsDone cs (appended s m) r) (sym same)
            (run_calls-CallsDone (call ∷ calls) (appended s m) w) in
        observed-IsRun m s r (λ empty. cc (same, empty)) finished

    answered-IsRun :
        (response : Response) (failed : Option Error) (s : Session) (w : W)
        → IsRun (suc n) s (answered services ctx selected text again response failed s w)
    unfolding answered
    answered-IsRun response none s w =
        replied-IsRun response.message response.message.tool_calls s w refl
    answered-IsRun response (some e) s w = elim (Bool-cases (model_response_available e)) [
      | inl kept ↦
          rw (kept, answered)
            (
              response.message ∷ [],
              appended_lem s response.message,
              Conversation.retained response.message e Rounds.done (omega arith) kept refl refl,
            )
      | inr lost ↦
          rw (lost, answered)
            ([], sym (extended-nil s), Conversation.stopped e Rounds.done (omega arith) refl)
    ]

    prompted-IsRun :
        (built : Result (List Message)) (s : Session) (w : W)
        → IsRun (suc n) s (prompted services ctx selected text again built s w)
    unfolding prompted
    prompted-IsRun (err e) s w = (
      [],
      sym (extended-nil s),
      Conversation.stopped (wrap "build prompt" e) Rounds.done (omega arith) refl,
    )
    prompted-IsRun (ok messages) s w =
        let reply = services.chat ctx s.id selected messages w in
        answered-IsRun reply.0.0 reply.0.1 s reply.1

    round-IsRun :
        (s : Session) (w : W) → IsRun (suc n) s (round services ctx selected text again s w)
    unfolding round
    round-IsRun s w = elim (Option-cases (ctx.cancelled w)) [
      | inr (e, cancelled) ↦
          rw (cancelled, round)
            ([], sym (extended-nil s), Conversation.stopped e Rounds.done (omega arith) refl)
      | inl live ↦
          let built = services.build ctx s selected text w in
          rw (live, round) (prompted-IsRun built.0 s built.1)
    ]

  iterate-IsRun :
      (n : ℕ) (s : Session) (w : W) → IsRun n s (iterate services ctx selected text n s w)
  unfolding iterate
  iterate-IsRun zero s w = ([], sym (extended-nil s), Conversation.exhausted Rounds.done refl)
  iterate-IsRun (suc n) s w =
      round-IsRun n (iterate services ctx selected text n) (iterate-IsRun n) s w

  -- A run of the loop leaves the session it was given, with the user message and then a
  -- conversation added at its end: at most max_iterations rounds, in each of them every tool call
  -- answered once and in order; on success a final message without tool calls, whose content is the
  -- answer; when the rounds are used up, ErrMaxIterations; otherwise the error that ended it.
  pub run_session-IsRun :
      (s : Session) (w : W)
      → (added : List Message) × ((run_session services ctx selected text s w).1
          ≡ record s { messages = s.messages ++ text_message role_user text ∷ added })
        × Conversation
            (pos_part selected.settings.max_iterations)
            added
            (run_session services ctx selected text s w).0
  unfolding run_session
  run_session-IsRun s w =
      let user = text_message role_user text in
      let (added, longer, conversation) =
        iterate-IsRun (pos_part selected.settings.max_iterations) (appended s user) w in
      (added, longer ∙ extended-appended s user added, conversation)
