-- ===== src/Provider/Stream.antt =====
-- internal/provider/stream.go: a model call that is read event by event. The mutex makes `Recv` and
-- `Close` steps; each takes the object and gives it back.
pub mod Steps
pub mod Audit
use oryxos_go.Common.{ℕ, String, Option, none, some, List, Bool, true, false, ◌===◌, if◌then◌else◌}
use oryxos_go.Go.Text.{◌⊕◌, quote}
use oryxos_go.Go.Error.{Error, Sentinel, Redaction, leaf, sentinel, is, join_errors}
use oryxos_go.Go.Effect.{Result, ok, err, Context}
use oryxos_go.Llm.{Message, Response, StreamEvent, stream_event_delta, stream_event_completed}
use oryxos_go.Profile.{Profile}
use oryxos_go.Provider.Registry.{ResponseStream}
use oryxos_go.Provider.Service.{
  Service, CallMetadata, Prepared, call_metadata_from, prepare_call, record_outcome,
  safe_wrap_option,
}

-- `auditedResponseStream`
pub record AuditedStream (W : Type 0) : Type 0 where
  pub stream : ResponseStream W
  pub service : Service W
  pub ctx : Context W
  pub metadata : CallMetadata
  pub started_at : ℕ
  pub terminal : Bool
  pub caller_closed : Bool
  pub upstream_closed : Bool
  pub upstream_close_err : Option Error
  pub close_result : Option Error

-- What a method returns, the object and the world as it leaves them.
abbrev pub Step : Type 0 → Type 0 → Type 0
Step W A = A × AuditedStream W × W

-- `joinStreamErrors`
pub join_stream_errors : Redaction → Option Error → Option Error → Option Error
join_stream_errors redaction close_err outcome_err =
    join_errors (safe_wrap_option redaction "close provider stream" close_err) outcome_err

module _ {W : Type 0} (redaction : Redaction) where
  -- `closeUpstream`
  pub close_upstream : AuditedStream W → W → Step W (Option Error)
  close_upstream s w =
      if s.upstream_closed
      then (s.upstream_close_err, s, w)
      else let (failed, w') = s.stream.close w in
        (failed, record s { upstream_closed = true; upstream_close_err = failed }, w')

  -- `stream.service.recordOutcome` with the fields of the stream.
  pub outcome : AuditedStream W → Option Response → Option Error → W → Option Error × W
  unfolding record_outcome
  outcome s response failed w =
      record_outcome redaction s.service s.ctx s.metadata s.started_at response failed w

  -- `fail`
  pub fail : AuditedStream W → Error → W → Step W (Option Error)
  unfolding close_upstream outcome join_stream_errors
  fail s cause w =
      let (close_err, s', w') = close_upstream (record s { terminal = true }) w in
      let (outcome_err, w'') = outcome s' none (some cause) w' in
      (join_stream_errors redaction close_err outcome_err, s', w'')

  -- `return llm.StreamEvent{}, stream.fail(cause)`. `fail` returns an error; were it nil, the empty
  -- event would be returned.
  pub failing : AuditedStream W → Error → W → Step W (Option StreamEvent × Option Error)
  unfolding fail
  failing s cause w = let (failed, s', w') = fail s cause w in ((none, failed), s', w')

  -- The case of a completed event.
  pub completed :
      AuditedStream W
      → StreamEvent
      → Option Response
      → W
      → Step W (Option StreamEvent × Option Error)
  unfolding failing close_upstream outcome
  completed s event none w = failing s (leaf "provider stream completed without response") w
  completed s event (some response) w =
      let (ignored, s', w') = close_upstream (record s { terminal = true }) w in
      let (unsaved, w'') = outcome s' (some response) none w' in
      elim unsaved [ some e ↦ ((none, some e), s', w'') | none ↦ ((some event, none), s', w'') ]

  pub partial :
      AuditedStream W
      → StreamEvent
      → Option Response
      → W
      → Step W (Option StreamEvent × Option Error)
  unfolding failing
  partial s event none w = ((some event, none), s, w)
  partial s event (some response) w =
      failing s (leaf "provider stream delta contains completed response") w

  -- The rest of `Recv`, after the upstream call.
  pub received :
      AuditedStream W → Result StreamEvent → W → Step W (Option StreamEvent × Option Error)
  unfolding failing completed partial is
  received s (err e) w =
      if is e Sentinel.eof
      then failing s (leaf "provider stream ended before completed response") w
      else failing s e w
  received s (ok event) w =
      if event.kind === stream_event_delta
      then partial s event event.response w
      else if event.kind === stream_event_completed
      then completed s event event.response w
      else failing s (leaf ("provider stream returned unknown event kind " ⊕ quote event.kind)) w

  -- `Recv`; an event that is none is `llm.StreamEvent{}`.
  unfoldable pub recv : AuditedStream W → W → Step W (Option StreamEvent × Option Error)
  unfolding received
  recv s w =
      if s.caller_closed
      then ((none, some (sentinel Sentinel.closed_pipe)), s, w)
      else if s.terminal
      then ((none, some (sentinel Sentinel.eof)), s, w)
      else let (event, w') = s.stream.recv w in received s event w'

  -- `Close` of a stream that is not closed.
  pub close_first : AuditedStream W → W → Step W (Option Error)
  unfolding close_upstream outcome join_stream_errors
  close_first s w =
      let (close_err, s', w') = close_upstream (record s { caller_closed = true }) w in
      if s.terminal
      then (close_err, record s' { close_result = close_err }, w')
      else let (terminal_err, w'') =
          outcome s' none (some (leaf "provider stream closed before completion")) w' in
        let result = join_stream_errors redaction close_err terminal_err in
        (result, record s' { terminal = true; close_result = result }, w'')

  -- `Close`
  unfoldable pub close : AuditedStream W → W → Step W (Option Error)
  unfolding close_first
  close s w = if s.caller_closed then (s.close_result, s, w) else close_first s w

  -- `ChatStream` from the call of the model on: what `Stream` returned.
  abbrev started :
      Prepared W
      → String
      → ℕ
      → Result (Option (ResponseStream W))
      → W
      → (Option (AuditedStream W) × Option Error) × W
  unfolding record_outcome
  started call session_id at (ok (some stream)) w = (
    (
      some (record {
        stream = stream;
        service = call.service;
        ctx = call.ctx;
        metadata = call_metadata_from session_id call.selected;
        started_at = at;
        terminal = false;
        caller_closed = false;
        upstream_closed = false;
        upstream_close_err = none;
        close_result = none;
      }),
      none,
    ),
    w,
  )
  started call session_id at (ok none) w =
      let (failed, w') =
        record_outcome redaction call.service call.ctx (call_metadata_from session_id call.selected)
          at none (some (leaf "model returned nil response stream")) w in
      ((none, failed), w')
  started call session_id at (err e) w =
      let (failed, w') =
        record_outcome redaction call.service call.ctx (call_metadata_from session_id call.selected)
          at none (some e) w in
      ((none, failed), w')

  -- `ChatStream`; a stream that is none is nil.
  unfoldable pub chat_stream :
      Option (Service W)
      → Option (Context W)
      → String
      → Option Profile
      → List Message
      → W
      → (Option (AuditedStream W) × Option Error) × W
  unfolding prepare_call record_outcome
  chat_stream service ctx session_id selected messages w =
      let (prepared, w') =
        prepare_call redaction service ctx session_id selected "provider stream" w in
      elim prepared [
        | err e ↦ ((none, some e), w')
        | ok call ↦
            let (at, w1) = call.service.now w' in
            let (opened, w2) =
              call.chat_model.stream call.ctx
                (record { messages = messages; tools = call.definitions }) w1 in
            started call session_id at opened w2
      ]
