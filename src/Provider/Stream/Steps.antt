-- ===== src/Provider/Stream/Steps.antt =====
-- internal/provider/stream.go: what a call of `Recv` or `Close` does to the audit rows and to the
-- closes of the upstream.
use oryxos_go.Common.{
  ℕ, suc, ◌+◌, ◌≡◌, refl, ◌∙◌, Option, none, some, List, [], ◌∷◌, ◌++◌, Bool, true, false, inl, inr,
  arith, length, length-append, ◌===◌, if◌then◌else◌, if_elim, if_true, if_false, Option-cases,
}
use oryxos_go.Go.Error.{Error, Redaction, Sentinel, is, leaf}
use oryxos_go.Go.Effect.{Result, ok, err, Context}
use oryxos_go.Llm.{Response, StreamEvent, stream_event_delta, stream_event_completed}
use oryxos_go.Store.{LlmCall}
use oryxos_go.Provider.Registry.{ResponseStream}
use oryxos_go.Provider.Service.{Service, record_outcome}
use oryxos_go.Provider.Stream.{
  AuditedStream, Step, close_upstream, outcome, fail, failing, completed, partial, received, recv,
  close_first, close,
}

-- What the world sees: `rows` are the audit rows that the recorder was given, the latest at the end,
-- and `closes` counts the closes of the upstream.
pub record IsSeen {W : Type 0} (rows : W → List LlmCall) (closes : W → ℕ)
    (stream : ResponseStream W) (service : Service W) : Type 0 where
  pub recv_rows : (w : W) → rows (stream.recv w).1 ≡ rows w
  pub recv_closes : (w : W) → closes (stream.recv w).1 ≡ closes w
  pub close_rows : (w : W) → rows (stream.close w).1 ≡ rows w
  pub close_closes : (w : W) → closes (stream.close w).1 ≡ suc (closes w)
  pub now_rows : (w : W) → rows (service.now w).1 ≡ rows w
  pub now_closes : (w : W) → closes (service.now w).1 ≡ closes w
  pub recorder_rows :
      (ctx : Context W) (row : LlmCall) (w : W)
      → rows (service.recorder ctx row w).1 ≡ rows w ++ row ∷ []
  pub recorder_closes :
      (ctx : Context W) (row : LlmCall) (w : W) → closes (service.recorder ctx row w).1 ≡ closes w

abbrev pub bit : Bool → ℕ
bit false = 0
bit true = 1

module _ {W : Type 0} (rows : W → List LlmCall) (closes : W → ℕ) where
  -- `before` rows and `closed` closes were seen when the stream was made: since then there is one row
  -- where the stream is terminal and none before, and the upstream was closed with it.
  pub record IsAudited (before closed : ℕ) (s : AuditedStream W) (w : W) : Type 0 where
    pub seen : IsSeen rows closes s.stream s.service
    pub rows_eq : length (rows w) ≡ before + bit s.terminal
    pub closes_eq : closes w ≡ closed + bit s.terminal
    pub upstream_eq : s.upstream_closed ≡ s.terminal
    pub caller_eq : s.caller_closed ≡ true → s.terminal ≡ true

module _ {W : Type 0} (redaction : Redaction) (rows : W → List LlmCall) (closes : W → ℕ) where
  outcome_rows :
      (s : AuditedStream W) (response : Option Response) (failed : Option Error) (w : W)
      → IsSeen rows closes s.stream s.service
      → length (rows (outcome redaction s response failed w).1) ≡ suc (length (rows w))
  unfolding outcome record_outcome
  outcome_rows s response failed w seen =
      rw (seen.recorder_rows, length-append, seen.now_rows) (omega arith)

  closes-outcome :
      (s : AuditedStream W) (response : Option Response) (failed : Option Error) (w : W)
      → IsSeen rows closes s.stream s.service
      → closes (outcome redaction s response failed w).1 ≡ closes w
  unfolding outcome record_outcome
  closes-outcome s response failed w seen = rw (seen.recorder_closes, seen.now_closes) refl

  close_upstream_closed :
      (s : AuditedStream W) (w : W)
      → s.upstream_closed ≡ true
      → close_upstream redaction s w ≡ (s.upstream_close_err, s, w)
  unfolding close_upstream
  close_upstream_closed s w h =
      if_true h (s.upstream_close_err, s, w) ((s.stream.close w).0, _, (s.stream.close w).1)

  close_upstream_open :
      (s : AuditedStream W) (w : W)
      → s.upstream_closed ≡ false
      → close_upstream redaction s w ≡ (
        (s.stream.close w).0,
        record s { upstream_closed = true; upstream_close_err = (s.stream.close w).0 },
        (s.stream.close w).1,
      )
  unfolding close_upstream
  close_upstream_open s w h = if_false h _ _

  module _ (before closed : ℕ) where
    -- A step ends at a terminal stream: its upstream is closed, and a row is recorded.
    ended :
        (s : AuditedStream W) (w : W) (response : Option Response) (failed : Option Error)
        (caller_closed : Bool) (close_result : Option Error)
        → IsAudited rows closes before closed s w
        → s.terminal ≡ false
        → IsAudited rows closes before closed
            (record s {
              terminal = true;
              caller_closed = caller_closed;
              upstream_closed = true;
              upstream_close_err = (s.stream.close w).0;
              close_result = close_result;
            })
            (outcome redaction s response failed (s.stream.close w).1).1
    unfolding outcome record_outcome
    ended s w response failed caller_closed close_result audited live =
        let before_rows : length (rows w) ≡ before + 0 = rw live at audited.rows_eq in
        let before_closes : closes w ≡ closed + 0 = rw live at audited.closes_eq in
        record {
          seen = audited.seen;
          rows_eq =
              rw
                (
                  outcome_rows s response failed (s.stream.close w).1 audited.seen,
                  audited.seen.close_rows,
                )
                (omega arith);
          closes_eq =
              rw
                (
                  closes-outcome s response failed (s.stream.close w).1 audited.seen,
                  audited.seen.close_closes,
                )
                (omega arith);
          upstream_eq = refl;
          caller_eq = λ h. refl;
        }

    step_if :
        {A : Type 0} (b : Bool) (x y : Step W A)
        → (b ≡ true → IsAudited rows closes before closed x.1 x.2)
        → (b ≡ false → IsAudited rows closes before closed y.1 y.2)
        → IsAudited rows closes before closed (if b then x else y).1 (if b then x else y).2
    step_if b x y f g =
        if_elim (λ step. IsAudited rows closes before closed step.1 step.2) b x y f g

    still_open :
        (s : AuditedStream W) (w : W)
        → IsAudited rows closes before closed s w
        → s.terminal ≡ false
        → s.upstream_closed ≡ false
    still_open s w audited live = audited.upstream_eq ∙ live

    failing_audited :
        (s : AuditedStream W) (cause : Error) (w : W)
        → IsAudited rows closes before closed s w
        → s.terminal ≡ false
        → IsAudited rows closes before closed
            (failing redaction s cause w).1
            (failing redaction s cause w).2
    unfolding failing fail close_upstream
    failing_audited s cause w audited live =
        rw (still_open s w audited live)
          (ended s w none (some cause) s.caller_closed s.close_result audited live)

    completed_audited :
        (s : AuditedStream W) (event : StreamEvent) (response : Option Response) (w : W)
        → IsAudited rows closes before closed s w
        → s.terminal ≡ false
        → IsAudited rows closes before closed
            (completed redaction s event response w).1
            (completed redaction s event response w).2
    unfolding completed close_upstream
    completed_audited s event none w audited live = failing_audited s (leaf _) w audited live
    completed_audited s event (some response) w audited live =
        elim (Option-cases (outcome redaction s (some response) none (s.stream.close w).1).0) [
          | inl saved ↦
              rw (still_open s w audited live, saved)
                (ended s w (some response) none s.caller_closed s.close_result audited live)
          | inr (e, unsaved) ↦
              rw (still_open s w audited live, unsaved)
                (ended s w (some response) none s.caller_closed s.close_result audited live)
        ]

    partial_audited :
        (s : AuditedStream W) (event : StreamEvent) (response : Option Response) (w : W)
        → IsAudited rows closes before closed s w
        → s.terminal ≡ false
        → IsAudited rows closes before closed
            (partial redaction s event response w).1
            (partial redaction s event response w).2
    unfolding partial
    partial_audited s event none w audited live = audited
    partial_audited s event (some response) w audited live =
        failing_audited s (leaf _) w audited live

    received_audited :
        (s : AuditedStream W) (event : Result StreamEvent) (w : W)
        → IsAudited rows closes before closed s w
        → s.terminal ≡ false
        → IsAudited rows closes before closed
            (received redaction s event w).1
            (received redaction s event w).2
    unfolding received
    received_audited s (err e) w audited live =
        step_if (is e Sentinel.eof) _ _ (λ eof. failing_audited s (leaf _) w audited live)
          (λ other. failing_audited s e w audited live)
    received_audited s (ok event) w audited live =
        step_if (event.kind === stream_event_delta) _ _
          (λ delta. partial_audited s event event.response w audited live)
          (λ other.
            step_if (event.kind === stream_event_completed) _ _
              (λ complete. completed_audited s event event.response w audited live)
              (λ unknown. failing_audited s (leaf _) w audited live))

    after_recv :
        (s : AuditedStream W) (w : W)
        → IsAudited rows closes before closed s w
        → IsAudited rows closes before closed s (s.stream.recv w).1
    after_recv s w audited = record {
      seen = audited.seen;
      rows_eq = rw (audited.seen.recv_rows) audited.rows_eq;
      closes_eq = rw (audited.seen.recv_closes) audited.closes_eq;
      upstream_eq = audited.upstream_eq;
      caller_eq = audited.caller_eq;
    }

    pub recv_audited :
        (s : AuditedStream W) (w : W)
        → IsAudited rows closes before closed s w
        → IsAudited rows closes before closed (recv redaction s w).1 (recv redaction s w).2
    unfolding recv
    recv_audited s w audited =
        step_if s.caller_closed _ _ (λ gone. audited)
          (λ present.
            step_if s.terminal _ _ (λ over. audited)
              (λ live.
                received_audited s (s.stream.recv w).0 (s.stream.recv w).1 (after_recv s w audited)
                  live))

    settled :
        (s : AuditedStream W) (w : W)
        → IsAudited rows closes before closed s w
        → s.terminal ≡ true
        → IsAudited rows closes before closed
            (record s { caller_closed = true; close_result = s.upstream_close_err })
            w
    settled s w audited over = record {
      seen = audited.seen;
      rows_eq = audited.rows_eq;
      closes_eq = audited.closes_eq;
      upstream_eq = audited.upstream_eq;
      caller_eq = λ h. over;
    }

    close_first_audited :
        (s : AuditedStream W) (w : W)
        → IsAudited rows closes before closed s w
        → IsAudited rows closes before closed
            (close_first redaction s w).1
            (close_first redaction s w).2
    unfolding close_first
    close_first_audited s w audited =
        step_if s.terminal _ _
          (λ over.
            rw
              (close_upstream_closed (record s { caller_closed = true }) w
                (audited.upstream_eq ∙ over))
              (settled s w audited over))
          (λ live.
            rw
              (close_upstream_open (record s { caller_closed = true }) w
                (still_open s w audited live))
              (ended s w none (some (leaf "provider stream closed before completion")) true _
                audited live))

    pub close_audited :
        (s : AuditedStream W) (w : W)
        → IsAudited rows closes before closed s w
        → IsAudited rows closes before closed (close redaction s w).1 (close redaction s w).2
    unfolding close
    close_audited s w audited =
        step_if s.caller_closed _ _ (λ gone. audited) (λ present. close_first_audited s w audited)
