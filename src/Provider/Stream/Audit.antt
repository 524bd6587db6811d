-- ===== src/Provider/Stream/Audit.antt =====
-- internal/provider/stream.go: sequences of calls of `Recv` and `Close`.
use oryxos_go.Common.{
  if_elim, ℕ, suc, ◌+◌, ◌≡◌, refl, ◌∙◌, Option, List, [], ◌∷◌, Bool, true, false, arith, length,
  sym,
}
use oryxos_go.Go.Error.{Error, Redaction}
use oryxos_go.Store.{LlmCall}
use oryxos_go.Provider.Stream.{AuditedStream, Step, close_upstream, recv, close_first, close}
use oryxos_go.Provider.Stream.Steps.{IsSeen, IsAudited, bit, recv_audited, close_audited}

-- A call that the reader of a stream makes.
pub data Op : Type 0 where
  receives : Op
  closes_stream : Op

add_bit : (n : ℕ) {b : Bool} → b ≡ true → n + bit b ≡ suc n
add_bit n h = rw h (omega arith)

module _ {W : Type 0} (redaction : Redaction) where
  -- The object and the world after a call.
  abbrev pub after : Op → AuditedStream W → W → AuditedStream W × W
  after Op.receives s w = let (returned, s', w') = recv redaction s w in (s', w')
  after Op.closes_stream s w = let (returned, s', w') = close redaction s w in (s', w')

  -- After some calls, in any order.
  abbrev pub drive : List Op → AuditedStream W → W → AuditedStream W × W
  drive [] s w = (s, w)
  drive (op ∷ ops) s w = let (s', w') = after op s w in drive ops s' w'

module _ {W : Type 0} (redaction : Redaction) (rows : W → List LlmCall) (closes : W → ℕ) where
  drive_audited :
      (before closed : ℕ) (ops : List Op) (s : AuditedStream W) (w : W)
      → IsAudited rows closes before closed s w
      → IsAudited rows closes before closed (drive redaction ops s w).0 (drive redaction ops s w).1
  drive_audited before closed [] s w audited = audited
  drive_audited before closed (Op.receives ∷ ops) s w audited =
      drive_audited before closed ops _ _
        (recv_audited redaction rows closes before closed s w audited)
  drive_audited before closed (Op.closes_stream ∷ ops) s w audited =
      drive_audited before closed ops _ _
        (close_audited redaction rows closes before closed s w audited)

  close_upstream_caller :
      (s : AuditedStream W) (w : W)
      → (close_upstream redaction s w).1.caller_closed ≡ s.caller_closed
  unfolding close_upstream
  close_upstream_caller s w =
      if_elim (λ (step : Step W (Option Error)). step.1.caller_closed ≡ s.caller_closed)
        s.upstream_closed _ _ (λ h. refl) (λ h. refl)

  close_first_caller :
      (s : AuditedStream W) (w : W) → (close_first redaction s w).1.caller_closed ≡ true
  unfolding close_first
  close_first_caller s w =
      if_elim (λ (step : Step W (Option Error)). step.1.caller_closed ≡ true) s.terminal _ _
        (λ h. close_upstream_caller (record s { caller_closed = true }) w)
        (λ h. close_upstream_caller (record s { caller_closed = true }) w)

  close_caller : (s : AuditedStream W) (w : W) → (close redaction s w).1.caller_closed ≡ true
  unfolding close
  close_caller s w =
      if_elim (λ (step : Step W (Option Error)). step.1.caller_closed ≡ true) s.caller_closed _ _
        (λ h. h) (λ h. close_first_caller s w)

  -- However the reader calls `Recv` and `Close` on a stream that is made new, with no flag set: the
  -- recorder has been given one row where the stream is terminal and none where it is not, the
  -- upstream was closed once in the first case and never in the second; and a stream with the flag of
  -- its caller's close is terminal.
  pub drive-IsAudited :
      (ops : List Op) (s : AuditedStream W) (w : W)
      → IsSeen rows closes s.stream s.service
      → s.terminal ≡ false
      → s.upstream_closed ≡ false
      → s.caller_closed ≡ false
      → IsAudited rows closes
          (length (rows w))
          (closes w)
          (drive redaction ops s w).0
          (drive redaction ops s w).1
  drive-IsAudited ops s w seen live up caller =
      drive_audited (length (rows w)) (closes w) ops s w (record {
        seen = seen;
        rows_eq = rw live (omega arith);
        closes_eq = rw live (omega arith);
        upstream_eq = up ∙ sym live;
        caller_eq = λ h. cc (h, caller);
      })

  -- After any calls on a stream that was made new, and then a `Close`: the recorder has been given
  -- exactly one row and the upstream was closed exactly once.
  pub close-drive :
      (ops : List Op) (s : AuditedStream W) (w : W)
      → IsSeen rows closes s.stream s.service
      → s.terminal ≡ false
      → s.upstream_closed ≡ false
      → s.caller_closed ≡ false
      → let driven = drive redaction ops s w in
        let w' = (close redaction driven.0 driven.1).2 in
        (length (rows w') ≡ suc (length (rows w))) × (closes w' ≡ suc (closes w))
  close-drive ops s w seen live up caller =
      let driven = drive redaction ops s w in
      let audited =
        close_audited redaction rows closes (length (rows w)) (closes w) driven.0 driven.1
          (drive-IsAudited ops s w seen live up caller) in
      let over = audited.caller_eq (close_caller driven.0 driven.1) in
      (audited.rows_eq ∙ add_bit _ over, audited.closes_eq ∙ add_bit _ over)
