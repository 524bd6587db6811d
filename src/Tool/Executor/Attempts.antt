-- ===== src/Tool/Executor/Attempts.antt =====
-- internal/tool/executor.go: the calls and waits of the retry loop of `execute`.
use mathlib.Core.Path.{subst}
use oryxos_go.Common.{
  sym, ◌≢◌, drop, Option-cases, ltb, ℕ, zero, suc, ◌+◌, ◌≤◌, ◌<◌, ◌≡◌, refl, ap, ◌∙◌, String,
  Option, none, some, List, [], ◌∷◌, ◌++◌, Bool, true, false, ◌&&◌, arith, Bool-cases, inl, inr,
  append_assoc,
}
use oryxos_go.Go.Error.{as_retryable, Error, Redaction}
use oryxos_go.Go.Effect.{Context}
use oryxos_go.Tool.Executor.{
  is_retryable, Executor, OryxTool, InvokableTool, AttemptLog, Returned, max_tool_retries,
  backoff_ms, log_attempt, retry_eligible, waited, failed, invoked, try_once, attempts,
}
use oryxos_go.Store.{ToolInvocation}

-- What the world sees of an executor, beside its log; a call of the tool with the error that it returned.
pub data Event : Type 0 where
  invokes : String → Option Error → Event
  waits : ℕ → Event
  records : ToolInvocation → Event

-- `trace` lists the events that a state of the world has seen, the latest at its end.
pub record IsTraced {W : Type 0} (executor : Executor W) (trace : W → List Event) : Type 0 where
  pub invoke :
      (name : String) (configured : OryxTool W) (tool : InvokableTool W)
      → executor.lookup name ≡ some configured
      → configured.tool ≡ some tool
      → (ctx : Context W) (arguments : String) (w : W)
      → trace (tool.invoke ctx arguments w).1
        ≡ trace w ++ Event.invokes arguments (tool.invoke ctx arguments w).0.1 ∷ []
  pub info :
      (name : String) (configured : OryxTool W) (tool : InvokableTool W)
      → executor.lookup name ≡ some configured
      → configured.tool ≡ some tool
      → (ctx : Context W) (w : W) → trace (tool.info ctx w).1 ≡ trace w
  pub wait :
      (ctx : Context W) (ms : ℕ) (w : W)
      → trace (executor.wait ctx ms w).1 ≡ trace w ++ Event.waits ms ∷ []
  pub create :
      (ctx : Context W) (row : ToolInvocation) (w : W)
      → trace (executor.create ctx row w).1 ≡ trace w ++ Event.records row ∷ []
  pub log : (entry : AttemptLog) (w : W) → trace (executor.log entry w) ≡ trace w
  pub now : (w : W) → trace (executor.now w).1 ≡ trace w

-- The waits before the three retries, in milliseconds.
abbrev pub retry_delays : List ℕ
retry_delays = 10 ∷ 20 ∷ 40 ∷ []

-- Why the loop ends after a call of the tool, with the waits that are left: it returned no error, there
-- is no retry left, the tool may not be retried, or the error does not say that it is retryable.
pub data Settled (may_retry : Bool) : List ℕ → Option Error → Type 0 where
  succeeded : (left : List ℕ) → Settled may_retry left none
  spent : (e : Error) → Settled may_retry [] (some e)
  barred : (left : List ℕ) (e : Error) → may_retry ≡ false → Settled may_retry left (some e)
  permanent :
      (left : List ℕ) (e : Error) → as_retryable e ≢ some true → Settled may_retry left (some e)

-- The events of the loop, by the waits that are left. `may_retry` says that the tool is retryable and
-- idempotent.
pub data Attempts (may_retry : Bool) (arguments : String) : List ℕ → List Event → Type 0 where
  last :
      (left : List ℕ) (failed : Option Error)
      → Settled may_retry left failed
      → Attempts may_retry arguments left (Event.invokes arguments failed ∷ [])
  interrupted :
      (ms : ℕ) (left : List ℕ) (e : Error)
      → may_retry ≡ true
      → as_retryable e ≡ some true
      → Attempts may_retry arguments
          (ms ∷ left)
          (Event.invokes arguments (some e) ∷ Event.waits ms ∷ [])
  again :
      (ms : ℕ) (left : List ℕ) (e : Error) (rest : List Event)
      → may_retry ≡ true
      → as_retryable e ≡ some true
      → Attempts may_retry arguments left rest
      → Attempts may_retry arguments
          (ms ∷ left)
          (Event.invokes arguments (some e) ∷ Event.waits ms ∷ rest)

delays-next :
    (attempt : ℕ)
    → attempt < max_tool_retries
    → drop attempt retry_delays ≡ backoff_ms attempt ∷ drop (suc attempt) retry_delays
delays-next zero h = refl
delays-next (suc zero) h = refl
delays-next (suc (suc zero)) h = refl
delays-next (suc (suc (suc attempt))) h = absurd (omega (arith, h))

delays-spent :
    (attempt : ℕ)
    → attempt ≤ max_tool_retries
    → ltb attempt max_tool_retries ≡ false
    → drop attempt retry_delays ≡ []
delays-spent zero h k = cc
delays-spent (suc zero) h k = cc
delays-spent (suc (suc zero)) h k = cc
delays-spent (suc (suc (suc zero))) h k = refl
delays-spent (suc (suc (suc (suc attempt)))) h k = absurd (omega (arith, h))

is_retryable-true : (e : Error) → is_retryable e ≡ true → as_retryable e ≡ some true
unfolding is_retryable
is_retryable-true e h = elim (Option-cases (as_retryable e)) [
  | inl none_there ↦ cc (rw (none_there, is_retryable) at h)
  | inr (b, there) ↦ there ∙ ap (λ (x : Bool). some x) (rw (there, is_retryable) at h)
]

is_retryable-false : (e : Error) → is_retryable e ≡ false → as_retryable e ≢ some true
unfolding is_retryable
is_retryable-false e h k = cc (rw (k, is_retryable) at h)

module _ {W : Type 0} (redaction : Redaction) (executor : Executor W) (ctx : Context W)
    (session_id : String) (trace : W → List Event) (traced : IsTraced executor trace) where
  trace-log_attempt :
      (name : String) (attempt : ℕ) (final success : Bool) (duration : ℕ) (e : Option Error) (w : W)
      → trace
          (log_attempt redaction executor ctx session_id name attempt final success duration e w)
        ≡ trace w
  unfolding log_attempt
  trace-log_attempt name attempt final success duration e w = traced.log _ w

  module _ (name : String) (configured : OryxTool W) (arguments : String) where
    abbrev may_retry : Bool
    may_retry = configured.retryable && configured.idempotent

    eligible :
        (attempt : ℕ) (e : Error)
        → retry_eligible redaction executor ctx session_id name configured arguments attempt e
          ≡ true
        → (may_retry ≡ true) × (attempt < max_tool_retries) × (as_retryable e ≡ some true)
    unfolding retry_eligible
    eligible attempt e h = (ground arith, ground arith, is_retryable-true e (ground (arith, h)))

    ineligible :
        (attempt : ℕ) (e : Error)
        → attempt ≤ max_tool_retries
        → retry_eligible redaction executor ctx session_id name configured arguments attempt e
          ≡ false
        → Settled may_retry (drop attempt retry_delays) (some e)
    unfolding retry_eligible
    ineligible attempt e bound h = elim (Bool-cases (ltb attempt max_tool_retries)) [
      | inr over ↦
          subst (λ (left : List ℕ). Settled may_retry left (some e))
            (sym (delays-spent attempt bound over)) (spent e)
      | inl more ↦ elim (Bool-cases may_retry) [
        | inr never ↦ barred _ e never
        | inl may ↦ permanent _ e (is_retryable-false e (ground (arith, h, more, may)))
      ]
    ]

    -- A result of the loop that began in `w` at this attempt.
    abbrev pub IsTried : ℕ → W → Option (Returned × W) → Type 0
    IsTried attempt w r =
        (returned : Returned) × (w' : W) × (r ≡ some (returned, w'))
        × (events : List Event) × (trace w' ≡ trace w ++ events)
        × Attempts may_retry arguments (drop attempt retry_delays) events

    module _ (tool : InvokableTool W) (found : executor.lookup name ≡ some configured)
        (implemented : configured.tool ≡ some tool) where
      -- After the tool was called in `w`, so that the world is `w'`.
      module _ (again : W → Option (Returned × W)) (attempt : ℕ) (w : W)
          (ih : attempt < max_tool_retries → (w' : W) → IsTried (suc attempt) w' (again w'))
          (duration : ℕ) (result : String) where
        module _ (bound : attempt ≤ max_tool_retries) where
          waited-IsTried :
              (e : Error) (stopped : Option Error) (w' : W)
              → may_retry ≡ true
              → attempt < max_tool_retries
              → as_retryable e ≡ some true
              → trace w'
                ≡ trace w
                  ++ Event.invokes arguments (some e) ∷ Event.waits (backoff_ms attempt) ∷ []
              → IsTried attempt w (
                  waited redaction executor ctx session_id name configured arguments again attempt
                    duration result e stopped w')
          unfolding waited
          waited-IsTried e (some stop) w' may less temporary seen = (
            _,
            _,
            refl,
            _,
            trace-log_attempt name (suc attempt) true false duration (some e) w' ∙ seen,
            subst
                (λ (left : List ℕ).
                  Attempts may_retry arguments left
                    (Event.invokes arguments (some e) ∷ Event.waits (backoff_ms attempt) ∷ []))
                (sym (delays-next attempt less))
                (Attempts.interrupted (backoff_ms attempt) _ e may temporary),
          )
          waited-IsTried e none w' may less temporary seen =
              let logged =
                log_attempt redaction executor ctx session_id name (suc attempt) false false
                  duration (some e) w' in
              let (returned, ended, same, events, later, shape) = ih less logged in
              (
                returned,
                ended,
                same,
                Event.invokes arguments (some e) ∷ Event.waits (backoff_ms attempt) ∷ events,
                later
                    ∙ ap (λ es. es ++ events)
                        (trace-log_attempt name (suc attempt) false false duration (some e) w'
                          ∙ seen)
                    ∙ append_assoc (trace w) _ events,
                subst
                    (λ (left : List ℕ). Attempts may_retry arguments left (
                      Event.invokes arguments (some e) ∷ Event.waits (backoff_ms attempt) ∷ events))
                    (sym (delays-next attempt less))
                    (Attempts.again (backoff_ms attempt) _ e events may temporary shape),
              )

          invoked-IsTried :
              (error : Option Error) (w' : W)
              → trace w' ≡ trace w ++ Event.invokes arguments error ∷ []
              → IsTried attempt w (
                  invoked redaction executor ctx session_id name configured arguments again attempt
                    duration result error w')
          unfolding invoked failed
          invoked-IsTried none w' seen = (
            _,
            _,
            refl,
            _,
            trace-log_attempt name (suc attempt) true true duration none w' ∙ seen,
            Attempts.last _ none (succeeded _),
          )
          invoked-IsTried (some e) w' seen =
              elim (Bool-cases (
                retry_eligible redaction executor ctx session_id name configured arguments attempt
                  e)) [
                    | inr never ↦
                        rw (never, invoked, failed)
                          (
                            _,
                            _,
                            refl,
                            _,
                            trace-log_attempt name (suc attempt) true false duration (some e) w'
                                ∙ seen,
                            Attempts.last _ (some e) (ineligible attempt e bound never),
                          )
                    | inl may ↦
                        let waiting = executor.wait ctx (backoff_ms attempt) w' in
                        let allowed = eligible attempt e may in
                        rw (may, invoked, failed)
                          (waited-IsTried e waiting.0 waiting.1 allowed.0 allowed.1 allowed.2 (
                            traced.wait ctx (backoff_ms attempt) w'
                            ∙ ap (λ es. es ++ Event.waits (backoff_ms attempt) ∷ []) seen
                            ∙ append_assoc (trace w) _ _))
                  ]

      attempts-IsTried :
          (fuel attempt : ℕ) (w : W)
          → attempt ≤ max_tool_retries
          → fuel + attempt ≡ suc max_tool_retries
          → IsTried attempt w (
              attempts redaction executor ctx session_id name configured arguments fuel tool attempt
                w)
      unfolding attempts try_once
      attempts-IsTried zero attempt w h enough = absurd (omega arith)
      attempts-IsTried (suc fuel) attempt w h enough =
          let w1 = (executor.now w).1 in
          let timed = executor.with_timeout ctx configured.timeout in
          let done = tool.invoke timed arguments w1 in
          invoked-IsTried
            (attempts redaction executor ctx session_id name configured arguments fuel tool
              (suc attempt))
            attempt w (λ less w'. attempts-IsTried fuel (suc attempt) w' less (omega arith)) _
            done.0.0 h done.0.1 (executor.now done.1).1
            (traced.now done.1
              ∙ traced.invoke name configured tool found implemented timed arguments w1
              ∙ ap (λ es. es ++ Event.invokes arguments done.0.1 ∷ []) (traced.now w))

      pub attempts_total :
          (w : W)
          → IsTried 0 w (
              attempts redaction executor ctx session_id name configured arguments
                (suc max_tool_retries)
                tool
                0
                w)
      attempts_total w = attempts-IsTried (suc max_tool_retries) 0 w (omega arith) (omega arith)
