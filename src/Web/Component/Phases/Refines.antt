-- ===== src/Web/Component/Phases/Refines.antt =====
-- internal/web/component.go: the steps of a server and the abstract server.
use mathlib.Core.Path.{subst}
use oryxos_go.Common.{
  ℕ, ◌≡◌, ◌⊎◌, inl, inr, refl, Option-cases, ◌+◌, ◌≤◌, arith, is_some, inl, inr, Option, none, some,
  List, [], ◌∷◌, Bool, true, false, Option-cases,
}
use oryxos_go.Go.Error.{Error}
use oryxos_go.Web.Component.{
  close_error, Closing, ServerSystem, begin_start, finish_start, serve_report, Event, start,
  bind_fails, bind_succeeds, serve_returns, error_received, close, close_returns, on_start,
  on_bind_failed, on_bound, on_served, on_received, on_close, on_done, step, steps, new_server,
}
use oryxos_go.Web.Component.Phases.{
  Phase, Next, by_close, by_binding, by_serving, by_stopped, begins, canceled, refused, gives_up,
  serves, drops, stops, reads, closes, closes_again, close_ends, IsPhase, at_idle, at_unused,
  at_binding, at_abandoned, at_serving, at_closing, at_failed, at_ending, at_closed, Run, ended,
  next,
}

-- A step that can be taken leads to the state of the phase that the abstract server has next.
IsRefined : Event → Phase → Bool → Option ServerSystem → Type 0
IsRefined event p c none = Unit
IsRefined event p c (some s) = (p' : Phase) × (c' : Bool) × IsPhase p' c' s × Next event p c p' c'

canceled_start-IsRefined :
    (e : Error) {p : Phase} {c : Bool} {s : ServerSystem}
    → IsPhase p c s
    → IsRefined (start (some e)) p c (some (on_start (some e) s))
unfolding on_start begin_start IsRefined
canceled_start-IsRefined e at_idle = (Phase.idle, false, at_idle, canceled e Phase.idle false)
canceled_start-IsRefined e (at_unused d) =
    (Phase.idle, true, (at_unused d), canceled e Phase.idle true)
canceled_start-IsRefined e at_binding =
    (Phase.binding, false, at_binding, canceled e Phase.binding false)
canceled_start-IsRefined e at_abandoned =
    (Phase.binding, true, at_abandoned, canceled e Phase.binding true)
canceled_start-IsRefined e at_serving =
    (Phase.serving, false, at_serving, canceled e Phase.serving false)
canceled_start-IsRefined e at_closing =
    (Phase.serving, true, at_closing, canceled e Phase.serving true)
canceled_start-IsRefined e (at_failed es) =
    (Phase.stopped, false, (at_failed es), canceled e Phase.stopped false)
canceled_start-IsRefined e (at_ending es) =
    (Phase.stopped, true, (at_ending es), canceled e Phase.stopped true)
canceled_start-IsRefined e (at_closed es r) =
    (Phase.stopped, true, (at_closed es r), canceled e Phase.stopped true)

start-IsRefined :
    {p : Phase} {c : Bool} {s : ServerSystem}
    → IsPhase p c s
    → IsRefined (start none) p c (some (on_start none s))
unfolding on_start begin_start IsRefined
start-IsRefined at_idle = (Phase.binding, false, at_binding, begins)
start-IsRefined (at_unused d) =
    (Phase.idle, true, (at_unused d), refused Phase.idle true (by_close Phase.idle))
start-IsRefined at_binding =
    (Phase.binding, false, at_binding, refused Phase.binding false by_binding)
start-IsRefined at_abandoned =
    (Phase.binding, true, at_abandoned, refused Phase.binding true (by_close Phase.binding))
start-IsRefined at_serving =
    (Phase.serving, false, at_serving, refused Phase.serving false by_serving)
start-IsRefined at_closing =
    (Phase.serving, true, at_closing, refused Phase.serving true (by_close Phase.serving))
start-IsRefined (at_failed es) =
    (Phase.stopped, false, (at_failed es), refused Phase.stopped false by_stopped)
start-IsRefined (at_ending es) =
    (Phase.stopped, true, (at_ending es), refused Phase.stopped true (by_close Phase.stopped))
start-IsRefined (at_closed es r) =
    (Phase.stopped, true, (at_closed es r), refused Phase.stopped true (by_close Phase.stopped))

bind_failed-IsRefined :
    {p : Phase} {c : Bool} {s : ServerSystem}
    → IsPhase p c s
    → IsRefined bind_fails p c (on_bind_failed s)
unfolding on_bind_failed IsRefined
bind_failed-IsRefined at_idle = tt
bind_failed-IsRefined (at_unused d) = tt
bind_failed-IsRefined at_binding = (Phase.idle, false, at_idle, gives_up false)
bind_failed-IsRefined at_abandoned = (Phase.idle, true, at_unused false, gives_up true)
bind_failed-IsRefined at_serving = tt
bind_failed-IsRefined at_closing = tt
bind_failed-IsRefined (at_failed es) = tt
bind_failed-IsRefined (at_ending es) = tt
bind_failed-IsRefined (at_closed es r) = tt

bound-IsRefined :
    {p : Phase} {c : Bool} {s : ServerSystem}
    → IsPhase p c s
    → IsRefined bind_succeeds p c (on_bound s)
unfolding on_bound finish_start IsRefined
bound-IsRefined at_idle = tt
bound-IsRefined (at_unused d) = tt
bound-IsRefined at_binding = (Phase.serving, false, at_serving, serves)
bound-IsRefined at_abandoned = (Phase.idle, true, at_unused true, drops)
bound-IsRefined at_serving = tt
bound-IsRefined at_closing = tt
bound-IsRefined (at_failed es) = tt
bound-IsRefined (at_ending es) = tt
bound-IsRefined (at_closed es r) = tt

served-IsRefined :
    (result : Option Error) {p : Phase} {c : Bool} {s : ServerSystem}
    → IsPhase p c s
    → IsRefined (serve_returns result) p c (on_served result s)
unfolding on_served IsRefined
served-IsRefined result at_idle = tt
served-IsRefined result (at_unused d) = tt
served-IsRefined result at_binding = tt
served-IsRefined result at_abandoned = tt
served-IsRefined result at_serving = elim (Option-cases (serve_report result)) [
  | inl eq ↦ rw (eq, on_served) (Phase.stopped, false, at_failed [], stops result false)
  | inr (e, eq) ↦ rw (eq, on_served) (Phase.stopped, false, at_failed (e ∷ []), stops result false)
]
served-IsRefined result at_closing = elim (Option-cases (serve_report result)) [
  | inl eq ↦ rw (eq, on_served) (Phase.stopped, true, at_ending [], stops result true)
  | inr (e, eq) ↦ rw (eq, on_served) (Phase.stopped, true, at_ending (e ∷ []), stops result true)
]
served-IsRefined result (at_failed es) = tt
served-IsRefined result (at_ending es) = tt
served-IsRefined result (at_closed es r) = tt

received-IsRefined :
    {p : Phase} {c : Bool} {s : ServerSystem}
    → IsPhase p c s
    → IsRefined error_received p c (on_received s)
unfolding on_received IsRefined
received-IsRefined at_idle = tt
received-IsRefined (at_unused d) = tt
received-IsRefined at_binding = tt
received-IsRefined at_abandoned = tt
received-IsRefined at_serving = tt
received-IsRefined at_closing = tt
received-IsRefined (at_failed []) = tt
received-IsRefined (at_failed (e ∷ es)) = (Phase.stopped, false, at_failed es, reads false)
received-IsRefined (at_ending []) = tt
received-IsRefined (at_ending (e ∷ es)) = (Phase.stopped, true, at_ending es, reads true)
received-IsRefined (at_closed [] r) = tt
received-IsRefined (at_closed (e ∷ es) r) = (Phase.stopped, true, at_closed es r, reads true)

close-IsRefined :
    {p : Phase} {c : Bool} {s : ServerSystem} → IsPhase p c s → IsRefined close p c (on_close s)
unfolding on_close IsRefined
close-IsRefined at_idle = (Phase.idle, true, at_unused false, closes Phase.idle)
close-IsRefined (at_unused d) = (Phase.idle, true, (at_unused d), closes_again Phase.idle)
close-IsRefined at_binding = (Phase.binding, true, at_abandoned, closes Phase.binding)
close-IsRefined at_abandoned = (Phase.binding, true, at_abandoned, closes_again Phase.binding)
close-IsRefined at_serving = (Phase.serving, true, at_closing, closes Phase.serving)
close-IsRefined at_closing = tt
close-IsRefined (at_failed es) = (Phase.stopped, true, (at_ending es), closes Phase.stopped)
close-IsRefined (at_ending es) = tt
close-IsRefined (at_closed es r) =
    (Phase.stopped, true, (at_closed es r), closes_again Phase.stopped)

done-IsRefined :
    (a b : Option Error) {p : Phase} {c : Bool} {s : ServerSystem}
    → IsPhase p c s
    → IsRefined (close_returns a b) p c (on_done a b s)
unfolding on_done IsRefined
done-IsRefined a b at_idle = tt
done-IsRefined a b (at_unused d) = tt
done-IsRefined a b at_binding = tt
done-IsRefined a b at_abandoned = tt
done-IsRefined a b at_serving = tt
done-IsRefined a b at_closing = tt
done-IsRefined a b (at_failed es) = tt
done-IsRefined a b (at_ending es) =
    (Phase.stopped, true, at_closed es (close_error a b), close_ends a b)
done-IsRefined a b (at_closed es r) = tt

step-IsRefined :
    (event : Event) {p : Phase} {c : Bool} {s : ServerSystem}
    → IsPhase p c s
    → IsRefined event p c (step event s)
unfolding step
step-IsRefined (start none) h = start-IsRefined h
step-IsRefined (start (some e)) h = canceled_start-IsRefined e h
step-IsRefined bind_fails h = bind_failed-IsRefined h
step-IsRefined bind_succeeds h = bound-IsRefined h
step-IsRefined (serve_returns result) h = served-IsRefined result h
step-IsRefined error_received h = received-IsRefined h
step-IsRefined close h = close-IsRefined h
step-IsRefined (close_returns a b) h = done-IsRefined a b h

-- What holds after a history that can happen.
IsRun : List Event → Phase → Bool → Option ServerSystem → Type 0
IsRun events p c none = Unit
IsRun events p c (some s) = (p' : Phase) × (c' : Bool) × IsPhase p' c' s × Run events p c p' c'

before :
    {event : Event} (events : List Event) {p p' : Phase} {c c' : Bool} (out : Option ServerSystem)
    → Next event p c p' c'
    → IsRun events p' c' out
    → IsRun (event ∷ events) p c out
unfolding IsRun
before events none n h = tt
before events (some s) n (p'', c'', at, run) = (p'', c'', at, next n run)

steps_after :
    (event : Event) (events : List Event) (p : Phase) (c : Bool) (out : Option ServerSystem)
    → ((p' : Phase) (c' : Bool) (s : ServerSystem)
        → IsPhase p' c' s
        → IsRun events p' c' (steps events s))
    → IsRefined event p c out
    → IsRun (event ∷ events) p c (elim out [ none ↦ none | some s ↦ steps events s ])
unfolding IsRun IsRefined
steps_after event events p c none go h = tt
steps_after event events p c (some s) go (p', c', at, n) = before events _ n (go p' c' _ at)

steps-IsRun :
    (events : List Event) {p : Phase} {c : Bool} {s : ServerSystem}
    → IsPhase p c s
    → IsRun events p c (steps events s)
unfolding steps IsRun
steps-IsRun [] h = (_, _, h, ended)
steps-IsRun (event ∷ events) {p = p} {c = c} {s = s} h =
    steps_after event events p c (step event s) (λ p' c' s' at. steps-IsRun events at)
      (step-IsRefined event h)

-- Every history of a new server that can happen, with any number of calls of Start and Close and at
-- any interleaving of their locks, is a run of the abstract server under the same events, and its state
-- at the end is one of the phase that the abstract server is then in. So a server begins to bind only
-- where it is idle and not closed, begins to serve only where it binds and is not closed, and a second
-- call of Close changes neither the phase nor that it is closed.
pub steps-Run :
    (events : List Event) (s : ServerSystem)
    → steps events new_server ≡ some s
    → (p : Phase) × (c : Bool) × IsPhase p c s × Run events Phase.idle false p c
unfolding IsRun
steps-Run events s h = subst (IsRun events Phase.idle false) h (steps-IsRun events at_idle)

-- A server that has started or was closed.
IsSpent : Phase → Bool → Type 0
IsSpent p true = Unit
IsSpent Phase.idle false = ⊥
IsSpent Phase.binding false = ⊥
IsSpent Phase.serving false = Unit
IsSpent Phase.stopped false = Unit

load : Phase → ℕ
load Phase.idle = 0
load Phase.binding = 0
load Phase.serving = 1
load Phase.stopped = 0

phase_alone : {p : Phase} {c : Bool} {s : ServerSystem} → IsPhase p c s → s.binding + s.serving ≤ 1
phase_alone at_idle = omega arith
phase_alone (at_unused d) = omega arith
phase_alone at_binding = omega arith
phase_alone at_abandoned = omega arith
phase_alone at_serving = omega arith
phase_alone at_closing = omega arith
phase_alone (at_failed es) = omega arith
phase_alone (at_ending es) = omega arith
phase_alone (at_closed es r) = omega arith

-- In every history of a new server at most one goroutine is between the two locks of Start or serves,
-- so that at most one listener is in use.
pub steps-alone :
    (events : List Event) (s : ServerSystem)
    → steps events new_server ≡ some s
    → s.binding + s.serving ≤ 1
steps-alone events s h = phase_alone (steps-Run events s h).2

-- The wait in Close has ended, or ends with the return of Serve, which never waits itself.
pub CanReturn : ServerSystem → Type 0
unfolding step
CanReturn s =
    ((a b : Option Error) → is_some (step (close_returns a b) s) ≡ true)
    ⊎ ((result a b : Option Error)
        → is_some (steps (serve_returns result ∷ close_returns a b ∷ []) s) ≡ true)

served_returns :
    (result a b : Option Error)
    → is_some (
        steps (serve_returns result ∷ close_returns a b ∷ []) (record {
          state = record { started = true; starting = false; closed = true };
          binding = 0;
          serving = 1;
          done = false;
          errors = [];
          closing = Closing.waiting;
        }))
      ≡ true
unfolding steps step on_served on_done
served_returns result a b = elim (Option-cases (serve_report result)) [
  | inl eq ↦ rw (eq, on_served, step, steps, is_some) refl
  | inr (e, eq) ↦ rw (eq, on_served, step, steps, is_some) refl
]

phase_returns :
    {p : Phase} {c : Bool} {s : ServerSystem}
    → IsPhase p c s
    → s.closing ≡ Closing.waiting
    → CanReturn s
unfolding CanReturn step on_done
phase_returns at_idle h = cc
phase_returns (at_unused d) h = cc
phase_returns at_binding h = cc
phase_returns at_abandoned h = cc
phase_returns at_serving h = cc
phase_returns at_closing h = inr served_returns
phase_returns (at_failed es) h = cc
phase_returns (at_ending es) h = inl (λ a b. refl)
phase_returns (at_closed es r) h = cc

-- In every history of a new server in which Close waits, its wait can end: either the goroutine has
-- ended, or Close returns once Serve has returned, whatever Serve returns, as there is a place for
-- its error.
pub steps-CanReturn :
    (events : List Event) (s : ServerSystem)
    → steps events new_server ≡ some s
    → s.closing ≡ Closing.waiting
    → CanReturn s
steps-CanReturn events s h = phase_returns (steps-Run events s h).2
