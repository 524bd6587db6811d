-- ===== src/Web/Component/Phases.antt =====
-- internal/web/component.go: the phases of a server, of which its steps are an implementation.
pub mod Refines
use oryxos_go.Common.{inl, inr, Option, none, some, List, [], ◌∷◌, Bool, true, false, Option-cases}
use oryxos_go.Go.Error.{Error}
use oryxos_go.Web.Component.{
  Closing, ServerSystem, begin_start, finish_start, serve_report, Event, start, bind_fails,
  bind_succeeds, serve_returns, error_received, close, close_returns, on_start, on_bind_failed,
  on_bound, on_served, on_received, on_close, on_done, step,
}

-- A server that is idle, binds its listener, serves, or has stopped; beside it the protocol keeps
-- whether it was closed.
pub data Phase : Type 0 where
  idle binding serving stopped : Phase

-- Why a call of Start is refused: the server was closed, or started before.
pub data IsTaken : Phase → Bool → Type 0 where
  by_close : (p : Phase) → IsTaken p true
  by_binding : IsTaken Phase.binding false
  by_serving : IsTaken Phase.serving false
  by_stopped : IsTaken Phase.stopped false

-- The abstract server: what an event does in a phase. Only a server that is idle and not closed begins
-- to bind, only one that binds and is not closed begins to serve, and one that serves can only stop.
pub data Next : Event → Phase → Bool → Phase → Bool → Type 0 where
  begins : Next (start none) Phase.idle false Phase.binding false
  canceled : (e : Error) (p : Phase) (c : Bool) → Next (start (some e)) p c p c
  refused : (p : Phase) (c : Bool) → IsTaken p c → Next (start none) p c p c
  gives_up : (c : Bool) → Next bind_fails Phase.binding c Phase.idle c
  serves : Next bind_succeeds Phase.binding false Phase.serving false
  drops : Next bind_succeeds Phase.binding true Phase.idle true
  stops :
      (result : Option Error) (c : Bool)
      → Next (serve_returns result) Phase.serving c Phase.stopped c
  reads : (c : Bool) → Next error_received Phase.stopped c Phase.stopped c
  closes : (p : Phase) → Next close p false p true
  closes_again : (p : Phase) → Next close p true p true
  close_ends :
      (shutdown_failed close_failed : Option Error)
      → Next (close_returns shutdown_failed close_failed) Phase.stopped true Phase.stopped true

-- The states of the system in each phase. At most one call of Start is between its two locks, at most
-- one goroutine serves, and Close waits only for a goroutine that serves or has ended.
pub data IsPhase : Phase → Bool → ServerSystem → Type 0 where
  at_idle : IsPhase Phase.idle false (record {
    state = record { started = false; starting = false; closed = false };
    binding = 0;
    serving = 0;
    done = false;
    errors = [];
    closing = Closing.not_called;
  })
  at_unused :
      (d : Bool)
      → IsPhase Phase.idle true (record {
        state = record { started = false; starting = false; closed = true };
        binding = 0;
        serving = 0;
        done = d;
        errors = [];
        closing = Closing.returned none;
      })
  at_binding : IsPhase Phase.binding false (record {
    state = record { started = false; starting = true; closed = false };
    binding = 1;
    serving = 0;
    done = false;
    errors = [];
    closing = Closing.not_called;
  })
  at_abandoned : IsPhase Phase.binding true (record {
    state = record { started = false; starting = true; closed = true };
    binding = 1;
    serving = 0;
    done = false;
    errors = [];
    closing = Closing.returned none;
  })
  at_serving : IsPhase Phase.serving false (record {
    state = record { started = true; starting = false; closed = false };
    binding = 0;
    serving = 1;
    done = false;
    errors = [];
    closing = Closing.not_called;
  })
  at_closing : IsPhase Phase.serving true (record {
    state = record { started = true; starting = false; closed = true };
    binding = 0;
    serving = 1;
    done = false;
    errors = [];
    closing = Closing.waiting;
  })
  at_failed :
      (es : List Error)
      → IsPhase Phase.stopped false (record {
        state = record { started = true; starting = false; closed = false };
        binding = 0;
        serving = 0;
        done = true;
        errors = es;
        closing = Closing.not_called;
      })
  at_ending :
      (es : List Error)
      → IsPhase Phase.stopped true (record {
        state = record { started = true; starting = false; closed = true };
        binding = 0;
        serving = 0;
        done = true;
        errors = es;
        closing = Closing.waiting;
      })
  at_closed :
      (es : List Error) (result : Option Error)
      → IsPhase Phase.stopped true (record {
        state = record { started = true; starting = false; closed = true };
        binding = 0;
        serving = 0;
        done = true;
        errors = es;
        closing = Closing.returned result;
      })

-- The abstract server under the events of a history.
pub data Run : List Event → Phase → Bool → Phase → Bool → Type 0 where
  ended : {p : Phase} {c : Bool} → Run [] p c p c
  next :
      {event : Event} {events : List Event} {p p' p'' : Phase} {c c' c'' : Bool}
      → Next event p c p' c'
      → Run events p' c' p'' c''
      → Run (event ∷ events) p c p'' c''
