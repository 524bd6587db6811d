-- ===== src/Tests/Server.antt =====
-- A server that is started by two goroutines and then closed.
use oryxos_go.Common.{◌≡◌, ◌+◌, ◌≤◌, refl, none, some, List, [], ◌∷◌, Bool, true, false}
use oryxos_go.Go.Error.{Sentinel, sentinel, leaf}
use oryxos_go.Web.Component.{
  Closing, ServerSystem, new_server, Event, start, bind_succeeds, close, step, steps, close_error,
  serve_returns, close_returns,
}
use oryxos_go.Web.Component.Phases.{Phase, IsPhase, Run}
use oryxos_go.Web.Component.Phases.Refines.{steps-Run, steps-alone, steps-CanReturn, CanReturn}

abbrev history : List Event
history = start none ∷ start none ∷ bind_succeeds ∷ close ∷ []

abbrev closing_server : ServerSystem
closing_server = record {
  state = record { started = true; starting = false; closed = true };
  binding = 0;
  serving = 1;
  done = false;
  errors = [];
  closing = Closing.waiting;
}

happens : steps history new_server ≡ some closing_server
unfolding steps step
happens = refl

steps-Run_example :
    (p : Phase) × (c : Bool) × IsPhase p c closing_server × Run history Phase.idle false p c
steps-Run_example = steps-Run history closing_server happens

steps-alone_example : closing_server.binding + closing_server.serving ≤ 1
steps-alone_example = steps-alone history closing_server happens

steps-CanReturn_example : CanReturn closing_server
steps-CanReturn_example = steps-CanReturn history closing_server happens refl

-- A listener that is bound after Close is closed again.
closes_late_listener :
    steps (start none ∷ close ∷ bind_succeeds ∷ []) new_server
    ≡ some (record {
      state = record { started = false; starting = false; closed = true };
      binding = 0;
      serving = 0;
      done = true;
      errors = [];
      closing = Closing.returned none;
    })
unfolding steps step
closes_late_listener = refl

hides_closed :
    close_error
      (some (sentinel Sentinel.deadline_exceeded))
      (some (sentinel Sentinel.server_closed))
    ≡ some (sentinel Sentinel.deadline_exceeded)
unfolding close_error
hides_closed = refl

-- A second call of Close returns what the first one did.
closes_twice :
    steps
      (serve_returns none ∷ close_returns (some (leaf "slow")) none ∷ close ∷ close ∷ [])
      closing_server
    ≡ some (record {
      state = record { started = true; starting = false; closed = true };
      binding = 0;
      serving = 0;
      done = true;
      errors = [];
      closing = Closing.returned (some (leaf "slow"));
    })
unfolding steps step close_error
closes_twice = refl
