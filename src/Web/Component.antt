-- ===== src/Web/Component.antt =====
-- internal/web/component.go: `Start`, `Close` and the goroutine that serves, as the steps between which
-- other goroutines may run: a step is what one of them does while it holds the mutex, or a wait that
-- has ended. The listener factory and the HTTP server are outside of it.
pub mod Phases
use oryxos_go.Common.{
  ℕ, zero, suc, String, Option, none, some, List, [], ◌∷◌, Bool, true, false, ◌||◌, is_some,
  if◌then◌else◌,
}
use oryxos_go.Go.Error.{Error, Sentinel, leaf, is, join_errors}

-- The booleans of `startState`.
pub record StartState : Type 0 where
  pub started : Bool
  pub starting : Bool
  pub closed : Bool

-- `closeOnce` and `closeErr`: Close was not called; its first call waits for the end of the goroutine; it
-- has returned that error.
pub data Closing : Type 0 where
  not_called waiting : Closing
  returned : Option Error → Closing

-- A server and the goroutines in it: `binding` calls of Start hold no lock and call the listener
-- factory, `serving` goroutines serve. `done` tells whether that channel is closed; `errors` is the
-- buffer of that channel, of one place.
pub record ServerSystem : Type 0 where
  pub state : StartState
  pub binding : ℕ
  pub serving : ℕ
  pub done : Bool
  pub errors : List Error
  pub closing : Closing

-- `NewServer`
abbrev pub new_server : ServerSystem
new_server = record {
  state = record { started = false; starting = false; closed = false };
  binding = 0;
  serving = 0;
  done = false;
  errors = [];
  closing = Closing.not_called;
}

-- `Start` up to the first unlock; `canceled` is the error of the context.
unfoldable pub begin_start : Option Error → StartState → Option Error × StartState
begin_start (some e) state = (some e, state)
begin_start none state =
    if state.closed
    then (some (leaf "web server is closed"), state)
    else if state.started || state.starting
    then (some (leaf "web server already started"), state)
    else (none, record state { starting = true })

-- `Start` where the listener factory fails.
abbrev pub abandon_start : StartState → StartState
abandon_start state = record state { starting = false }

-- `Start` with a listener; where it is refused, the listener is closed and `finish` is called.
unfoldable pub finish_start : StartState → Option Error × StartState
finish_start state =
    if state.closed
    then (some (leaf "web server is closed"), record state { starting = false })
    else (none, record state { starting = false; started = true })

-- What the goroutine sends when Serve returns.
unfoldable pub serve_report : Option Error → Option Error
unfolding is
serve_report none = none
serve_report (some e) = if is e Sentinel.server_closed then none else some e

-- `close` up to the unlock: whether the server was started.
abbrev pub begin_close : StartState → Bool × StartState
begin_close state = (state.started, record state { closed = true })

-- The result of `close`, from the errors of Shutdown and of Close, which is called if the first fails.
unfoldable pub close_error : Option Error → Option Error → Option Error
unfolding is
close_error none close_failed = none
close_error (some shutdown_failed) none = some shutdown_failed
close_error (some shutdown_failed) (some close_failed) =
    if is close_failed Sentinel.server_closed
    then some shutdown_failed
    else join_errors (some shutdown_failed) (some close_failed)

pub data Event : Type 0 where
  start : Option Error → Event
  bind_fails : Event
  bind_succeeds : Event
  serve_returns : Option Error → Event
  error_received : Event
  close : Event
  close_returns : Option Error → Option Error → Event

-- The step of `Start` up to its first unlock.
pub on_start : Option Error → ServerSystem → ServerSystem
unfolding begin_start
on_start canceled s =
    let (refused, state) = begin_start canceled s.state in
    record s { state = state; binding = if is_some refused then s.binding else suc s.binding }

pub on_bind_failed : ServerSystem → Option ServerSystem
on_bind_failed s = elim s.binding [
  | zero ↦ none
  | suc others ↦ some (record s { state = abandon_start s.state; binding = others })
]

pub on_bound : ServerSystem → Option ServerSystem
unfolding finish_start
on_bound s = elim s.binding [
  | zero ↦ none
  | suc others ↦
      let (refused, state) = finish_start s.state in
      some (
        if is_some refused
        then record s { state = state; binding = others; done = true }
        else record s { state = state; binding = others; serving = suc s.serving })
]

-- The send into the buffer waits for a place in it; then `finish` closes the channel.
pub on_served : Option Error → ServerSystem → Option ServerSystem
unfolding serve_report
on_served result s = elim s.serving [
  | zero ↦ none
  | suc others ↦ elim (serve_report result) [
    | none ↦ some (record s { serving = others; done = true })
    | some e ↦ elim s.errors [
      | [] ↦ some (record s { serving = others; done = true; errors = e ∷ [] })
      | first ∷ rest ↦ none
    ]
  ]
]

pub on_received : ServerSystem → Option ServerSystem
on_received s = elim s.errors [ [] ↦ none | first ∷ rest ↦ some (record s { errors = rest }) ]

-- A call of Close: the first one marks the server as closed; one after it returns the stored error, once
-- the first has returned.
pub on_close : ServerSystem → Option ServerSystem
on_close s = elim s.closing [
  | Closing.not_called ↦
      let (started, state) = begin_close s.state in
      some (record s {
        state = state;
        closing = if started then Closing.waiting else Closing.returned none;
      })
  | Closing.waiting ↦ none
  | Closing.returned result ↦ some s
]

-- The first call of Close returns, with the errors of Shutdown and of Close of the HTTP server.
pub on_done : Option Error → Option Error → ServerSystem → Option ServerSystem
unfolding close_error
on_done shutdown_failed close_failed s = elim s.closing [
  | Closing.not_called ↦ none
  | Closing.waiting ↦
      if s.done
      then some (record s { closing = Closing.returned (close_error shutdown_failed close_failed) })
      else none
  | Closing.returned result ↦ none
]

-- One step; none where that step cannot be taken.
unfoldable pub step : Event → ServerSystem → Option ServerSystem
unfolding on_start on_bind_failed on_bound on_served on_received on_close on_done
step (start canceled) s = some (on_start canceled s)
step bind_fails s = on_bind_failed s
step bind_succeeds s = on_bound s
step (serve_returns result) s = on_served result s
step error_received s = on_received s
step close s = on_close s
step (close_returns shutdown_failed close_failed) s = on_done shutdown_failed close_failed s

-- The steps of a history.
unfoldable pub steps : List Event → ServerSystem → Option ServerSystem
unfolding step
steps [] s = some s
steps (event ∷ events) s = elim (step event s) [ none ↦ none | some s' ↦ steps events s' ]
