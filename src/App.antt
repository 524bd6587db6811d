-- ===== src/App.antt =====
-- internal/app/application.go: an application starts its components in order, waits, and closes those
-- that it started in reverse. A component is a record of functions of the world; `type_name` is what
-- the verb %T prints. The signal context and the timeout context are functions of the world too.
pub mod Protocol
pub mod Ends
use oryxos_go.Common.{
  ℕ, zero, suc, String, Option, none, some, List, [], ◌∷◌, ◌++◌, Bool, true, false, ◌&&◌, is_some,
  if◌then◌else◌, length, ◌==◌,
}
use oryxos_go.Common.Int.{ℤ, is_positive}
use oryxos_go.Go.Text.{◌⊕◌, itoa}
use oryxos_go.Go.Error.{Error, Sentinel, leaf, wrap, is, join_errors}
use oryxos_go.Go.Effect.{Result, ok, err, Context}

-- `start` takes the root context and `close` the shutdown context. A component that is a
-- `TerminalSource` with a channel has `reports`.
pub record Component (W : Type 0) : Type 0 where
  pub type_name : String
  pub start : Context W → W → Option Error × W
  pub close : Context W → W → Option Error × W
  pub reports : Bool

-- What `reflect.Select` chooses: the end of the root context, or the channel of the component with
-- that index, that gives a value or is closed. A value that is nil or no error is none.
pub data Selected : Type 0 where
  done : Selected
  reported : ℕ → Option Error → Selected
  closed : ℕ → Selected

-- `set_ready` is that of the observer, which may be nil; so may the logger.
pub record Application (W : Type 0) : Type 0 where
  pub components : List (Option (Component W))
  pub set_ready : Option (Bool → W → W)
  pub log_failure : Option (Error → W → W)
  pub signal_context : Context W → Context W
  pub stop : W → W
  pub shutdown_context : W → Context W
  pub select : List (ℕ × String) → W → Selected × W

-- What changes in an application: the components that were started, and the result of the shutdown
-- after it ran.
pub record Lifecycle (W : Type 0) : Type 0 where
  pub started : List (Component W)
  pub shut : Option (Option Error)

abbrev pub ready : {W : Type 0} → Option (Bool → W → W) → Bool → W → W
ready none value w = w
ready (some set_ready) value w = set_ready value w

-- The log record of a shutdown that fails.
abbrev pub log_shutdown : {W : Type 0} → Option (Error → W → W) → Option Error → W → W
log_shutdown log none w = w
log_shutdown none (some e) w = w
log_shutdown (some log) (some e) w = log e w

-- `NewApplication`: what is given by the operating system and by the caller, and the timeout.
pub new_application :
    {W : Type 0} (with_timeout : ℤ → W → Context W) (signal_context : Context W → Context W)
    (stop : W → W) (select : List (ℕ × String) → W → Selected × W)
    → ℤ
    → Option (Bool → W → W)
    → Option (Error → W → W)
    → List (Option (Component W))
    → Result (Application W)
new_application with_timeout signal_context stop select shutdown_timeout observer logger
      components =
    if is_positive shutdown_timeout
    then ok (record {
      components = components;
      set_ready = observer;
      log_failure = logger;
      signal_context = signal_context;
      stop = stop;
      shutdown_context = with_timeout shutdown_timeout;
      select = select;
    })
    else err (leaf "shutdown timeout must be greater than zero")

-- `fmt.Errorf("verb component index (%T): %w", err)`
abbrev pub component_error : String → ℕ → String → Error → Error
component_error verb index type_name e =
    wrap (verb ⊕ " component " ⊕ itoa index ⊕ " (" ⊕ type_name ⊕ ")") e

-- What happened before the shutdown: the error that triggers it, or nil.
pub data Waited : Type 0 where
  waiting : Waited
  triggered : Option Error → Waited

-- The channels that are read, without the one of that index.
unfoldable pub without : ℕ → List (ℕ × String) → List (ℕ × String)
without index [] = []
without index (source ∷ sources) =
    let rest = without index sources in if source.0 == index then rest else source ∷ rest

abbrev pub name_at : ℕ → List (ℕ × String) → String
name_at index [] = ""
name_at index (source ∷ sources) = if source.0 == index then source.1 else name_at index sources

-- The loop that collects the channels of the components, `index` being the next one.
unfoldable pub sources_from : {W : Type 0} → ℕ → List (Option (Component W)) → List (ℕ × String)
sources_from index [] = []
sources_from index (none ∷ components) = sources_from (suc index) components
sources_from index (some component ∷ components) =
    let rest = sources_from (suc index) components in
    if component.reports then (index, component.type_name) ∷ rest else rest

abbrev pub terminal_error : List (ℕ × String) → ℕ → Error → Error
terminal_error sources index e = wrap ("terminal component " ⊕ name_at index sources) e

-- The error of a start that failed, nil where the root context was cancelled.
unfoldable pub start_trigger : Bool → ℕ → String → Error → Option Error
unfolding is
start_trigger root_canceled index type_name e =
    if root_canceled && is e Sentinel.canceled
    then none
    else some (component_error "start" index type_name e)

module _ {W : Type 0} (application : Application W) where
  -- The loop over the started components, the last first; the list is given in that order. The errors
  -- are joined in the order of the calls.
  unfoldable pub close_all : Context W → List (Component W) → W → Option Error × W
  close_all ctx [] w = (none, w)
  close_all ctx (component ∷ earlier) w =
      let (failed, w') = component.close ctx w in
      let (others, w'') = close_all ctx earlier w' in
      (
        join_errors
            (elim failed [
              | none ↦ none
              | some e ↦ some (component_error "close" (length earlier) component.type_name e)
            ])
            others,
        w'',
      )

  -- `shutdown`, the first time; `last` is the error of the shutdown context.
  unfoldable pub shut_down : List (Component W) → Option Error → W → Option Error × W
  unfolding close_all
  shut_down started trigger w =
      let w1 = ready application.set_ready false w in
      let ctx = application.shutdown_context w1 in
      let (failed, w2) = close_all ctx started w1 in
      let result = join_errors trigger (join_errors failed (ctx.cancelled w2)) in
      (result, log_shutdown application.log_failure result w2)

  -- `shutdown`; the started components are listed the last first.
  unfoldable pub shutdown : Lifecycle W → Option Error → W → Option Error × Lifecycle W × W
  unfolding shut_down
  shutdown lifecycle trigger w = elim lifecycle.shut [
    | some result ↦ (result, lifecycle, w)
    | none ↦
        let (result, w') = shut_down lifecycle.started trigger w in
        (result, record lifecycle { shut = some result }, w')
  ]

  -- The loop of `waitForTermination`, of at most so many selections.
  unfoldable pub wait_for : ℕ → List (ℕ × String) → List (ℕ × String) → W → Waited × W
  unfolding without is
  wait_for zero sources open_sources w = (waiting, w)
  wait_for (suc more) sources open_sources w =
      let (chosen, w') = application.select open_sources w in
      elim chosen [
        | done ↦ (triggered none, w')
        | closed index ↦ wait_for more sources (without index open_sources) w'
        | reported index none ↦ wait_for more sources open_sources w'
        | reported index (some e) ↦ elim (is e Sentinel.server_closed) [
          | true ↦ wait_for more sources open_sources w'
          | false ↦ (triggered (some (terminal_error sources index e)), w')
        ]
      ]

  -- After all components were started.
  unfoldable pub serve : ℕ → Lifecycle W → W → Option (Option Error × Lifecycle W × W)
  unfolding wait_for shutdown sources_from
  serve selections lifecycle w =
      let sources = sources_from 0 application.components in
      let (waited, w') = wait_for selections sources sources (ready application.set_ready true w) in
      elim waited [
        | waiting ↦ none
        | triggered trigger ↦ some (shutdown lifecycle trigger (application.stop w'))
      ]

  -- The loop that starts the components from `index` on.
  unfoldable pub start_from :
      ℕ
      → Context W
      → ℕ
      → List (Option (Component W))
      → Lifecycle W
      → W
      → Option (Option Error × Lifecycle W × W)
  unfolding serve shutdown start_trigger
  start_from selections root index [] lifecycle w = serve selections lifecycle w
  start_from selections root index (none ∷ components) lifecycle w = some (
      shutdown lifecycle (some (leaf ("start component " ⊕ itoa index ⊕ ": nil component")))
        (application.stop w))
  start_from selections root index (some component ∷ components) lifecycle w =
      let (failed, w') = component.start root w in
      elim failed [
        | none ↦
            start_from selections root (suc index) components
              (record lifecycle { started = component ∷ lifecycle.started }) w'
        | some e ↦ some (
            shutdown lifecycle
              (start_trigger (is_some (root.cancelled w')) index component.type_name e)
              (application.stop w'))
      ]

  abbrev pub stopped :
      Option (Option Error × Lifecycle W × W) → Option (Option Error × Lifecycle W × W)
  stopped none = none
  stopped (some (result, lifecycle, w)) = some (result, lifecycle, application.stop w)

  -- `Run`, of at most so many selections; none where it still waits after them.
  unfoldable pub run_application :
      ℕ → Context W → Lifecycle W → W → Option (Option Error × Lifecycle W × W)
  unfolding start_from
  run_application selections parent lifecycle w = stopped (
      start_from selections (application.signal_context parent) 0 application.components lifecycle
        w)
