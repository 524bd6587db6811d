-- ===== src/App/Protocol.antt =====
-- internal/app/application.go: what an application does to its components, as a protocol of events.
pub mod Refines
use oryxos_go.Common.{
  ℕ, String, Option, none, some, List, [], ◌∷◌, ◌++◌, Bool, true, false, map, ◌≡◌, All,
}
use oryxos_go.Go.Error.{Error}
use oryxos_go.Go.Effect.{Context}
use oryxos_go.App.{Component, Application, ready, log_shutdown}

-- What an observer of the components and of the readiness sees.
pub data Event : Type 0 where
  starts : String → Event
  refuses : String → Event
  closes : String → Event
  readies : Bool → Event

-- A component whose calls are seen: a start that fails is refused.
pub record IsTracedComponent {W : Type 0} (trace : W → List Event) (component : Component W)
    : Type 0 where
  pub starts_eq :
      (ctx : Context W) (w : W)
      → (component.start ctx w).0 ≡ none
      → trace ((component.start ctx w).1) ≡ trace w ++ starts component.type_name ∷ []
  pub refuses_eq :
      (ctx : Context W) (w : W) (e : Error)
      → (component.start ctx w).0 ≡ some e
      → trace ((component.start ctx w).1) ≡ trace w ++ refuses component.type_name ∷ []
  pub closes_eq :
      (ctx : Context W) (w : W)
      → trace ((component.close ctx w).1) ≡ trace w ++ closes component.type_name ∷ []

unfoldable pub IsTracedEntry : {W : Type 0} → (W → List Event) → Option (Component W) → Type 0
IsTracedEntry trace none = Unit
IsTracedEntry trace (some component) = IsTracedComponent trace component

-- The trace shows the calls of the components and of the observer, and nothing else.
pub record IsTraced {W : Type 0} (trace : W → List Event) (application : Application W)
    : Type 0 where
  pub components_traced : All (IsTracedEntry trace) application.components
  pub readies_eq :
      (value : Bool) (w : W)
      → trace (ready application.set_ready value w) ≡ trace w ++ readies value ∷ []
  pub logs_eq :
      (result : Option Error) (w : W)
      → trace (log_shutdown application.log_failure result w) ≡ trace w
  pub stops_eq : (w : W) → trace (application.stop w) ≡ trace w
  pub selects_eq :
      (sources : List (ℕ × String)) (w : W) → trace ((application.select sources w).1) ≡ trace w

-- The protocol of an application: the names of the components that are left to start, those that were
-- started, the last first, and the events that follow.
pub data Protocol : List (Option String) → List String → List Event → Type 0 where
  starting :
      (name : String) (names : List (Option String)) (started : List String) (events : List Event)
      → Protocol names (name ∷ started) events
      → Protocol (some name ∷ names) started (starts name ∷ events)
  refusing :
      (name : String) (names : List (Option String)) (started : List String)
      → Protocol (some name ∷ names) started (refuses name ∷ readies false ∷ map closes started)
  missing :
      (names : List (Option String)) (started : List String)
      → Protocol (none ∷ names) started (readies false ∷ map closes started)
  serving :
      (started : List String)
      → Protocol [] started (readies true ∷ readies false ∷ map closes started)

unfoldable pub names_of : {W : Type 0} → List (Option (Component W)) → List (Option String)
names_of [] = []
names_of (none ∷ components) = none ∷ names_of components
names_of (some component ∷ components) = some component.type_name ∷ names_of components
