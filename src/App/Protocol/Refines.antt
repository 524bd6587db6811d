-- ===== src/App/Protocol/Refines.antt =====
-- internal/app/application.go: runs of an application and the protocol.
use oryxos_go.Common.{
  Option-cases, suc, zero, ◌⊎◌, inl, inr, refl, Bool-cases, ℕ, String, Option, none, some, List, [],
  ◌∷◌, ◌++◌, true, false, map, ◌≡◌, ◌∙◌, ap, sym, All, append_assoc, append-nil,
}
use mathlib.Core.Path.{subst}
use oryxos_go.Go.Text.{◌⊕◌, itoa}
use oryxos_go.Go.Error.{leaf, Error}
use oryxos_go.Go.Effect.{Context}
use oryxos_go.App.{
  stopped, run_application, Lifecycle, Waited, waiting, triggered, serve, start_from, sources_from,
  Component, Application, ready, close_all, shut_down, shutdown, wait_for, Selected, done, without,
  closed, is, reported, Sentinel, leaf, run_application, stopped,
}
use oryxos_go.App.Protocol.{
  Event, starts, refuses, closes, readies, IsTracedComponent, IsTracedEntry, IsTraced, Protocol,
  starting, refusing, missing, serving, names_of,
}

module _ {W : Type 0} (trace : W → List Event) (application : Application W)
    (traced : IsTraced trace application) where
  close_all-trace :
      (ctx : Context W) (started : List (Component W)) (w : W)
      → All (IsTracedComponent trace) started
      → trace ((close_all application ctx started w).1)
        ≡ trace w ++ map closes (map (λ (c : Component W). c.type_name) started)
  unfolding close_all
  close_all-trace ctx [] w h = sym (append-nil (trace w))
  close_all-trace ctx (component ∷ earlier) w (here, there) =
      close_all-trace ctx earlier _ there
      ∙ ap (λ (t : List Event). t ++ map closes (map (λ (c : Component W). c.type_name) earlier))
          (here.closes_eq ctx w)
      ∙ append_assoc (trace w) _ _

  shutdown-trace :
      (started : List (Component W)) (trigger : Option Error) (w : W)
      → All (IsTracedComponent trace) started
      → trace ((shutdown application (record { started = started; shut = none }) trigger w).2)
        ≡ trace w ++ readies false ∷ map closes (map (λ (c : Component W). c.type_name) started)
  unfolding shutdown shut_down
  shutdown-trace started trigger w h =
      traced.logs_eq _ _
      ∙ close_all-trace _ started _ h
      ∙ ap (λ (t : List Event). t ++ map closes (map (λ (c : Component W). c.type_name) started))
          (traced.readies_eq false w)
      ∙ append_assoc (trace w) _ _

-- What is selected.
pub Selected-cases :
    (chosen : Selected)
    → (chosen ≡ done)
      ⊎ (((index : ℕ) × (chosen ≡ closed index))
          ⊎ (((index : ℕ) × (chosen ≡ reported index none))
              ⊎ ((index : ℕ) × (e : Error) × (chosen ≡ reported index (some e)))))
Selected-cases done = inl refl
Selected-cases (closed index) = inr (inl (index, refl))
Selected-cases (reported index none) = inr (inr (inl (index, refl)))
Selected-cases (reported index (some e)) = inr (inr (inr (index, e, refl)))

module _ {W : Type 0} (trace : W → List Event) (application : Application W)
    (traced : IsTraced trace application) where
  wait_for-trace :
      (n : ℕ) (sources open_sources : List (ℕ × String)) (w : W)
      → trace ((wait_for application n sources open_sources w).1) ≡ trace w
  unfolding wait_for
  wait_for-trace zero sources open_sources w = refl
  wait_for-trace (suc n) sources open_sources w =
      let seen = traced.selects_eq open_sources w in
      elim (Selected-cases ((application.select open_sources w).0)) [
        | inl eq ↦ rw (eq, wait_for) seen
        | inr (inl (index, eq)) ↦
            rw (eq, wait_for) (wait_for-trace n sources (without index open_sources) _ ∙ seen)
        | inr (inr (inl (index, eq))) ↦
            rw (eq, wait_for) (wait_for-trace n sources open_sources _ ∙ seen)
        | inr (inr (inr (index, e, eq))) ↦ elim (Bool-cases (is e Sentinel.server_closed)) [
          | inl same ↦ rw (eq, same, wait_for) (wait_for-trace n sources open_sources _ ∙ seen)
          | inr other ↦ rw (eq, other, wait_for) seen
        ]
      ]

  -- The trace of a run that ended.
  IsRun : List (Option String) → List String → W → Option (Option Error × Lifecycle W × W) → Type 0
  IsRun names started w none = Unit
  IsRun names started w (some out) =
      (events : List Event) × (trace out.2 ≡ trace w ++ events) × Protocol names started events

  Waited-cases :
      (waited : Waited)
      → (waited ≡ waiting) ⊎ ((trigger : Option Error) × (waited ≡ triggered trigger))
  Waited-cases waiting = inl refl
  Waited-cases (triggered trigger) = inr (trigger, refl)

  stop_shutdown-trace :
      (started : List (Component W)) (trigger : Option Error) (w w' : W) (events : List Event)
      → All (IsTracedComponent trace) started
      → trace w' ≡ trace w ++ events
      → trace (
          (shutdown application
            (record { started = started; shut = none })
            trigger
            (application.stop w')).2)
        ≡ trace w
          ++ (events ++ readies false ∷ map closes (map (λ (c : Component W). c.type_name) started))
  stop_shutdown-trace started trigger w w' events h seen =
      shutdown-trace trace application traced started trigger _ h
      ∙ ap
          (λ (t : List Event).
            t ++ readies false ∷ map closes (map (λ (c : Component W). c.type_name) started))
          (traced.stops_eq w' ∙ seen)
      ∙ append_assoc (trace w) _ _

  serve-IsRun :
      (n : ℕ) (started : List (Component W)) (w : W)
      → All (IsTracedComponent trace) started
      → IsRun []
          (map (λ (c : Component W). c.type_name) started)
          w
          (serve application n (record { started = started; shut = none }) w)
  unfolding serve IsRun
  serve-IsRun n started w h =
      let sources = sources_from 0 application.components in
      let w1 = ready application.set_ready true w in
      elim (Waited-cases ((wait_for application n sources sources w1).0)) [
        | inl eq ↦ rw (eq, serve) tt
        | inr (trigger, eq) ↦
            rw (eq, serve)
              (
                _,
                stop_shutdown-trace started trigger w _ (readies true ∷ []) h
                    (wait_for-trace n sources sources w1 ∙ traced.readies_eq true w),
                serving _,
              )
      ]

  IsRun-append :
      (names : List (Option String)) (started : List String) (name : String) (w w' : W)
      (out : Option (Option Error × Lifecycle W × W))
      → trace w' ≡ trace w ++ starts name ∷ []
      → IsRun names (name ∷ started) w' out
      → IsRun (some name ∷ names) started w out
  unfolding IsRun
  IsRun-append names started name w w' none seen run = tt
  IsRun-append names started name w w' (some out) seen (events, eq, steps) = (
    starts name ∷ events,
    eq ∙ ap (λ (t : List Event). t ++ events) seen ∙ append_assoc (trace w) _ _,
    starting name names started events steps,
  )

  start_from-IsRun :
      (n : ℕ) (root : Context W) (index : ℕ) (components : List (Option (Component W)))
      (started : List (Component W)) (w : W)
      → All (IsTracedEntry trace) components
      → All (IsTracedComponent trace) started
      → IsRun (names_of components) (map (λ (c : Component W). c.type_name) started) w (
          start_from application n root index components
            (record { started = started; shut = none })
            w)
  unfolding start_from IsRun IsTracedEntry names_of
  start_from-IsRun n root index [] started w _ h = serve-IsRun n started w h
  start_from-IsRun n root index (none ∷ components) started w _ h = (
    _,
    stop_shutdown-trace started (some (leaf ("start component " ⊕ itoa index ⊕ ": nil component")))
        w w [] h (sym (append-nil (trace w))),
    missing _ _,
  )
  start_from-IsRun n root index (some c ∷ components) started w (here, there) h =
      elim (Option-cases ((c.start root w).0)) [
        | inl eq ↦
            rw (eq, start_from)
              (IsRun-append _ _ c.type_name w _ _ (here.starts_eq root w eq)
                (start_from-IsRun n root (suc index) components (c ∷ started) _ there (here, h)))
        | inr (e, eq) ↦
            rw (eq, start_from)
              (
                _,
                stop_shutdown-trace started _ w _ (refuses c.type_name ∷ []) h
                    (here.refuses_eq root w e eq),
                refusing c.type_name _ _,
              )
      ]

  stopped-IsRun :
      (names : List (Option String)) (started : List String) (w : W)
      (out : Option (Option Error × Lifecycle W × W))
      → IsRun names started w out
      → IsRun names started w (stopped application out)
  unfolding IsRun
  stopped-IsRun names started w none run = tt
  stopped-IsRun names started w (some out) (events, eq, steps) =
      (events, traced.stops_eq _ ∙ eq, steps)

-- Where `trace` shows every call of the components and of the observer, a run of a new application that
-- ends has added events that follow the protocol: the components are started in order, up to one that
-- refuses or is missing; the application is ready only after all of them were started; and in every
-- case it is then made not ready and the components that were started are closed, each once, the last
-- first.
pub run_application-Protocol :
    {W : Type 0} (trace : W → List Event) (application : Application W)
    → IsTraced trace application
    → (n : ℕ) (parent : Context W) (w : W) (out : Option Error × Lifecycle W × W)
    → run_application application n parent (record { started = []; shut = none }) w ≡ some out
    → (events : List Event) × (trace out.2 ≡ trace w ++ events)
      × Protocol (names_of application.components) [] events
unfolding run_application IsRun
run_application-Protocol {W = W} trace application traced n parent w out ran =
    subst
      (λ (ended : Option (Option Error × Lifecycle W × W)).
        IsRun trace application traced (names_of application.components) [] w ended)
      ran
      (stopped-IsRun trace application traced _ [] w _ (
        start_from-IsRun trace application traced n (application.signal_context parent) 0
          application.components [] w traced.components_traced tt))
