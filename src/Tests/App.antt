-- ===== src/Tests/App.antt =====
-- An application of two components; the world is the trace and the number of selections until the
-- signal.
use mathlib.Core.Option.{none-ne-some}
use oryxos_go.Common.{
  ℕ, zero, suc, ◌≡◌, inl, inr, refl, arith, String, Option, none, some, List, [], ◌∷◌, ◌++◌, true,
  false,
}
use oryxos_go.Go.Text.{itoa}
use oryxos_go.Go.Error.{wrap, is, Error, Sentinel, leaf, sentinel}
use oryxos_go.App.{
  log_shutdown, start_from, serve, wait_for, shutdown, shut_down, close_all, start_trigger,
  sources_from, without, Component, Application, Lifecycle, Selected, done, reported,
  run_application,
}
use oryxos_go.App.Protocol.{
  IsTracedEntry, Event, starts, closes, readies, IsTraced, IsTracedComponent, Protocol, names_of,
}
use oryxos_go.App.Protocol.Refines.{run_application-Protocol}
use oryxos_go.App.Ends.{Patient, run_application-ends}
use oryxos_go.Tests.Fixtures.{live}

abbrev seen : Event → List Event × ℕ → List Event × ℕ
seen event w = (w.0 ++ event ∷ [], w.1)

abbrev store : Component (List Event × ℕ)
store = record {
  type_name = "*store.Store";
  start = λ ctx w. (none, seen (starts "*store.Store") w);
  close = λ ctx w. (some (leaf "busy"), seen (closes "*store.Store") w);
  reports = false;
}

abbrev server : Component (List Event × ℕ)
server = record {
  type_name = "*web.Server";
  start = λ ctx w. (none, seen (starts "*web.Server") w);
  close = λ ctx w. (none, seen (closes "*web.Server") w);
  reports = true;
}

-- The server reports that it was closed until the signal comes.
abbrev wait : List (ℕ × String) → List Event × ℕ → Selected × (List Event × ℕ)
wait sources (events, zero) = (done, (events, zero))
wait sources (events, suc n) = (reported 1 (some (sentinel Sentinel.server_closed)), (events, n))

abbrev application : Application (List Event × ℕ)
application = record {
  components = some store ∷ some server ∷ [];
  set_ready = some (λ value w. seen (readies value) w);
  log_failure = none;
  signal_context = λ ctx. ctx;
  stop = λ w. w;
  shutdown_context = λ w. live;
  select = wait;
}

store-IsTraced : IsTracedComponent (λ w. w.0) store
store-IsTraced = record {
  starts_eq = λ ctx w h. refl;
  refuses_eq = λ ctx w e h. absurd (none-ne-some _ h);
  closes_eq = λ ctx w. refl;
}

log_shutdown-none :
    (result : Option Error) (w : List Event × ℕ) → (log_shutdown none result w).0 ≡ w.0
log_shutdown-none none w = refl
log_shutdown-none (some e) w = refl

server-IsTraced : IsTracedComponent (λ w. w.0) server
server-IsTraced = record {
  starts_eq = λ ctx w h. refl;
  refuses_eq = λ ctx w e h. absurd (none-ne-some _ h);
  closes_eq = λ ctx w. refl;
}

wait-quiet : (sources : List (ℕ × String)) (w : List Event × ℕ) → ((wait sources w).1).0 ≡ w.0
wait-quiet sources (events, zero) = refl
wait-quiet sources (events, suc n) = refl

application-IsTraced : IsTraced (λ w. w.0) application
unfolding IsTracedEntry
application-IsTraced = record {
  components_traced = (store-IsTraced, (server-IsTraced, tt));
  readies_eq = λ value w. refl;
  logs_eq = λ result w. log_shutdown-none result w;
  stops_eq = λ w. refl;
  selects_eq = wait-quiet;
}

abbrev ended : Option (Option Error × Lifecycle (List Event × ℕ) × (List Event × ℕ))
ended = some (
  some (wrap "close component 0 (*store.Store)" (leaf "busy")),
  record {
    started = server ∷ store ∷ [];
    shut = some (some (wrap "close component 0 (*store.Store)" (leaf "busy")));
  },
  (
    starts "*store.Store"
        ∷ starts "*web.Server"
        ∷ readies true
        ∷ readies false
        ∷ closes "*web.Server"
        ∷ closes "*store.Store"
        ∷ [],
    0,
  ),
)

-- The run of the application with two selections and the trace that the protocol describes.
runs : run_application application 3 live (record { started = []; shut = none }) ([], 2) ≡ ended
unfolding run_application start_from serve wait_for shutdown shut_down close_all start_trigger is
    sources_from without itoa
runs = refl

run_application-Protocol_example :
    (events : List Event) × ((starts "*store.Store"
        ∷ starts "*web.Server"
        ∷ readies true
        ∷ readies false
        ∷ closes "*web.Server"
        ∷ closes "*store.Store"
        ∷ [])
      ≡ [] ++ events)
    × Protocol (names_of (some store ∷ some server ∷ [])) [] events
run_application-Protocol_example =
    run_application-Protocol (λ w. w.0) application application-IsTraced 3 live ([], 2) _ runs

wait-Patient : Patient application (λ w. w.1)
wait-Patient sources (events, zero) = inl refl
wait-Patient sources (events, suc n) = inr (inl (1, _, refl, omega arith))

run_application-ends_example :
    (n : ℕ) × (out : Option Error × Lifecycle (List Event × ℕ) × (List Event × ℕ))
    × (run_application application n live (record { started = []; shut = none }) ([], 2) ≡ some out)
run_application-ends_example =
    run_application-ends application (λ w. w.1) wait-Patient live
      (record { started = []; shut = none }) ([], 2)
