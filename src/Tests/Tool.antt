-- ===== src/Tests/Tool.antt =====
-- A tool that fails once with a retryable error.
use mathlib.Core.Path.{subst}
use oryxos_go.Common.{◌≡◌, refl, ap, none, some, List, [], ◌∷◌, ◌++◌, true, false}
use oryxos_go.Common.Int.{ℤ}
use oryxos_go.Go.Error.{Error, foreign}
use oryxos_go.Go.Text.{trim_space}
use oryxos_go.Go.Effect.{ok}
use oryxos_go.Tool.Executor.{
  Executor, OryxTool, InvokableTool, Returned, execute_recorded, execute_allowed,
}
use oryxos_go.Tool.Executor.Attempts.{Event, IsTraced}
use oryxos_go.Tool.Executor.Records.{
  IsRecorded, IsExecuted, execute_recorded-IsRecorded, execute_allowed-IsExecuted,
}
use oryxos_go.Tests.Fixtures.{live, no_redaction, echo_call}

abbrev busy : Error
busy = foreign (record { text = "busy"; is_a = λ s. false; retryable = some true })

-- The world is the list of events; the second call of the tool succeeds.
abbrev answer : List Event → Returned
answer [] = ("", some busy)
answer (e ∷ es) = ("hi", none)

abbrev flaky : InvokableTool (List Event)
flaky = record {
  info = λ ctx w.
      (ok (record { name = "echo"; description = ""; input_schema = "{}"; extra = none }), w);
  invoke = λ ctx arguments w. (answer w, w ++ Event.invokes arguments (answer w).1 ∷ []);
}

abbrev echo : OryxTool (List Event)
echo = record { tool = some flaky; retryable = true; idempotent = true; timeout = ℤ.pos 1000 }

abbrev executor : Executor (List Event)
executor = record {
  lookup = λ name. some echo;
  create = λ ctx row w. (none, w ++ Event.records row ∷ []);
  log = λ entry w. w;
  now = λ w. (7000000, w);
  wait = λ ctx ms w. (none, w ++ Event.waits ms ∷ []);
  with_timeout = λ ctx timeout. ctx;
  validate = λ schema arguments. none;
  valid_json = λ text. true;
}

registered_flaky :
    {configured : OryxTool (List Event)} {tool : InvokableTool (List Event)}
    → some echo ≡ some configured
    → configured.tool ≡ some tool
    → flaky ≡ tool
registered_flaky {configured} h k =
    let same : echo ≡ configured = cc h in
    let implemented : some flaky ≡ configured.tool = ap (λ c. c.tool) same in cc (implemented, k)

executor-IsTraced : IsTraced executor (λ w. w)
executor-IsTraced = record {
  invoke = λ name configured tool h k ctx arguments w.
      subst
        (λ t.
          (t.invoke ctx arguments w).1
          ≡ w ++ Event.invokes arguments (t.invoke ctx arguments w).0.1 ∷ [])
        (registered_flaky h k) refl;
  info = λ name configured tool h k ctx w.
      subst (λ t. (t.info ctx w).1 ≡ w) (registered_flaky h k) refl;
  wait = λ ctx ms w. refl;
  create = λ ctx row w. refl;
  log = λ entry w. refl;
  now = λ w. refl;
}

execute_allowed-IsExecuted_example :
    IsExecuted no_redaction executor live "s1"
      (λ w. w)
      executor-IsTraced
      "echo"
      ("echo" ∷ [])
      "{}"
      []
      (execute_allowed no_redaction executor live "s1" "echo" ("echo" ∷ []) "{}" [])
execute_allowed-IsExecuted_example =
    execute_allowed-IsExecuted no_redaction executor live "s1" (λ w. w) executor-IsTraced "echo"
      ("echo" ∷ []) "{}" []

execute_recorded-IsRecorded_example :
    IsRecorded no_redaction executor live "s1"
      (λ w. w)
      executor-IsTraced
      (trim_space echo_call.function.name)
      ("echo" ∷ [])
      "{}"
      []
      (execute_recorded no_redaction executor live "s1" ("echo" ∷ []) echo_call [])
execute_recorded-IsRecorded_example =
    execute_recorded-IsRecorded no_redaction executor live "s1" (λ w. w) executor-IsTraced
      ("echo" ∷ []) echo_call []

retried :
    (execute_recorded no_redaction executor live "s1" ("echo" ∷ []) echo_call []).0 ≡ ("hi", none)
unfolding execute_recorded
retried = refl
