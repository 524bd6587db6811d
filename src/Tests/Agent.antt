-- ===== src/Tests/Agent.antt =====
-- An agent service over one profile; the world is what happened.
use oryxos_go.Common.{◌≡◌, refl, none, some, List, [], ◌∷◌, ◌++◌, false}
use oryxos_go.Go.Error.{leaf}
use oryxos_go.Go.Effect.{ok, err}
use oryxos_go.Runtime.Agent.{AgentService, AgentRequest, invoke}
use oryxos_go.Runtime.Agent.Saves.{Event, runs, saves, IsTraced, IsInvoked, invoke-IsInvoked}
use oryxos_go.Tests.Fixtures.{live, no_redaction, helper, conversation}

abbrev agent : AgentService (List Event)
agent = record {
  get = λ name. some helper;
  resolve = λ ctx request name w. (ok (some conversation), w);
  save = λ ctx current w. (none, w ++ saves current ∷ []);
  run =
      λ ctx current text selected w. (err (leaf "no model"), current, w ++ runs current text ∷ []);
}

abbrev request : AgentRequest
request = record {
  profile_name = " helper ";
  channel = "cli";
  user_id = "u";
  session_id = "";
  message = "hi";
  stateless = false;
}

agent-IsTraced : IsTraced (λ w. w) agent
agent-IsTraced = record {
  resolve_eq = λ ctx request name w. refl;
  run_eq = λ ctx current text selected w. refl;
  save_eq = λ ctx current w. refl;
}

invoke-IsInvoked_example :
    IsInvoked no_redaction
      (λ w. w)
      agent
      (some live)
      request
      []
      (invoke no_redaction (some agent) (some live) request [])
invoke-IsInvoked_example =
    invoke-IsInvoked no_redaction (λ w. w) agent agent-IsTraced (some live) request []

saves_after_failure :
    (invoke no_redaction (some agent) (some live) request []).1
    ≡ runs conversation "hi" ∷ saves conversation ∷ []
unfolding invoke
saves_after_failure = refl
