-- ===== src/Tests/Runtime.antt =====
-- A run with one tool call, and a prompt whose budget leaves room for one turn of history.
use oryxos_go.Common.{
  ℕ, zero, suc, ◌+◌, ◌≤◌, ◌≡◌, refl, none, some, List, [], ◌∷◌, ◌⊎◌, ◌++◌, arith, length,
}
use oryxos_go.Common.Int.{ℤ}
use oryxos_go.Go.Effect.{ok}
use oryxos_go.Llm.{Message, Response, no_response, text_message, role_user, role_assistant}
use oryxos_go.Session.{recent_turns}
use oryxos_go.Session.Turns.{IsNewest, recent_turns-IsNewest}
use oryxos_go.Runtime.Prompt.{PromptBuilder, build, fit, split_current_turn}
use oryxos_go.Runtime.Prompt.Budget.{FitCases, fit_lem}
use oryxos_go.Runtime.Prompt.History.{IsSplit, NoneCurrent, split_current_turn_lem}
use oryxos_go.Runtime.React.{Services, run_session}
use oryxos_go.Runtime.React.Conversation.{Conversation, run_session-IsRun}
use oryxos_go.Runtime.React.Calls.{IsCounted, chats-run_session}
use oryxos_go.Tests.Fixtures.{live, helper, echo_call, old_turns, conversation}

-- The first reply asks for a tool, the later ones are final.
abbrev reply : ℕ → Response
reply zero = record no_response {
  message = record (text_message role_assistant "") { tool_calls = echo_call ∷ [] };
}
reply (suc n) = record no_response { message = text_message role_assistant "done" }

-- The world is the number of chats.
abbrev services : Services ℕ
services = record {
  chat = λ ctx id p ms w. ((reply w, none), suc w);
  execute = λ ctx id tools call w. (("echoed", none), w);
  build = λ ctx s p text w. (ok s.messages, w);
}

services-IsCounted : IsCounted services (λ w. w)
services-IsCounted = record {
  chat = λ ctx id p ms w. refl;
  execute = λ ctx id tools call w. refl;
  build = λ ctx s p text w. refl;
}

run_answers : (run_session services live helper "three" conversation 0).0 ≡ ok "done"
unfolding run_session
run_answers = refl

run_session-IsRun_example :
    (added : List Message) × ((run_session services live helper "three" conversation 0).1
      ≡ record conversation { messages = old_turns ++ text_message role_user "three" ∷ added })
    × Conversation 3 added (run_session services live helper "three" conversation 0).0
run_session-IsRun_example = run_session-IsRun services live helper "three" conversation 0

chats-run_session_example : (run_session services live helper "three" conversation 0).2 ≤ 0 + 3
chats-run_session_example =
    chats-run_session services live helper "three" (λ w. w) services-IsCounted conversation 0

recent_turns-IsNewest_example : IsNewest 1 (recent_turns (some conversation) (ℤ.pos 1)) old_turns
recent_turns-IsNewest_example = recent_turns-IsNewest conversation 1 (omega arith)

split_current_turn_lem_example :
    IsSplit "two" old_turns
      (split_current_turn old_turns "two").0
      (split_current_turn old_turns "two").1
    ⊎ (NoneCurrent "two" old_turns
        × (split_current_turn old_turns "two" ≡ (old_turns, text_message role_user "two" ∷ [])))
split_current_turn_lem_example = split_current_turn_lem old_turns "two"

fit_lem_example : FitCases [] old_turns [] 12 (fit (suc (length old_turns)) [] old_turns [] 12)
fit_lem_example = fit_lem [] old_turns [] 12 refl

abbrev builder : PromptBuilder ℕ
builder = record {
  runtime_rules = "Be safe.";
  bootstrap_by_profile = ("helper", record { reference = "SOUL.md"; content = "Calm." } ∷ []) ∷ [];
  skills_by_profile = ("helper", []) ∷ [];
  max_input_runes = ("helper", ℤ.pos 300) ∷ [];
  memory = λ ctx p w. (ok "Likes tea.", w);
  now = λ w. ("2026-01-02T03:04:05Z", w);
}

abbrev prompt : List Message
prompt =
    text_message "system"
      "[RUNTIME_RULES]\nBe safe.\n[PROJECT_RULES]\n\n[AGENT_IDENTITY]\nOryx\nHelp.\nCalm.\n[SKILLS]\n\n[USER_PREFERENCES]\n\n[LONG_TERM_MEMORY]\nLikes tea."
    ∷ text_message "system" "[HISTORY]"
    ∷ text_message "user" "one"
    ∷ text_message "assistant" "1"
    ∷ text_message "system" "[USER_MESSAGE]"
    ∷ text_message "user" "two"
    ∷ text_message "assistant" "2"
    ∷ text_message "system" "[CURRENT_DATETIME]\n2026-01-02T03:04:05Z"
    ∷ []
