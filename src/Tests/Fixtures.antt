-- ===== src/Tests/Fixtures.antt =====
-- Sample sessions, profiles and messages.
use oryxos_go.Common.{none, List, [], ◌∷◌, inl, refl}
use oryxos_go.Common.Int.{ℤ}
use oryxos_go.Go.Error.{Redaction}
use oryxos_go.Go.Effect.{Context, Correlation}
use oryxos_go.Llm.{Message, ToolCall, text_message, role_user, role_assistant}
use oryxos_go.Profile.{Profile}
use oryxos_go.Session.{Session}

abbrev pub no_correlation : Correlation
no_correlation = record {
  request_id = "";
  session_id = "";
  profile_name = "";
  channel = "";
  schedule_id = "";
}

abbrev pub live : {W : Type 0} → Context W
live = record { correlation = no_correlation; cancelled = λ w. none }

abbrev pub no_redaction : Redaction
no_redaction = record { sanitize = λ t. t; sanitize_cases = λ t. inl refl }

abbrev pub helper : Profile
helper = record {
  name = "helper";
  description = "";
  identity = record { agent_name = "Oryx"; prompt = "Help." };
  provider = record { name = "deepseek"; model = "m"; temperature = 0x3F333333 };
  tools = "echo" ∷ [];
  skills = [];
  mcp_servers = [];
  notify_channels = [];
  schedules = [];
  channels = [];
  bootstrap = [];
  settings = record { max_iterations = ℤ.pos 3; max_history_turns = ℤ.pos 2 };
}

abbrev pub echo_call : ToolCall
echo_call = record {
  index = none;
  id = "c1";
  type = "function";
  function = record { name = "echo"; arguments = "{}" };
  extra = none;
}

abbrev pub old_turns : List Message
old_turns =
    text_message role_user "one"
    ∷ text_message role_assistant "1"
    ∷ text_message role_user "two"
    ∷ text_message role_assistant "2"
    ∷ []

abbrev pub conversation : Session
conversation = record { id = "s1"; messages = old_turns }
