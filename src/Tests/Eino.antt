-- ===== src/Tests/Eino.antt =====
-- A message with a tool call, and four role names of the library.
use oryxos_go.Common.{◌≡◌, refl, some, [], ◌∷◌, ◌≢◌, String, eq_iff, ◌===◌, false}
use oryxos_go.Go.Effect.{ok}
use oryxos_go.Llm.{Message, text_message, role_assistant}
use oryxos_go.Provider.Eino.{EinoRoles, eino_of, from_eino_message, to_eino_message}
use oryxos_go.Provider.Eino.RoundTrip.{IsDistinct, from_eino_message-to_eino_message}
use oryxos_go.Tests.Fixtures.{echo_call}

abbrev eino_roles : EinoRoles
eino_roles = record { system = "s"; user = "u"; assistant = "a"; tool = "t" }

differ : (s t : String) → (s === t) ≡ false → s ≢ t
differ s t h e = cc ((eq_iff s t).1 e, h)

eino_roles-IsDistinct : IsDistinct eino_roles
eino_roles-IsDistinct = record {
  system_user = differ "s" "u" refl;
  system_assistant = differ "s" "a" refl;
  system_tool = differ "s" "t" refl;
  user_assistant = differ "u" "a" refl;
  user_tool = differ "u" "t" refl;
  assistant_tool = differ "a" "t" refl;
}

abbrev calling : Message
calling = record (text_message role_assistant "") { tool_calls = echo_call ∷ [] }

from_eino_message-to_eino_message_example :
    from_eino_message eino_roles (some (eino_of calling "a")) ≡ ok calling
unfolding to_eino_message
from_eino_message-to_eino_message_example =
    from_eino_message-to_eino_message eino_roles eino_roles-IsDistinct calling (eino_of calling "a")
      refl
