-- ===== src/Session.antt =====
-- internal/session/session.go. A session that is nil is `none`. The lock makes each method atomic,
-- so a method is one function of the messages; copies are values here.
pub mod Turns
use oryxos_go.Common.{
  ℕ, zero, suc, ◌+◌, ◌-◌, String, Option, none, some, List, [], ◌∷◌, ◌++◌, map, Bool, true, false,
  length, drop, ltb, ◌===◌, if◌then◌else◌,
}
use oryxos_go.Common.Int.{ℤ, is_positive, pos_part}
use oryxos_go.Go.Json.{Value, Elements, Members}
use oryxos_go.Llm.{Message, ToolCall, role_user}

pub record Session : Type 0 where
  pub id : String
  pub messages : List Message

-- `session.New`
pub new : String → Session
new id = record { id = id; messages = [] }

-- `cloneValue` and `cloneMap`, which build a new container at every level.
mutual
  pub clone_value : Value → Value
  clone_value (Value.object fields) = Value.object (clone_members fields)
  clone_value (Value.array items) = Value.array (clone_elements items)
  clone_value Value.null = Value.null
  clone_value (Value.boolean b) = Value.boolean b
  clone_value (Value.number text) = Value.number text
  clone_value (Value.text text) = Value.text text

  pub clone_elements : Elements → Elements
  clone_elements Elements.no_element = Elements.no_element
  clone_elements (Elements.element v vs) = Elements.element (clone_value v) (clone_elements vs)

  pub clone_members : Members → Members
  clone_members Members.no_member = Members.no_member
  clone_members (Members.member k v fs) = Members.member k (clone_value v) (clone_members fs)

-- `cloneMap`
pub clone_map : Option Members → Option Members
clone_map none = none
clone_map (some values) = some (clone_members values)

clone_call : ToolCall → ToolCall
clone_call call = record call { extra = clone_map call.extra }

pub clone_message : Message → Message
unfolding clone_call
clone_message message = record message {
  extra = clone_map message.extra;
  tool_calls = map clone_call message.tool_calls;
}

pub clone_messages : List Message → List Message
clone_messages messages = map clone_message messages

-- `Append` on a session that is not nil.
pub appended : Session → Message → Session
unfolding clone_message
appended s message = record s { messages = s.messages ++ clone_message message ∷ [] }

pub append : Option Session → Message → Option Session
unfolding appended
append none message = none
append (some s) message = some (appended s message)

-- `Messages`
unfoldable pub messages_of : Option Session → List Message
unfolding clone_messages clone_message clone_map clone_call clone_value
messages_of none = []
messages_of (some s) = clone_messages s.messages

abbrev pub is_user : Message → Bool
is_user message = message.role === role_user

-- The loop that collects the indices of the user messages, `index` being the next one.
unfoldable pub starts_from : ℕ → List Message → List ℕ
starts_from index [] = []
starts_from index (message ∷ rest) =
    let later = starts_from (suc index) rest in if is_user message then index ∷ later else later

-- `messages[starts[turn]:]`; the index is in range wherever it is read.
unfoldable pub from_start : List ℕ → ℕ → List Message → List Message
from_start [] turn messages = []
from_start (start ∷ starts) zero messages = drop start messages
from_start (start ∷ starts) (suc turn) messages = from_start starts turn messages

-- `RecentTurns`
recent : ℤ → List Message → List Message
recent limit messages =
    let starts = starts_from 0 messages in
    if is_positive limit then from_start starts (length starts - pos_part limit) messages else []

pub recent_turns : Option Session → ℤ → List Message
unfolding recent
recent_turns none limit = []
recent_turns (some s) limit = clone_messages (recent limit s.messages)
