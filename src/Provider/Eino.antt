-- ===== src/Provider/Eino.antt =====
-- internal/provider/eino_adapter.go: the conversion of messages to and from the types of the Eino
-- library, of which the records here have the fields that the code sets and reads. The role names of
-- the library are parameters.
pub mod RoundTrip
use oryxos_go.Common.{
  ℕ, suc, String, Option, none, some, List, [], ◌∷◌, ◌++◌, map, Bool, true, false, ◌&&◌, not, ◌===◌,
  if◌then◌else◌,
}
use oryxos_go.Common.Int.{ℤ}
use oryxos_go.Go.Text.{◌⊕◌, quote, itoa}
use oryxos_go.Go.Error.{Error, Sentinel, leaf, wrap, sentinel, is}
use oryxos_go.Go.Effect.{Result, ok, err, Exec}
use oryxos_go.Go.Json.{Members}
use oryxos_go.Llm.{
  Message, ToolCall, Response, Usage, StreamEvent, role_system, role_user, role_assistant,
  role_tool, no_response, no_event, stream_event_delta, stream_event_completed,
}

-- schema.System, schema.User, schema.Assistant and schema.Tool
pub record EinoRoles : Type 0 where
  pub system : String
  pub user : String
  pub assistant : String
  pub tool : String

-- schema.ToolCall
pub record EinoCall : Type 0 where
  pub index : Option ℤ
  pub id : String
  pub type : String
  pub name : String
  pub arguments : String
  pub extra : Option Members

-- schema.ResponseMeta
pub record EinoMeta : Type 0 where
  pub finish_reason : String
  pub usage : Option Usage

-- schema.Message
pub record EinoMessage : Type 0 where
  pub role : String
  pub content : String
  pub name : String
  pub tool_calls : List EinoCall
  pub tool_call_id : String
  pub tool_name : String
  pub reasoning_content : String
  pub extra : Option Members
  pub response_meta : Option EinoMeta

abbrev pub to_eino_call : ToolCall → EinoCall
to_eino_call call = record {
  index = call.index;
  id = call.id;
  type = call.type;
  name = call.function.name;
  arguments = call.function.arguments;
  extra = call.extra;
}

abbrev pub from_eino_call : EinoCall → ToolCall
from_eino_call call = record {
  index = call.index;
  id = call.id;
  type = call.type;
  function = record { name = call.name; arguments = call.arguments };
  extra = call.extra;
}

-- The message with a converted role.
abbrev pub eino_of : Message → String → EinoMessage
eino_of message role = record {
  role = role;
  content = message.content;
  name = message.name;
  tool_calls = map to_eino_call message.tool_calls;
  tool_call_id = message.tool_call_id;
  tool_name = message.tool_name;
  reasoning_content = message.reasoning_content;
  extra = message.extra;
  response_meta = none;
}

abbrev pub message_of : EinoMessage → String → Message
message_of message role = record {
  role = role;
  content = message.content;
  name = message.name;
  tool_calls = map from_eino_call message.tool_calls;
  tool_call_id = message.tool_call_id;
  tool_name = message.tool_name;
  reasoning_content = message.reasoning_content;
  extra = message.extra;
}

module _ (roles : EinoRoles) where
  -- `toEinoRole`
  pub to_eino_role : String → Result String
  to_eino_role role =
      if role === role_system
      then ok roles.system
      else if role === role_user
      then ok roles.user
      else if role === role_assistant
      then ok roles.assistant
      else if role === role_tool
      then ok roles.tool
      else err (leaf ("unsupported OryxOS message role " ⊕ quote role))

  -- `fromEinoRole`
  pub from_eino_role : String → Result String
  from_eino_role role =
      if role === roles.system
      then ok role_system
      else if role === roles.user
      then ok role_user
      else if role === roles.assistant
      then ok role_assistant
      else if role === roles.tool
      then ok role_tool
      else err (leaf ("unsupported Eino message role " ⊕ quote role))

  -- `toEinoMessage`
  unfoldable pub to_eino_message : Message → Result EinoMessage
  unfolding to_eino_role
  to_eino_message message = elim (to_eino_role message.role) [
    | err e ↦ err e
    | ok role ↦ ok (eino_of message role)
  ]

  -- The loop of `toEinoMessages`.
  pub to_eino_from : ℕ → List Message → Result (List EinoMessage)
  unfolding to_eino_message
  to_eino_from index [] = ok []
  to_eino_from index (message ∷ messages) = elim (to_eino_message message) [
    | err e ↦ err (wrap ("convert message " ⊕ itoa index ⊕ " to Eino") e)
    | ok converted ↦ elim (to_eino_from (suc index) messages) [
      | err e ↦ err e
      | ok rest ↦ ok (converted ∷ rest)
    ]
  ]

  -- `toEinoMessages`
  pub to_eino_messages : List Message → Result (List EinoMessage)
  unfolding to_eino_from
  to_eino_messages messages = to_eino_from 0 messages

  -- `fromEinoMessageWithRoleMode`; a message that is none is nil.
  pub from_eino_message_with_role_mode : Option EinoMessage → Bool → Result Message
  unfolding from_eino_role
  from_eino_message_with_role_mode none allow_empty_role =
      err (leaf "convert Eino message: message is nil")
  from_eino_message_with_role_mode (some message) allow_empty_role =
      if message.role === "" && allow_empty_role
      then ok (message_of message "")
      else elim (from_eino_role message.role) [
        | err e ↦ err e
        | ok role ↦ ok (message_of message role)
      ]

  -- `fromEinoMessage`
  unfoldable pub from_eino_message : Option EinoMessage → Result Message
  unfolding from_eino_message_with_role_mode
  from_eino_message message = from_eino_message_with_role_mode message false

  -- `fromEinoStreamChunk`
  pub from_eino_stream_chunk : Option EinoMessage → Result Message
  unfolding from_eino_message_with_role_mode
  from_eino_stream_chunk message = from_eino_message_with_role_mode message true

  abbrev finish_of : Option EinoMeta → String
  finish_of none = ""
  finish_of (some meta) = meta.finish_reason

  abbrev usage_from : Option EinoMeta → Usage
  usage_from none = no_response.usage
  usage_from (some meta) = elim meta.usage [ none ↦ no_response.usage | some usage ↦ usage ]

  -- `fromEinoResponse`, of a message that is not nil.
  pub from_eino_response : EinoMessage → Result Response
  unfolding from_eino_message
  from_eino_response message = elim (from_eino_message (some message)) [
    | err e ↦ err e
    | ok converted ↦ ok (record {
      message = converted;
      usage = usage_from message.response_meta;
      finish_reason = finish_of message.response_meta;
    })
  ]
