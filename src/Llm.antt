-- ===== src/Llm.antt =====
-- internal/llm/model.go: the values that cross the runtime, tool and provider boundaries.
use oryxos_go.Common.{String, Option, none, List, []}
use oryxos_go.Common.Int.{ℤ}
use oryxos_go.Go.Json.{Members}

abbrev pub role_system : String
role_system = "system"

abbrev pub role_user : String
role_user = "user"

abbrev pub role_assistant : String
role_assistant = "assistant"

abbrev pub role_tool : String
role_tool = "tool"

pub record FunctionCall : Type 0 where
  pub name : String
  pub arguments : String

-- `extra` is a map that may be nil, `index` a pointer that may be nil.
pub record ToolCall : Type 0 where
  pub index : Option ℤ
  pub id : String
  pub type : String
  pub function : FunctionCall
  pub extra : Option Members

pub record Message : Type 0 where
  pub role : String
  pub content : String
  pub name : String
  pub tool_calls : List ToolCall
  pub tool_call_id : String
  pub tool_name : String
  pub reasoning_content : String
  pub extra : Option Members

-- `llm.Message{Role: role, Content: content}`
abbrev pub text_message : String → String → Message
text_message role content = record {
  role = role;
  content = content;
  name = "";
  tool_calls = [];
  tool_call_id = "";
  tool_name = "";
  reasoning_content = "";
  extra = none;
}

pub record Usage : Type 0 where
  pub prompt_tokens : ℤ
  pub completion_tokens : ℤ
  pub total_tokens : ℤ

pub record Response : Type 0 where
  pub message : Message
  pub usage : Usage
  pub finish_reason : String

-- `llm.Response{}`
abbrev pub no_response : Response
no_response = record {
  message = text_message "" "";
  usage = record { prompt_tokens = ℤ.pos 0; completion_tokens = ℤ.pos 0; total_tokens = ℤ.pos 0 };
  finish_reason = "";
}

-- `input_schema` is the JSON document, or its bytes where they are none.
pub record ToolDefinition : Type 0 where
  pub name : String
  pub description : String
  pub input_schema : String
  pub extra : Option Members

pub record Request : Type 0 where
  pub messages : List Message
  pub tools : List ToolDefinition

pub record StreamEvent : Type 0 where
  pub kind : String
  pub delta : Message
  pub response : Option Response

abbrev pub stream_event_delta : String
stream_event_delta = "delta"

abbrev pub stream_event_completed : String
stream_event_completed = "completed"

-- `llm.StreamEvent{}`
abbrev pub no_event : StreamEvent
no_event = record { kind = ""; delta = text_message "" ""; response = none }
