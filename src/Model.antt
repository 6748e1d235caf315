-- ===== src/Model.antt =====
-- shirita-core/src/model/mod.rs and shirita-core/src/models/message.rs: the messages of a chat
-- request, and the events that a provider streams.
use shirita.Prelude.{ℕ, Option, none, Bool, false, List, []}
use shirita.Text.{Text}
use shirita.Tools.{ToolCall, ToolResult, ToolSpec}

pub data Role : Type 0 where
  system user assistant : Role

pub record ChatMessage : Type 0 where
  pub role : Role
  pub content : Text
  pub images : List Text
  pub tool_calls : List ToolCall
  pub tool_result : Option ToolResult
  pub control : Bool

-- `ChatMessage::default()`
abbrev pub default_message : ChatMessage
default_message = record {
  role = user;
  content = [];
  images = [];
  tool_calls = [];
  tool_result = none;
  control = false;
}

pub record ChatRequest : Type 0 where
  pub model : Text
  pub messages : List ChatMessage
  pub summary : Option Text
  pub max_tokens : Option ℕ
  pub tools : List ToolSpec

pub data ModelEvent : Type 0 where
  text_delta reasoning_delta : Text → ModelEvent
  tool_call : ToolCall → ModelEvent
  usage : ℕ → ℕ → ModelEvent
  end_of_turn : Text → ModelEvent
