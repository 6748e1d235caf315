-- ===== src/AgentLoop.antt =====
-- shirita-core/src/agent_loop.rs: the events of a run, and what a run takes from outside the
-- program.
pub mod Context
pub mod Calls
pub mod Rounds
pub mod Ending
pub mod Invariant
pub mod Outcome
pub mod Limits
use shirita.Prelude.{ℕ, Bool, Option, List}
use shirita.Text.{Text}
use shirita.Json.{Serde}
use shirita.Tools.{ToolCall, ToolResult, ToolRegistry}
use shirita.XmlTools.{XmlError}
use shirita.Model.{ChatRequest, ModelEvent}
use shirita.Agent.{AgentSettings, GenerationRun}

-- The messages of `HarnessEvent::Failed`, each named after its text; `provider_error` is the text
-- of an error of the provider, and `xml_error` a message of the parser of the XML protocol.
pub data Failure : Type 0 where
  native_disabled xml_round_too_large bad_call_id : Failure
  call_limit repeated_calls round_limit : Failure
  xml_error : XmlError → Failure
  provider_error : Text → Failure

-- `panicked` is no event of the source: it stands for the panic of an `unreachable!`.
pub data HarnessEvent : Type 0 where
  round_started : GenerationRun → HarnessEvent
  tool_started : ToolCall → HarnessEvent
  tool_finished : ToolResult → HarnessEvent
  status : Text → HarnessEvent
  usage : ℕ → ℕ → HarnessEvent
  workspace_changed : ℕ → HarnessEvent
  finished : Text → GenerationRun → HarnessEvent
  stopped : GenerationRun → HarnessEvent
  failed : Failure → HarnessEvent
  panicked : HarnessEvent

-- What the `select!` over the stop token and the provider's stream yields next.
pub data StreamItem : Type 0 where
  cancelled : StreamItem
  item : ModelEvent → StreamItem
  error : Text → StreamItem

-- The answer of `provider.stream_chat`: an error, or the items up to the end of the stream. The items are
-- finitely many, and there always is an answer: a provider that never opens its stream, and one whose
-- stream neither ends nor is cancelled, are outside the model.
pub data Reply : Type 0 where
  refused : Text → Reply
  stream : List StreamItem → Reply

-- How the `select!` over the stop token and a timed tool execution ends.
pub data Wait : Type 0 where
  stop_requested elapsed ready : Wait

-- Everything that a run meets outside the program: the model provider, the stop token where the loop
-- looks at it, and the clock. A round is named by its number, a call by its round and its place.
pub record Env : Type 0 where
  pub respond : ℕ → ChatRequest → Reply
  pub stop_at_round : ℕ → Bool
  pub stop_at_call : ℕ × ℕ → Bool
  pub wait : ℕ × ℕ → ℕ → Wait

-- What stays the same through a run.
pub record Harness : Type 0 where
  pub env : Env
  pub serde : Serde
  pub registry : ToolRegistry
  pub settings : AgentSettings

-- The events that a part of the run yields, with what it comes to.
abbrev pub Traced : Type 0 → Type 0
Traced A = List HarnessEvent × A
