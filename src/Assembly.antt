-- ===== src/Assembly.antt =====
-- shirita-core/src/assembly.rs: from the trees of prompts to the messages of a request. The segments
-- are assembled in Assembly/Plan, which entries take part is decided in Assembly/Activation.
pub mod Messages
pub mod Runs
pub mod Activation
pub mod Content
pub mod Plan
pub mod Rules
use shirita.Prelude.{Option, Bool, List}
use shirita.Text.{Text}
use shirita.Nodes.{Definition}

pub data Placement : Type 0 where
  before_history after_history : Placement

pub record PromptSegment : Type 0 where
  pub placement : Placement
  pub content : Text
  pub source : Text

pub record AssembledPlan : Type 0 where
  pub segments : List PromptSegment
  pub history_enabled : Bool
  pub regex_rules : List Definition
