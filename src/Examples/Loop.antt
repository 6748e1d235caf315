-- ===== src/Examples/Loop.antt =====
-- A run of shirita-core/src/agent_loop.rs with two tools, at a scripted provider.
use shirita.Prelude.{
  ℕ, zero, suc, ◌≤◌, arith, ◌≡◌, ◌<◌, ◌^◌, ap, length, List, none, some, true, false, [], ◌∷◌,
}
use shirita.Text.{Text, codes}
use shirita.Json.{Value, Serde, object, field, end, null}
use shirita.Tools.{ToolSpec, builtin, ToolCall, native, ToolRegistry}
use shirita.Tools.Builtin.{finish_tool, replace_response_tool}
use shirita.Model.{ChatRequest, default_message, tool_call}
use shirita.Agent.{AgentSettings, ToolTransport, GenerationRun, new_run, send}
use shirita.AgentLoop.{StreamItem, Env, Harness, Reply, stream, refused, item, ready}
use shirita.AgentLoop.Rounds.{run_harness}
use shirita.AgentLoop.Limits.{starts}
use shirita.AgentLoop.Limits.Calls.{ShortReplies, starts-run_harness}
use shirita.AgentLoop.Ending.{EndsOnce, run_harness-EndsOnce}

abbrev pub plain_serde : Serde
plain_serde = record { to_string = λ v. some (codes "{}"); from_str = λ s. some null }

abbrev spec : Text → ToolSpec
spec name = record {
  name = name;
  description = [];
  input_schema = null;
  output_schema = none;
  source = builtin;
  required = true;
  selected = false;
  requires_authorization = false;
}

abbrev two_tools : ToolRegistry
two_tools = record {
  specs =
      (codes "shirita.run.finish", spec (codes "shirita.run.finish"))
      ∷ (codes "shirita.response.replace", spec (codes "shirita.response.replace"))
      ∷ [];
  handlers =
      (codes "shirita.run.finish", finish_tool)
      ∷ (codes "shirita.response.replace", replace_response_tool)
      ∷ [];
}

abbrev pub settings : AgentSettings
settings = record {
  enabled = true;
  transport = ToolTransport.auto;
  enabled_tools = [];
  max_rounds = 2;
  max_tool_calls = 4;
  tool_timeout_ms = 5000;
  show_activity = true;
  show_user_status = true;
  max_identical_call_rounds = 2;
  system_prompt = codes "s";
  unfinished_prompt = codes "u";
}

abbrev replace_call : ToolCall
replace_call = record {
  id = codes "a";
  name = codes "shirita.response.replace";
  arguments = object (field (codes "text") (Value.text (codes "hi")) end);
  transport = native;
}

abbrev finish_call : ToolCall
finish_call = record {
  id = codes "b";
  name = codes "shirita.run.finish";
  arguments = object end;
  transport = native;
}

-- One turn that drafts a text, and then one that finishes.
abbrev script : ℕ → Reply
script round = elim round [
  | zero ↦ refused (codes "none")
  | suc n ↦ elim n [
    | zero ↦ stream (item (tool_call replace_call) ∷ [])
    | _ ↦ stream (item (tool_call finish_call) ∷ [])
  ]
]

abbrev pub calm : Env
calm = record {
  respond = λ round request. script round;
  stop_at_round = λ round. false;
  stop_at_call = λ moment. false;
  wait = λ moment ms. ready;
}

abbrev demo : Harness
demo = record { env = calm; serde = plain_serde; registry = two_tools; settings = settings }

abbrev pub hello : ChatRequest
hello = record {
  model = codes "m";
  messages = record default_message { content = codes "hello" } ∷ [];
  summary = none;
  max_tokens = none;
  tools = [];
}

abbrev pub fresh_run : GenerationRun
fresh_run = new_run (codes "r") (codes "s") none send

run_harness-EndsOnce_example : EndsOnce (run_harness demo hello true fresh_run)
run_harness-EndsOnce_example = run_harness-EndsOnce demo hello true fresh_run

one_item :
    (x : StreamItem) (parts : List StreamItem)
    → stream (x ∷ []) ≡ stream parts
    → length parts < 2 ^ 32
one_item x parts e = let f : x ∷ [] ≡ parts = ground arith in omega (arith, ap length f)

demo-ShortReplies : ShortReplies demo
demo-ShortReplies zero request parts e = cc
demo-ShortReplies (suc zero) request parts e = one_item _ parts e
demo-ShortReplies (suc (suc n)) request parts e = one_item _ parts e

starts-run_harness_example : starts (run_harness demo hello true fresh_run) ≤ 4
starts-run_harness_example =
    starts-run_harness demo hello true fresh_run (omega arith) demo-ShortReplies
