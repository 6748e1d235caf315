-- ===== src/Examples/Tools.antt =====
-- Runs with the built-in tools of shirita-core/src/tools.rs, and a patch of the response workspace.
use shirita.Prelude.{
  ◌≤◌, ℕ, ◌+◌, ◌≡◌, ◌≢◌, ◌↔◌, inr, none, some, true, false, List, [], ◌∷◌, arith, All,
}
use shirita.Text.{codes, byte_len}
use shirita.Json.{Value, object, end}
use shirita.Tools.{
  ToolRegistry, ToolCall, ResponsePatchOperation, native, no_tools, json_len, execute,
  max_tool_result_bytes, ok,
}
use shirita.Tools.Builtin.{status_tool, finish_tool}
use shirita.Tools.Random.{Dice}
use shirita.Tools.Math.{Floats, parse, math_fuel, expr, out_of_fuel}
use shirita.Tools.Math.Fuel.{parse-math_fuel}
use shirita.Tools.Execute.{Guarded, execute-Guarded}
use shirita.Tools.Registry.{builtin_tool_registry, update_status_spec, finish_spec}
use shirita.Tools.Registered.{Tool, register_all, Registers, register_all-Registers}
use shirita.XmlTools.{parse_xml_tool_round}
use shirita.XmlTools.Round.{Sound, parse_xml_tool_round-Sound}
use shirita.Workspace.{ResponseWorkspace, apply_patch, next_revision}
use shirita.Workspace.Edits.{Edits, Fits, apply_patch-accepts, apply_patch-atomic}
use shirita.Agent.{validate, sanitized, new_run}
use shirita.Agent.Settings.{validate-sanitized}
use shirita.AgentLoop.{Harness}
use shirita.AgentLoop.Rounds.{run_harness}
use shirita.AgentLoop.Outcome.{SoundEnd, run_harness-SoundEnd}
use shirita.AgentLoop.Outcome.Builtin.{builtin_is_built, builtin-Promises, builtin_run-SoundEnd}
use shirita.Examples.Loop.{calm, plain_serde, settings, hello, fresh_run}

-- Whole numbers in place of floats.
abbrev pub whole_numbers : Floats
whole_numbers = record {
  F = ℕ;
  add = λ a b. a + b;
  sub = λ a b. a;
  mul = λ a b. a;
  div = λ a b. a;
  rem = λ a b. b;
  powf = λ a b. a;
  neg = λ a. a;
  is_zero = λ a. false;
  is_finite = λ a. true;
  parse = λ s. some 1;
  bits = λ a. a;
}

abbrev pub loaded_dice : Dice
loaded_dice = record {
  number_in = λ moment low high. low;
  index_below = λ moment n. 0;
  index_below_lt = λ moment n l. l;
}

pub fresh_run-Fits : Fits fresh_run.workspace
unfolding byte_len new_run
fresh_run-Fits = omega arith

builtin_run-SoundEnd_example :
    (registry : ToolRegistry) × (builtin_tool_registry whole_numbers loaded_dice ≡ inr registry)
    × All SoundEnd (
        run_harness
          (record { env = calm; serde = plain_serde; registry = registry; settings = settings })
          hello
          true
          fresh_run)
builtin_run-SoundEnd_example =
    builtin_run-SoundEnd whole_numbers loaded_dice calm plain_serde settings hello true fresh_run
      fresh_run-Fits

abbrev builtins : ToolRegistry
builtins = (builtin_is_built whole_numbers loaded_dice).0

abbrev builtin_harness : Harness
builtin_harness = record {
  env = calm;
  serde = plain_serde;
  registry = builtins;
  settings = settings;
}

run_harness-SoundEnd_example : All SoundEnd (run_harness builtin_harness hello true fresh_run)
run_harness-SoundEnd_example =
    run_harness-SoundEnd builtin_harness hello true fresh_run
      (builtin-Promises whole_numbers loaded_dice builtins
        (builtin_is_built whole_numbers loaded_dice).1)
      fresh_run-Fits

validate-sanitized_example :
    validate (sanitized settings (codes "x.y" ∷ [])) (codes "x.y" ∷ []) ≡ none
validate-sanitized_example = validate-sanitized settings (codes "x.y" ∷ [])

abbrev draft : ResponseWorkspace
draft = record { text = codes "HP: 100"; revision = 3 }

abbrev patch_call : ToolCall
patch_call = record {
  id = codes "c";
  name = codes "shirita.response.patch";
  arguments = Value.null;
  transport = native;
}

abbrev heal : List ResponsePatchOperation
heal = record { search = codes "100"; replace = codes "90" } ∷ []

apply_patch-accepts_example :
    ((draft.revision ≡ draft.revision) × Edits heal (codes "HP: 100") (codes "HP: 90")) ↔ (
      ((apply_patch draft patch_call 3 heal).1.status ≡ ok)
      × ((apply_patch draft patch_call 3 heal).0
          ≡ record { text = codes "HP: 90"; revision = next_revision 3 }))
apply_patch-accepts_example =
    apply_patch-accepts draft patch_call 3 heal (omega arith, tt) (codes "HP: 90")

stale_status : (apply_patch draft patch_call 2 heal).1.status ≢ ok
unfolding apply_patch
stale_status e = cc

apply_patch-atomic_example : (apply_patch draft patch_call 2 heal).0 ≡ draft
apply_patch-atomic_example = apply_patch-atomic draft patch_call 2 heal stale_status

parse-math_fuel_example :
    parse whole_numbers (math_fuel whole_numbers (codes "1+(2*3)")) expr 0 (codes "1+(2*3)")
    ≢ out_of_fuel
parse-math_fuel_example = parse-math_fuel whole_numbers (codes "1+(2*3)")

abbrev two_tools : List Tool
two_tools = (update_status_spec, status_tool) ∷ (finish_spec, finish_tool) ∷ []

register_all-Registers_example : Registers two_tools (register_all (inr no_tools) two_tools)
register_all-Registers_example = register_all-Registers two_tools

parse_xml_tool_round-Sound_example : Sound (
    parse_xml_tool_round plain_serde
      (codes "<tool_call id=\"a\" name=\"shirita.run.finish\">{}</tool_call>"))
parse_xml_tool_round-Sound_example =
    parse_xml_tool_round-Sound plain_serde
      (codes "<tool_call id=\"a\" name=\"shirita.run.finish\">{}</tool_call>")

empty_object_fits : json_len plain_serde (object end) ≤ max_tool_result_bytes
unfolding json_len byte_len
empty_object_fits = omega arith

execute-Guarded_example :
    Guarded plain_serde builtins
      (1, 0)
      patch_call
      []
      (execute plain_serde builtins (1, 0) patch_call [])
execute-Guarded_example =
    execute-Guarded plain_serde builtins (1, 0) patch_call [] empty_object_fits
