-- ===== src/AgentLoop/Outcome/Builtin.antt =====
-- The registry of the built-in tools can be built, and its tools keep what a run asks of them.
use shirita.Prelude.{
  ℕ, ◌≡◌, refl, subst, inl, inr, Option, none, some, Bool, Option-cases, Bool-cases, All, ◌&&◌, not,
  leb, length, is_empty, ltb,
}
use shirita.Text.{Text, codes, byte_len, text_eq}
use shirita.Json.{Serde}
use shirita.Tools.{
  ToolCall, ToolSpec, ToolHandler, ToolRegistry, no_tools, register, valid_name, split, Moment,
}
use shirita.Tools.Builtin.{
  status_tool, finish_tool, replace_response_tool, patch_response_tool, array_field, str_field,
}
use shirita.Tools.Random.{
  Dice, random_number_tool, random_choose_tool, span, i64_field, ℤ, draw_number,
  max_random_integer_span, max_random_items,
}
use shirita.Tools.Math.{Floats, math_tool, answer, eval_math, max_math_expression_bytes}
use shirita.Tools.Registry.{
  Building, then_register, builtin_tool_registry, update_status_spec, finish_spec, replace_spec,
  patch_spec, random_number_spec, random_choose_spec, math_spec,
}
use shirita.Assoc.{contains_key, insert, remove}
use shirita.Model.{ChatRequest}
use shirita.Workspace.Edits.{Fits}
use shirita.Agent.{AgentSettings, GenerationRun}
use shirita.AgentLoop.{Env}
use shirita.AgentLoop.Rounds.{run_harness}
use shirita.AgentLoop.Outcome.{Asks, Keeps, Promises, SoundEnd, run_harness-SoundEnd}
use shirita.AgentLoop.Outcome.Tools.{controls-Keep, no_tools-Promises, register-Promises}

Sound : Building → Type 0
Sound (inl e) = Unit
Sound (inr registry) = Promises registry

then_register-Sound :
    (b : Building) (spec : ToolSpec) (handler : ToolHandler)
    → Sound b
    → Keeps spec.name handler
    → Sound (then_register b spec handler)
unfolding Sound then_register
then_register-Sound (inl e) spec handler s k = tt
then_register-Sound (inr builder) spec handler s k = go (register builder spec handler) refl
  where
    go : (c : Building) → register builder spec handler ≡ c → Sound c
    go (inl e) q = tt
    go (inr built) q = register-Promises builder spec handler built s k q

draw_number-Asks :
    (dice : Dice) (moment : Moment) (call : ToolCall) (low high : ℤ) (o : Option ℕ)
    → Asks call (draw_number dice moment call low high o).control
draw_number-Asks dice moment call low high none = tt
draw_number-Asks dice moment call low high (some width) =
    elim (Bool-cases (ltb max_random_integer_span width)) [ inl e ↦ rw e tt | inr e ↦ rw e tt ]

random_number_tool-Keeps : (dice : Dice) (name : Text) → Keeps name (random_number_tool dice)
unfolding random_number_tool
random_number_tool-Keeps dice name moment call q =
    elim (Option-cases (i64_field call.arguments (codes "min"))) [
      | inl e ↦ rw (e, Asks) tt
      | inr (low, e) ↦
          rw (e, Asks)
            (elim (Option-cases (i64_field call.arguments (codes "max"))) [
              | inl f ↦ rw (f, Asks) tt
              | inr (high, f) ↦
                  rw (f, Asks) (draw_number-Asks dice moment call low high (span low high))
            ])
    ]

random_choose_tool-Keeps : (dice : Dice) (name : Text) → Keeps name (random_choose_tool dice)
unfolding random_choose_tool
random_choose_tool-Keeps dice name moment call q =
    elim (Option-cases (array_field call.arguments (codes "items"))) [
      | inl e ↦ rw (e, Asks) tt
      | inr (items, e) ↦
          rw (e, Asks)
            (elim (Bool-cases (not (is_empty items) && leb (length items) max_random_items)) [
              | inl f ↦ rw (f, Asks) tt
              | inr f ↦ rw (f, Asks) tt
            ])
    ]

module _ (fl : Floats) where
  answer-Asks : (call : ToolCall) (o : Option fl.F) → Asks call (answer fl call o).control
  answer-Asks call none = tt
  answer-Asks call (some v) = elim (Bool-cases (fl.is_finite v)) [
    | inl e ↦ rw e tt
    | inr e ↦ rw e tt
  ]

  math_tool-Keeps : (name : Text) → Keeps name (math_tool fl)
  unfolding math_tool
  math_tool-Keeps name moment call q =
      elim (Option-cases (str_field call.arguments (codes "expression"))) [
        | inl e ↦ rw (e, Asks) tt
        | inr (text, e) ↦
            rw (e, Asks)
              (elim (Bool-cases (leb (byte_len text) max_math_expression_bytes)) [
                | inl f ↦ rw (f, Asks) (answer-Asks call (eval_math fl text))
                | inr f ↦ rw (f, Asks) tt
              ])
      ]

  builtin-Sound : (dice : Dice) → Sound (builtin_tool_registry fl dice)
  unfolding builtin_tool_registry
  builtin-Sound dice =
      let b1 =
        then_register-Sound (inr no_tools) update_status_spec status_tool
          (unfold Sound in no_tools-Promises) (controls-Keep _).1 in
      let b2 = then_register-Sound _ finish_spec finish_tool b1 (controls-Keep (codes "")).0 in
      let b3 = then_register-Sound _ replace_spec replace_response_tool b2 (controls-Keep _).2 in
      let b4 = then_register-Sound _ patch_spec patch_response_tool b3 (controls-Keep _).3 in
      let b5 = then_register-Sound _ random_number_spec _ b4 (random_number_tool-Keeps dice _) in
      let b6 = then_register-Sound _ random_choose_spec _ b5 (random_choose_tool-Keeps dice _) in
      then_register-Sound _ math_spec _ b6 (math_tool-Keeps _)

pub builtin-Promises :
    (fl : Floats) (dice : Dice) (registry : ToolRegistry)
    → builtin_tool_registry fl dice ≡ inr registry
    → Promises registry
builtin-Promises fl dice registry e = unfold Sound in subst Sound e (builtin-Sound fl dice)

pub builtin_is_built :
    (fl : Floats) (dice : Dice)
    → (registry : ToolRegistry) × (builtin_tool_registry fl dice ≡ inr registry)
unfolding builtin_tool_registry then_register register valid_name contains_key insert remove split
    text_eq
builtin_is_built fl dice = (_, refl)

-- Every registration of a built-in tool succeeds, so that no `unwrap` panics; and a run with the
-- built-in tools, which starts with a workspace within the limit, has no panic, and where it finishes
-- its record is completed and its workspace holds the text that is sent, which is not empty and at
-- most 262144 bytes long. That holds for any provider, clock, settings, drawing of lots and
-- arithmetic of floats.
pub builtin_run-SoundEnd :
    (fl : Floats) (dice : Dice) (env : Env) (serde : Serde) (settings : AgentSettings)
    (request : ChatRequest) (native_supported : Bool) (run : GenerationRun)
    → Fits run.workspace
    → (registry : ToolRegistry) × (builtin_tool_registry fl dice ≡ inr registry)
      × All SoundEnd (
          run_harness
            (record { env = env; serde = serde; registry = registry; settings = settings })
            request
            native_supported
            run)
builtin_run-SoundEnd fl dice env serde settings request native_supported run f =
    let (registry, e) = builtin_is_built fl dice in
    (
      registry,
      e,
      run_harness-SoundEnd _ request native_supported run (builtin-Promises fl dice registry e) f,
    )
