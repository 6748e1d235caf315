-- ===== src/Tools/Execute.antt =====
-- When a tool runs, and what a call comes to where it does not.
use shirita.Prelude.{
  ◌≤◌, ◌≡◌, refl, ◌⊎◌, inl, inr, some, true, not, ◌&&◌, ◌||◌, List, arith, Bool-cases, Option-cases,
  ltb,
}
use shirita.Text.{Text}
use shirita.Json.{Serde, object, end}
use shirita.Assoc.{lookup}
use shirita.Tools.{
  ToolCall, ToolSpec, ToolHandler, ToolRegistry, ToolExecution, rejected, no_control, contains,
  bounded, json_len, execute, reject, max_tool_argument_bytes, max_tool_result_bytes, ErrorCode,
  Moment,
}

-- The tool that is registered under the call's name may be called, with arguments of this size.
pub record Admitted (serde : Serde) (registry : ToolRegistry) (call : ToolCall)
    (enabled : List Text) (handler : ToolHandler) : Type 0 where
  pub spec : ToolSpec
  pub known : lookup call.name registry.specs ≡ some spec
  pub handled : lookup call.name registry.handlers ≡ some handler
  pub allowed : (spec.required || (spec.selected || contains enabled call.name)) ≡ true
  pub small : json_len serde call.arguments ≤ max_tool_argument_bytes

-- Either an admitted handler has run and its answer stands, or the call is rejected and asks for
-- nothing; in both cases the output is within the limit.
abbrev pub Guarded : Serde → ToolRegistry → Moment → ToolCall → List Text → ToolExecution → Type 0
Guarded serde registry moment call enabled out =
    (((handler : ToolHandler) × Admitted serde registry call enabled handler
        × (out ≡ handler moment call))
      ⊎ ((out.result.status ≡ rejected) × (out.control ≡ no_control)))
    × (json_len serde out.result.output ≤ max_tool_result_bytes)

module _ (serde : Serde) (registry : ToolRegistry) (moment : Moment) (call : ToolCall)
    (enabled : List Text) (empty_fits : json_len serde (object end) ≤ max_tool_result_bytes) where
  reject-Guarded :
      (code : ErrorCode) → Guarded serde registry moment call enabled (reject call code)
  reject-Guarded code = (inr (refl, refl), empty_fits)

  bounded-Guarded :
      (handler : ToolHandler)
      → Admitted serde registry call enabled handler
      → Guarded serde registry moment call enabled (bounded serde call (handler moment call))
  bounded-Guarded handler a =
      elim (Bool-cases
        (ltb max_tool_result_bytes (json_len serde (handler moment call).result.output))) [
          | inl e ↦ rw e (reject-Guarded _)
          | inr e ↦ rw e (inl (handler, a, refl), ground arith)
        ]

  -- A tool runs only if it is registered, is required, selected or enabled, and its arguments take at
  -- most 65536 bytes; every other call is rejected and changes nothing. No output takes more than
  -- 65536 bytes, if the empty object does not.
  pub execute-Guarded :
      Guarded serde registry moment call enabled (execute serde registry moment call enabled)
  unfolding execute
  execute-Guarded =
      elim (Bool-cases (ltb max_tool_argument_bytes (json_len serde call.arguments))) [
        | inl e ↦ rw e (reject-Guarded _)
        | inr e ↦ rw e (elim (Option-cases (lookup call.name registry.specs)) [
          | inl f ↦ rw f (reject-Guarded _)
          | inr (spec, f) ↦
              rw f
                (elim (Bool-cases
                  (not spec.required && (not spec.selected && not (contains enabled call.name)))) [
                    | inl g ↦ rw g (reject-Guarded _)
                    | inr g ↦ rw g (elim (Option-cases (lookup call.name registry.handlers)) [
                      | inl k ↦ rw k (reject-Guarded _)
                      | inr (handler, k) ↦ rw k (
                          bounded-Guarded handler (record {
                            spec = spec;
                            known = f;
                            handled = k;
                            allowed = ground arith;
                            small = ground arith;
                          }))
                    ])
                  ])
        ])
      ]
