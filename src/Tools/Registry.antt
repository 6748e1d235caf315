-- ===== src/Tools/Registry.antt =====
-- shirita-core/src/tools.rs: the registry of the built-in tools, in the order of its registrations.
use shirita.Prelude.{◌⊎◌, inl, inr, none, Bool, true, false, List, [], ◌∷◌, map}
use shirita.Text.{Text, codes}
use shirita.Json.{Value, number, pos_int, object, array, bool, Fields, field, end, to_items}
use shirita.Tools.{ToolSpec, ToolHandler, ToolRegistry, RegisterError, builtin, no_tools, register}
use shirita.Tools.Builtin.{
  status_tool, finish_tool, replace_response_tool, patch_response_tool, max_response_patch_ops,
}
use shirita.Tools.Random.{Dice, random_number_tool, random_choose_tool, max_random_items}
use shirita.Tools.Math.{Floats, math_tool}

abbrev str : Text → Value
str s = Value.text s

abbrev typed : Text → Value
typed name = object (field (codes "type") (str name) end)

abbrev pub names : List Text → Value
names ns = array (to_items (map str ns))

-- `schema(properties, required)`
abbrev pub schema : Fields → List Text → Value
schema properties required = object (
    field (codes "additionalProperties") (bool false) (
      field (codes "properties") (object properties) (
        field (codes "required") (names required)
          (field (codes "type") (str (codes "object")) end))))

-- A specification of a built-in tool; the fields that the source repeats are the same for all.
abbrev builtin_spec : Text → Text → Value → Bool → ToolSpec
builtin_spec name description input_schema required = record {
  name = name;
  description = description;
  input_schema = input_schema;
  output_schema = none;
  source = builtin;
  required = required;
  selected = false;
  requires_authorization = false;
}

abbrev pub update_status_spec : ToolSpec
update_status_spec =
    builtin_spec (codes "shirita.run.update_status") (codes "Update transient run status")
      (schema
        (field (codes "message") (typed (codes "string")) (
          field (codes "visibility")
            (object (field (codes "enum") (names (codes "internal" ∷ codes "user" ∷ [])) end)) end))
        (codes "message" ∷ []))
      true

abbrev pub finish_spec : ToolSpec
finish_spec =
    builtin_spec (codes "shirita.run.finish")
      (codes "Commit the current response workspace, or supply a final response")
      (schema (field (codes "response") (typed (codes "string")) end) []) true

abbrev pub replace_spec : ToolSpec
replace_spec =
    builtin_spec (codes "shirita.response.replace")
      (codes "Replace the response workspace with a complete new draft")
      (schema (field (codes "text") (typed (codes "string")) end) (codes "text" ∷ [])) true

abbrev operation_schema : Value
operation_schema = object (
    field (codes "properties")
      (object (
        field (codes "replace") (typed (codes "string"))
          (field (codes "search") (typed (codes "string")) end)))
      (field (codes "required") (names (codes "search" ∷ codes "replace" ∷ []))
        (field (codes "type") (str (codes "object")) end)))

abbrev pub patch_spec : ToolSpec
patch_spec =
    builtin_spec (codes "shirita.response.patch")
      (codes "Atomically apply ordered literal search/replace edits to the response workspace")
      (schema
        (field (codes "operations")
          (object (
            field (codes "items") operation_schema (
              field (codes "maxItems") (number (pos_int max_response_patch_ops)) (
                field (codes "minItems") (number (pos_int 1))
                  (field (codes "type") (str (codes "array")) end)))))
          (field (codes "revision") (typed (codes "integer")) end))
        (codes "revision" ∷ codes "operations" ∷ []))
      true

abbrev pub random_number_spec : ToolSpec
random_number_spec =
    builtin_spec (codes "shirita.random.number")
      (codes "Choose a random integer in an inclusive range")
      (schema
        (field (codes "max") (typed (codes "integer"))
          (field (codes "min") (typed (codes "integer")) end))
        (codes "min" ∷ codes "max" ∷ []))
      false

abbrev pub random_choose_spec : ToolSpec
random_choose_spec =
    builtin_spec (codes "shirita.random.choose") (codes "Choose one item from a non-empty list")
      (schema
        (field (codes "items")
          (object (
            field (codes "maxItems") (number (pos_int max_random_items)) (
              field (codes "minItems") (number (pos_int 1))
                (field (codes "type") (str (codes "array")) end))))
          end)
        (codes "items" ∷ []))
      false

abbrev pub math_spec : ToolSpec
math_spec =
    builtin_spec (codes "shirita.math.evaluate")
      (codes "Evaluate bounded arithmetic using +, -, *, /, %, ^ and parentheses")
      (schema (field (codes "expression") (typed (codes "string")) end) (codes "expression" ∷ []))
      false

-- What a chain of registrations has come to; `inl` is where `unwrap` panics.
abbrev pub Building : Type 0
Building = RegisterError ⊎ ToolRegistry

unfoldable pub then_register : Building → ToolSpec → ToolHandler → Building
then_register (inl e) spec handler = inl e
then_register (inr builder) spec handler = register builder spec handler

-- `builtin_tool_registry_builder`, and `builtin_tool_registry` with it.
unfoldable pub builtin_tool_registry : Floats → Dice → Building
builtin_tool_registry fl dice =
    let b1 = then_register (inr no_tools) update_status_spec status_tool in
    let b2 = then_register b1 finish_spec finish_tool in
    let b3 = then_register b2 replace_spec replace_response_tool in
    let b4 = then_register b3 patch_spec patch_response_tool in
    let b5 = then_register b4 random_number_spec (random_number_tool dice) in
    let b6 = then_register b5 random_choose_spec (random_choose_tool dice) in
    then_register b6 math_spec (math_tool fl)
