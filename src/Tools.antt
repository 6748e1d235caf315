-- ===== src/Tools.antt =====
-- shirita-core/src/tools.rs: tool specifications, calls, results and the registry that executes a
-- call. The built-in handlers are in the children.
pub mod Builtin
pub mod Random
pub mod Math
pub mod Registry
pub mod Registered
pub mod Execute
use shirita.Prelude.{
  ℕ, suc, ◌^◌, ◌-◌, ◌⊎◌, inl, inr, Option, none, some, Bool, true, false, not, ◌&&◌, ◌||◌, List, [],
  ◌∷◌, map, ltb, if◌then◌else◌, any, all, keep, is_empty, leb, ◌==◌,
}
use shirita.Text.{Text, text_eq, byte_len, codes}
use shirita.Json.{Value, object, end, Serde}
use shirita.Assoc.{Assoc, lookup, insert, contains_key}

pub data ToolSource : Type 0 where
  builtin plugin mcp : ToolSource

pub record ToolSpec : Type 0 where
  pub name : Text
  pub description : Text
  pub input_schema : Value
  pub output_schema : Option Value
  pub source : ToolSource
  pub required : Bool
  pub selected : Bool
  pub requires_authorization : Bool

pub data ToolCallTransport : Type 0 where
  native xml : ToolCallTransport

pub record ToolCall : Type 0 where
  pub id : Text
  pub name : Text
  pub arguments : Value
  pub transport : ToolCallTransport

pub data ToolResultStatus : Type 0 where
  ok rejected failed : ToolResultStatus

-- The error codes of the program, each spelled like its string; `other` is a code of a tool that
-- is not built in.
pub data ErrorCode : Type 0 where
  arguments_too_large unknown_tool disabled_tool result_too_large : ErrorCode
  invalid_arguments response_too_large empty_patch too_many_operations : ErrorCode
  invalid_range invalid_expression finish_skipped timeout : ErrorCode
  stale_revision search_not_found search_not_unique empty_response : ErrorCode
  other : Text → ErrorCode

pub record ToolResult : Type 0 where
  pub call_id : Text
  pub name : Text
  pub status : ToolResultStatus
  pub output : Value
  pub error_code : Option ErrorCode

pub record ResponsePatchOperation : Type 0 where
  pub search : Text
  pub replace : Text

pub data ToolControl : Type 0 where
  no_control : ToolControl
  update_status : Text → Bool → ToolControl
  replace_response : Text → ToolControl
  patch_response : ℕ → List ResponsePatchOperation → ToolControl
  finish : Option Text → ToolControl

pub record ToolExecution : Type 0 where
  pub result : ToolResult
  pub control : ToolControl

abbrev pub max_tool_argument_bytes : ℕ
max_tool_argument_bytes = 65536

abbrev pub max_tool_result_bytes : ℕ
max_tool_result_bytes = 65536

-- `rejected(call, code)`
abbrev pub reject : ToolCall → ErrorCode → ToolExecution
reject call code = record {
  result = record {
    call_id = call.id;
    name = call.name;
    status = rejected;
    output = object end;
    error_code = some code;
  };
  control = no_control;
}

-- `ok(call, output, control)`
abbrev pub accept : ToolCall → Value → ToolControl → ToolExecution
accept call output control = record {
  result = record {
    call_id = call.id;
    name = call.name;
    status = ok;
    output = output;
    error_code = none;
  };
  control = control;
}

-- When a call runs, by its round and its place in the round. What a handler takes from outside the
-- program (a random draw, the reply of an MCP server) is a function of it.
abbrev pub Moment : Type 0
Moment = ℕ × ℕ

abbrev pub ToolHandler : Type 0
ToolHandler = Moment → ToolCall → ToolExecution

pub record ToolRegistry : Type 0 where
  pub specs : Assoc ToolSpec
  pub handlers : Assoc ToolHandler

abbrev pub no_tools : ToolRegistry
no_tools = record { specs = []; handlers = [] }

unfoldable pub contains : List Text → Text → Bool
contains names name = any (λ n. text_eq n name) names

-- `serde_json::to_vec(v).map(|x| x.len()).unwrap_or(usize::MAX)`
unfoldable pub json_len : Serde → Value → ℕ
json_len serde v = elim (serde.to_string v) [ none ↦ 2 ^ 64 - 1 | some s ↦ byte_len s ]

-- What `execute` makes of a handler's answer.
abbrev pub bounded : Serde → ToolCall → ToolExecution → ToolExecution
bounded serde call out =
    if ltb max_tool_result_bytes (json_len serde out.result.output)
    then reject call result_too_large
    else out

-- `ToolRegistry::execute`
unfoldable pub execute : Serde → ToolRegistry → Moment → ToolCall → List Text → ToolExecution
unfolding json_len contains
execute serde registry moment call enabled =
    if ltb max_tool_argument_bytes (json_len serde call.arguments)
    then reject call arguments_too_large
    else elim (lookup call.name registry.specs) [
      | none ↦ reject call unknown_tool
      | some spec ↦
          if not spec.required && (not spec.selected && not (contains enabled call.name))
          then reject call disabled_tool
          else elim (lookup call.name registry.handlers) [
            | none ↦ reject call unknown_tool
            | some handler ↦ bounded serde call (handler moment call)
          ]
    ]

-- `str::split(c)`: always one part more than there are separators.
unfoldable pub split : ℕ → Text → List Text
split sep [] = [] ∷ []
split sep (c ∷ s) =
    let rest = split sep s in
    if c == sep then [] ∷ rest else elim rest [ [] ↦ (c ∷ []) ∷ [] | p ∷ ps ↦ (c ∷ p) ∷ ps ]

abbrev is_name_char : ℕ → Bool
is_name_char c = (leb b'a' c && leb c b'z') || ((leb b'0' c && leb c b'9') || c == b'_')

unfoldable pub valid_name : Text → Bool
unfolding split
valid_name name =
    any (λ c. c == b'.') name && all (λ p. not (is_empty p) && all is_name_char p) (split b'.' name)

pub data RegisterError : Type 0 where
  invalid_tool_name duplicate_tool : Text → RegisterError

-- `register` and `register_owned`; a registry in the making has the same two maps.
unfoldable pub register : ToolRegistry → ToolSpec → ToolHandler → RegisterError ⊎ ToolRegistry
unfolding valid_name
register builder spec handler =
    if not (valid_name spec.name)
    then inl (invalid_tool_name spec.name)
    else if contains_key spec.name builder.specs
    then inl (duplicate_tool spec.name)
    else inr (record {
      specs = insert spec.name spec builder.specs;
      handlers = insert spec.name handler builder.handlers;
    })

-- The order of Rust strings.
unfoldable pub text_le : Text → Text → Bool
text_le [] t = true
text_le (a ∷ s) [] = false
text_le (a ∷ s) (b ∷ t) = ltb a b || (a == b && text_le s t)

insert_by_name : ToolSpec → List ToolSpec → List ToolSpec
insert_by_name x [] = x ∷ []
insert_by_name x (y ∷ ys) = if text_le x.name y.name then x ∷ y ∷ ys else y ∷ insert_by_name x ys

sort_by_name : List ToolSpec → List ToolSpec
sort_by_name [] = []
sort_by_name (x ∷ xs) = insert_by_name x (sort_by_name xs)

-- `ToolRegistry::specs`
unfoldable pub specs : ToolRegistry → List ToolSpec
unfolding sort_by_name insert_by_name text_le
specs registry = sort_by_name (map (λ e. e.1) registry.specs)

-- `ToolRegistry::capability_names`
unfoldable pub capability_names : ToolRegistry → List Text
capability_names registry =
    map (λ s. s.name) (keep (λ s. not s.required && not s.selected) (specs registry))

unfoldable pub is_response_control : Text → Bool
is_response_control name =
    text_eq name (codes "shirita.response.replace") || text_eq name (codes "shirita.response.patch")
