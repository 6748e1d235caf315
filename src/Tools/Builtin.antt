-- ===== src/Tools/Builtin.antt =====
-- shirita-core/src/tools.rs: the handlers of the built-in run-control tools.
use shirita.Prelude.{
  ℕ, ◌+◌, ◌-◌, ◌^◌, min, Option, none, some, true, not, ◌&&◌, ◌||◌, List, [], ◌∷◌, ◌++◌, ltb, leb,
  if◌then◌else◌, length, is_empty,
}
use shirita.Text.{Text, codes, text_eq, byte_len, trim}
use shirita.Json.{Value, object, end, field, bool, null, get, as_str, as_u64, as_array}
use shirita.Tools.{
  ToolCall, ToolExecution, ToolHandler, ResponsePatchOperation, invalid_arguments,
  response_too_large, empty_patch, too_many_operations, update_status, replace_response,
  patch_response, finish, reject, accept,
}

abbrev pub max_status_message_bytes : ℕ
max_status_message_bytes = 4096

abbrev pub max_response_workspace_bytes : ℕ
max_response_workspace_bytes = 262144

abbrev pub max_response_patch_ops : ℕ
max_response_patch_ops = 16

abbrev pub max_response_patch_search_bytes : ℕ
max_response_patch_search_bytes = 8192

abbrev pub max_response_patch_replace_bytes : ℕ
max_response_patch_replace_bytes = 8192

unfoldable pub str_field : Value → Text → Option Text
str_field v k = elim (get v k) [ none ↦ none | some x ↦ as_str x ]

unfoldable pub u64_field : Value → Text → Option ℕ
u64_field v k = elim (get v k) [ none ↦ none | some x ↦ as_u64 x ]

unfoldable pub array_field : Value → Text → Option (List Value)
array_field v k = elim (get v k) [ none ↦ none | some x ↦ as_array x ]

-- `.map(str::trim).filter(|s| !s.is_empty() && s.len() <= most)`
unfoldable pub trimmed_within : ℕ → Option Text → Option Text
trimmed_within most none = none
trimmed_within most (some s) =
    if not (is_empty (trim s)) && leb (byte_len (trim s)) most then some (trim s) else none

abbrev pub or_internal : Option Text → Text
or_internal none = codes "internal"
or_internal (some s) = s

-- `StatusTool`
unfoldable pub status_tool : ToolHandler
unfolding trimmed_within str_field
status_tool moment call =
    elim (trimmed_within max_status_message_bytes (str_field call.arguments (codes "message"))) [
      | none ↦ reject call invalid_arguments
      | some message ↦
          let visibility = or_internal (str_field call.arguments (codes "visibility")) in
          if not (text_eq visibility (codes "internal")) && not (text_eq visibility (codes "user"))
          then reject call invalid_arguments
          else accept call (object (field (codes "accepted") (bool true) end))
              (update_status message (text_eq visibility (codes "user")))
    ]

unfoldable pub finish_with : ToolCall → Value → ToolExecution
finish_with call null = accept call (object end) (finish none)
finish_with call v = elim (trimmed_within max_response_workspace_bytes (as_str v)) [
  | none ↦ reject call invalid_arguments
  | some s ↦ accept call (object end) (finish (some s))
]

-- `FinishTool`
unfoldable pub finish_tool : ToolHandler
unfolding finish_with trimmed_within
finish_tool moment call = elim (get call.arguments (codes "response")) [
  | none ↦ accept call (object end) (finish none)
  | some v ↦ finish_with call v
]

-- `ReplaceResponseTool`
unfoldable pub replace_response_tool : ToolHandler
unfolding str_field
replace_response_tool moment call = elim (str_field call.arguments (codes "text")) [
  | none ↦ reject call invalid_arguments
  | some text ↦
      if ltb max_response_workspace_bytes (byte_len text)
      then reject call response_too_large
      else accept call (object end) (replace_response text)
]

-- `usize::saturating_add` on a 64-bit machine.
abbrev pub usize_add : ℕ → ℕ → ℕ
usize_add a b = min (a + b) (2 ^ 64 - 1)

-- The operations read so far, and the bytes that they search for and put in.
pub record PatchBatch : Type 0 where
  pub operations : List ResponsePatchOperation
  pub search_bytes : ℕ
  pub replace_bytes : ℕ

unfoldable pub read_operation : Value → Option ResponsePatchOperation
read_operation op = elim (str_field op (codes "search")) [
  | none ↦ none
  | some search ↦ elim (str_field op (codes "replace")) [
    | none ↦ none
    | some replace ↦
        if is_empty search then none else some (record { search = search; replace = replace })
  ]
]

-- The loop over `ops`; `none` is its return with `invalid_arguments`.
unfoldable pub read_operations :
    List Value → List ResponsePatchOperation → ℕ → ℕ → Option PatchBatch
read_operations [] operations search_bytes replace_bytes =
    some (record {
      operations = operations;
      search_bytes = search_bytes;
      replace_bytes = replace_bytes;
    })
read_operations (op ∷ ops) operations search_bytes replace_bytes = elim (read_operation op) [
  | none ↦ none
  | some o ↦
      read_operations ops (operations ++ o ∷ []) (usize_add search_bytes (byte_len o.search))
        (usize_add replace_bytes (byte_len o.replace))
]

abbrev pub accept_batch : ToolCall → ℕ → Option PatchBatch → ToolExecution
accept_batch call revision none = reject call invalid_arguments
accept_batch call revision (some b) =
    if ltb max_response_patch_search_bytes b.search_bytes
      || ltb max_response_patch_replace_bytes b.replace_bytes
    then reject call response_too_large
    else accept call (object end) (patch_response revision b.operations)

-- `PatchResponseTool`
unfoldable pub patch_response_tool : ToolHandler
unfolding read_operations read_operation u64_field array_field str_field
patch_response_tool moment call = elim (u64_field call.arguments (codes "revision")) [
  | none ↦ reject call invalid_arguments
  | some revision ↦ elim (array_field call.arguments (codes "operations")) [
    | none ↦ reject call invalid_arguments
    | some ops ↦
        if is_empty ops
        then reject call empty_patch
        else if ltb max_response_patch_ops (length ops)
        then reject call too_many_operations
        else accept_batch call revision (read_operations ops [] 0 0)
  ]
]
