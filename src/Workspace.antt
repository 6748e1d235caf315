-- ===== src/Workspace.antt =====
-- shirita-core/src/agent.rs and shirita-core/src/agent_loop.rs: the response workspace of a run,
-- and the three controls that may change it. Each takes the workspace and returns the new one.
pub mod Edits
use shirita.Prelude.{
  ℕ, ◌+◌, ◌-◌, ◌^◌, min, Option, none, some, Bool, true, false, List, [], ◌∷◌, ltb, ◌==◌,
  if◌then◌else◌, length, is_empty,
}
use shirita.Text.{Text, codes, byte_len, trim, match_indices, replace_range}
use shirita.Json.{Value, object, end, field, number, pos_int}
use shirita.Tools.{
  ToolCall, ToolResult, ResponsePatchOperation, ErrorCode, ok, stale_revision, search_not_found,
  search_not_unique, response_too_large, empty_response, reject,
}
use shirita.Tools.Builtin.{max_response_workspace_bytes}

pub record ResponseWorkspace : Type 0 where
  pub text : Text
  pub revision : ℕ  -- u64

abbrev pub u64_max : ℕ
u64_max = 2 ^ 64 - 1

-- `revision.saturating_add(1)`
abbrev pub next_revision : ℕ → ℕ
next_revision r = min (r + 1) u64_max

abbrev pub nat : ℕ → Value
nat n = number (pos_int n)

abbrev pub done : ToolCall → Value → ToolResult
done call output = record {
  call_id = call.id;
  name = call.name;
  status = ok;
  output = output;
  error_code = none;
}

unfoldable pub apply_replace : ResponseWorkspace → ToolCall → Text → ResponseWorkspace × ToolResult
apply_replace workspace call text =
    let revision : ℕ = next_revision workspace.revision in
    (
      record { text = text; revision = revision },
      done call (object (field (codes "revision") (nat revision) end)),
    )

pub data Patched : Type 0 where
  refused : ErrorCode → Patched
  patched : Text → Patched

-- One round of the loop in `apply_patch`, over the matches of the operation's search text.
abbrev pub patch_at : Text → ResponsePatchOperation → List ℕ → Patched
patch_at candidate op [] = refused search_not_found
patch_at candidate op (at ∷ []) =
    let next = replace_range at (length op.search) op.replace candidate in
    if ltb max_response_workspace_bytes (byte_len next)
    then refused response_too_large
    else patched next
patch_at candidate op (at ∷ _ ∷ _) = refused search_not_unique

unfoldable pub patch_one : Text → ResponsePatchOperation → Patched
patch_one candidate op = patch_at candidate op (match_indices op.search candidate)

unfoldable pub patch_all : Text → List ResponsePatchOperation → Patched
patch_all candidate [] = patched candidate
patch_all candidate (op ∷ ops) = elim (patch_one candidate op) [
  | refused code ↦ refused code
  | patched next ↦ patch_all next ops
]

unfoldable pub apply_patch :
    ResponseWorkspace → ToolCall → ℕ → List ResponsePatchOperation → ResponseWorkspace × ToolResult
apply_patch workspace call revision operations =
    if revision == workspace.revision
    then elim (patch_all workspace.text operations) [
      | refused code ↦ (workspace, (reject call code).result)
      | patched candidate ↦
          let revision' : ℕ = next_revision workspace.revision in
          (
            record { text = candidate; revision = revision' },
            done call (
                object (
                  field (codes "operations") (nat (length operations))
                    (field (codes "revision") (nat revision') end))),
          )
    ]
    else (workspace, (reject call stale_revision).result)

-- `Result<String, &str>`
pub data Committed : Type 0 where
  committed : Text → Committed
  not_committed : ErrorCode → Committed

unfoldable pub commit_finish : ResponseWorkspace → Option Text → ResponseWorkspace × Committed
commit_finish workspace (some text) =
    if ltb max_response_workspace_bytes (byte_len text)
    then (workspace, not_committed response_too_large)
    else (record { text = text; revision = next_revision workspace.revision }, committed text)
commit_finish workspace none =
    if is_empty (trim workspace.text)
    then (workspace, not_committed empty_response)
    else (workspace, committed workspace.text)
