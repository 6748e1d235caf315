-- ===== src/AgentLoop/Calls.antt =====
-- shirita-core/src/agent_loop.rs: the calls of one round, from the stop check before a call to the
-- result that it leaves.
use shirita.Prelude.{
  ℕ, ◌+◌, min, Option, none, some, Bool, true, false, ◌&&◌, ◌||◌, List, [], ◌∷◌, ◌++◌,
  if◌then◌else◌,
}
use shirita.Text.{Text, codes, text_eq}
use shirita.Json.{object, end}
use shirita.Assoc.{lookup}
use shirita.Tools.{
  ToolCall, ToolResult, ToolRegistry, ToolResultStatus, ToolExecution, ToolControl, ok, no_control,
  update_status, replace_response, patch_response, finish, finish_skipped, timeout, reject, execute,
}
use shirita.Workspace.{apply_replace, apply_patch, u64_max}
use shirita.Agent.{GenerationRun}
use shirita.AgentLoop.{
  HarnessEvent, tool_started, tool_finished, status, workspace_changed, stopped, panicked, Wait,
  stop_requested, elapsed, ready, Harness, Traced,
}

abbrev pub finish_name : Text
finish_name = codes "shirita.run.finish"

abbrev pub authorization_timeout_ms : ℕ
authorization_timeout_ms = 120000

-- The variables of `run` that the loop over the calls of a round changes.
pub record RoundState : Type 0 where
  pub run : GenerationRun
  pub results : List ToolResult
  pub pending_finish : Option (ToolCall × Option Text)
  pub preceding_failed : Bool

-- How the body of the loop ends: the generator returns, the loop breaks, or it goes on.
pub data CallEnd : Type 0 where
  halt : CallEnd
  break next : RoundState → CallEnd

abbrev pub not_ok : ToolResultStatus → Bool
not_ok ok = false
not_ok _ = true

abbrev pub stop_run : GenerationRun → GenerationRun
stop_run run = record run { status = shirita.Agent.RunStatus.stopped }

abbrev pub push_result : RoundState → ToolResult → RoundState
push_result s result = record s { results = s.results ++ result ∷ [] }

-- A result that is pushed on, with what it says of the calls after it.
abbrev pub note_result : RoundState → ToolResult → RoundState
note_result s result = record s {
  results = s.results ++ result ∷ [];
  preceding_failed = s.preceding_failed || not_ok result.status;
}

abbrev pub is_finish : ToolCall → Bool
is_finish call = text_eq call.name finish_name

-- `registry.spec(&call.name).map(|spec| spec.requires_authorization).unwrap_or(false)`
unfoldable pub requires_authorization : ToolRegistry → ToolCall → Bool
requires_authorization registry call = elim (lookup call.name registry.specs) [
  | none ↦ false
  | some spec ↦ spec.requires_authorization
]

unfoldable pub exec_timeout_ms : Harness → ToolCall → ℕ
exec_timeout_ms h call =
    if requires_authorization h.registry call
    then min (h.settings.tool_timeout_ms + authorization_timeout_ms) u64_max
    else h.settings.tool_timeout_ms

abbrev pub timed_out : ToolCall → ToolExecution
timed_out call = record {
  result = record {
    call_id = call.id;
    name = call.name;
    status = ToolResultStatus.failed;
    output = object end;
    error_code = some timeout;
  };
  control = no_control;
}

abbrev pub visible_status : Bool → Text → List HarnessEvent
visible_status true message = status message ∷ []
visible_status false message = []

-- The event of a workspace mutation that succeeded.
abbrev pub changed_event : ToolResultStatus → ℕ → List HarnessEvent
changed_event ok revision = workspace_changed revision ∷ []
changed_event _ revision = []

-- The `match execution.control` for a call that is not the finish.
unfoldable pub apply_control :
    Harness → ToolCall → RoundState → ToolResult → ToolControl → Traced CallEnd
apply_control h call s result no_control = (tool_finished result ∷ [], next (note_result s result))
apply_control h call s result (update_status message user_visible) = (
  tool_finished result ∷ visible_status (user_visible && h.settings.show_user_status) message,
  next (note_result s result),
)
apply_control h call s result (replace_response text) =
    let (workspace, replaced) = apply_replace s.run.workspace call text in
    (
      tool_finished replaced ∷ changed_event replaced.status workspace.revision,
      next (note_result (record s { run = record s.run { workspace = workspace } }) replaced),
    )
apply_control h call s result (patch_response revision operations) =
    let (workspace, patched) = apply_patch s.run.workspace call revision operations in
    (
      tool_finished patched ∷ changed_event patched.status workspace.revision,
      next (note_result (record s { run = record s.run { workspace = workspace } }) patched),
    )
apply_control h call s result (finish response) = (panicked ∷ [], halt)

-- The terminal fence by name: whether the finish is valid or not, the loop breaks.
unfoldable pub apply_finish : ToolCall → RoundState → ToolResult → ToolControl → Traced CallEnd
apply_finish call s result (finish response) =
    ([], break (record s { pending_finish = some (call, response) }))
apply_finish call s result _ = (tool_finished result ∷ [], break (push_result s result))

unfoldable pub apply_execution : Harness → ToolCall → RoundState → ToolExecution → Traced CallEnd
apply_execution h call s execution =
    if is_finish call
    then apply_finish call s execution.result execution.control
    else apply_control h call s execution.result execution.control

-- The `select!` over the stop token and the timed execution.
abbrev pub after_wait : Harness → ℕ × ℕ → ToolCall → RoundState → Wait → Traced CallEnd
after_wait h moment call s stop_requested = (stopped (stop_run s.run) ∷ [], halt)
after_wait h moment call s elapsed = apply_execution h call s (timed_out call)
after_wait h moment call s ready =
    apply_execution h call s (execute h.serde h.registry moment call h.settings.enabled_tools)

unfoldable pub await_call : Harness → ℕ × ℕ → ToolCall → RoundState → Traced CallEnd
await_call h moment call s = after_wait h moment call s (h.env.wait moment (exec_timeout_ms h call))

abbrev pub emit : {A : Type 0} → HarnessEvent → Traced A → Traced A
emit e (es, a) = (e ∷ es, a)

-- A finish behind a call that failed is not executed.
abbrev pub skip_finish : ToolCall → RoundState → ToolResult → Traced CallEnd
skip_finish call s skipped =
    (tool_started call ∷ tool_finished skipped ∷ [], break (push_result s skipped))

-- The body of `for call in &calls`.
unfoldable pub run_call : Harness → ℕ × ℕ → ToolCall → RoundState → Traced CallEnd
run_call h moment call s =
    if h.env.stop_at_call moment
    then (stopped (stop_run s.run) ∷ [], halt)
    else if is_finish call && s.preceding_failed
    then skip_finish call s (reject call finish_skipped).result
    else emit (tool_started call) (await_call h moment call s)

-- How the loop over the calls ends: the generator has returned, or the round goes on.
pub data CallsEnd : Type 0 where
  halted : CallsEnd
  through : RoundState → CallsEnd

abbrev pub prefix : {A : Type 0} → List HarnessEvent → Traced A → Traced A
prefix es (fs, a) = (es ++ fs, a)

abbrev pub after_call : Traced CallEnd → (RoundState → Traced CallsEnd) → Traced CallsEnd
after_call (es, halt) k = (es, halted)
after_call (es, break s) k = (es, through s)
after_call (es, next s) k = prefix es (k s)

-- The loop over the calls of round `round`, from the call at `position` on.
unfoldable pub run_calls : Harness → ℕ → ℕ → List ToolCall → RoundState → Traced CallsEnd
run_calls h round position [] s = ([], through s)
run_calls h round position (call ∷ calls) s =
    after_call (run_call h (round, position) call s)
      (λ s'. run_calls h round (position + 1) calls s')
