-- ===== src/AgentLoop/Invariant.antt =====
-- One rule for what holds of every event of a run: an invariant of the run's record that each step
-- keeps, and a predicate that each event meets while the invariant holds.
pub mod Rounds
use shirita.Prelude.{
  ℕ, zero, suc, ◌+◌, ◌≡◌, refl, inl, inr, Option, none, some, Bool, true, false, ◌&&◌, List, [],
  ◌∷◌, ◌++◌, Bool-cases, ltb, All, All-append,
}
use shirita.Text.{Text}
use shirita.Tools.{
  ToolCall, ToolCallTransport, ToolExecution, ToolControl, ToolResult, ToolResultStatus, ErrorCode,
  ok, rejected, finish, no_control, update_status, replace_response, patch_response,
  ResponsePatchOperation, execute,
}
use shirita.Model.{ChatRequest, text_delta, reasoning_delta, tool_call, end_of_turn, ModelEvent}
use shirita.Workspace.{
  ResponseWorkspace, Committed, committed, not_committed, commit_finish, apply_replace, apply_patch,
}
use shirita.Agent.{GenerationRun}
use shirita.AgentLoop.{
  HarnessEvent, tool_started, tool_finished, status, workspace_changed, Reply, refused, stream,
  usage, round_started, Failure, finished, stopped, failed, panicked, Wait, stop_requested, elapsed,
  ready, StreamItem, cancelled, item, error, Harness, Traced,
}
use shirita.AgentLoop.Calls.{
  RoundState, CallEnd, halt, break, next, CallsEnd, halted, through, apply_control, apply_finish,
  apply_execution, after_wait, skip_finish, is_finish, await_call, run_call, run_calls, after_call,
  changed_event, visible_status, emit, prefix, exec_timeout_ms, stop_run, timed_out,
}
use shirita.AgentLoop.Rounds.{
  Drained, broken_off, drained, drain, LoopState, RoundEnd, ended, again, commit, perform,
  admit_round, run_round, rounds, run_harness, Read, unreadable, readable, after_read, read_round,
  after_drain, after_reply, after_round, after_choice, after_commit, commit_pending, closed,
  then_commit, count_round, bad_ids, too_many_repeats, takes_text, enter_round, choose_transport,
  completed_run,
}

abbrev pub with_workspace : GenerationRun → ResponseWorkspace → GenerationRun
with_workspace run w = record run { workspace = w }

-- `Inv` is the invariant, `Says` the predicate on events, and `Control` what is known of the control
-- that a tool answers a call with.
pub record Rules (h : Harness) (Inv : GenerationRun → Type 0) (Says : HarnessEvent → Type 0)
    (Control : ToolCall → ToolControl → Type 0) : Type 0 where
  pub executes :
      (moment : ℕ × ℕ) (call : ToolCall)
      → Control call (execute h.serde h.registry moment call h.settings.enabled_tools).control
  pub times_out : (call : ToolCall) → Control call no_control
  pub says_failed : (f : Failure) → Says (failed f)
  pub says_started : (call : ToolCall) → Says (tool_started call)
  pub says_result : (result : ToolResult) → Says (tool_finished result)
  pub says_status : (message : Text) → Says (status message)
  pub says_usage : (a b : ℕ) → Says (usage a b)
  pub says_stopped : (run : GenerationRun) → Inv run → Says (stopped (stop_run run))
  pub says_round : (run : GenerationRun) → Inv run → Says (round_started run)
  pub keeps_round : (run : GenerationRun) (n : ℕ) → Inv run → Inv (record run { round = n })
  pub keeps_count : (run : GenerationRun) (n : ℕ) → Inv run → Inv (record run { tool_calls = n })
  pub says_changed : (n : ℕ) → Says (workspace_changed n)
  pub keeps_replace :
      (run : GenerationRun) (call : ToolCall) (text : Text)
      → Inv run
      → Control call (replace_response text)
      → Inv (with_workspace run (apply_replace run.workspace call text).0)
  pub keeps_patch :
      (run : GenerationRun) (call : ToolCall) (revision : ℕ) (ops : List ResponsePatchOperation)
      → Inv run
      → Control call (patch_response revision ops)
      → Inv (with_workspace run (apply_patch run.workspace call revision ops).0)
  pub says_panic :
      (call : ToolCall) (response : Option Text)
      → is_finish call ≡ false
      → Control call (finish response)
      → Says panicked
  pub keeps_commit :
      (run : GenerationRun) (call : ToolCall) (response : Option Text)
      → Inv run
      → Control call (finish response)
      → Inv (with_workspace run (commit_finish run.workspace response).0)
  pub says_finished :
      (run : GenerationRun) (call : ToolCall) (response : Option Text) (text : Text)
      → Inv run
      → Control call (finish response)
      → (commit_finish run.workspace response).1 ≡ committed text
      → Says (
          finished text
            (completed_run (with_workspace run (commit_finish run.workspace response).0)))

module _ {h : Harness} {Inv : GenerationRun → Type 0} {Says : HarnessEvent → Type 0}
    {Control : ToolCall → ToolControl → Type 0} (r : Rules h Inv Says Control) where
  abbrev Pending : Option (ToolCall × Option Text) → Type 0
  Pending none = Unit
  Pending (some (call, response)) = Control call (finish response)

  abbrev StateOk : RoundState → Type 0
  StateOk s = Inv s.run × Pending s.pending_finish

  GoodCall : Traced CallEnd → Type 0
  GoodCall (es, halt) = All Says es
  GoodCall (es, break s) = All Says es × StateOk s
  GoodCall (es, next s) = All Says es × StateOk s

  GoodCalls : Traced CallsEnd → Type 0
  GoodCalls (es, halted) = All Says es
  GoodCalls (es, through s) = All Says es × StateOk s

  GoodRound : Traced RoundEnd → Type 0
  GoodRound (es, ended) = All Says es
  GoodRound (es, again l) = All Says es × Inv l.run

  changed-All : (st : ToolResultStatus) (n : ℕ) → All Says (changed_event st n)
  changed-All ok n = (r.says_changed n, tt)
  changed-All _ n = tt

  status-All : (b : Bool) (message : Text) → All Says (visible_status b message)
  status-All true message = (r.says_status message, tt)
  status-All false message = tt

  apply_control-Good :
      (call : ToolCall) (s : RoundState) (result : ToolResult) (control : ToolControl)
      → StateOk s
      → is_finish call ≡ false
      → Control call control
      → GoodCall (apply_control h call s result control)
  unfolding apply_control GoodCall
  apply_control-Good call s result no_control k f c = ((r.says_result result, tt), k)
  apply_control-Good call s result (update_status message visible) k f c =
      ((r.says_result result, status-All _ message), k)
  apply_control-Good call s result (replace_response text) k f c =
      ((r.says_result _, changed-All _ _), (r.keeps_replace s.run call text k.0 c, k.1))
  apply_control-Good call s result (patch_response revision ops) k f c =
      ((r.says_result _, changed-All _ _), (r.keeps_patch s.run call revision ops k.0 c, k.1))
  apply_control-Good call s result (finish response) k f c = (r.says_panic call response f c, tt)

  apply_finish-Good :
      (call : ToolCall) (s : RoundState) (result : ToolResult) (control : ToolControl)
      → StateOk s
      → Control call control
      → GoodCall (apply_finish call s result control)
  unfolding apply_finish GoodCall
  apply_finish-Good call s result (finish response) k c = (tt, (k.0, c))
  apply_finish-Good call s result _ k c = ((r.says_result result, tt), k)

  apply_execution-Good :
      (call : ToolCall) (s : RoundState) (execution : ToolExecution)
      → StateOk s
      → Control call execution.control
      → GoodCall (apply_execution h call s execution)
  unfolding apply_execution
  apply_execution-Good call s execution k c = elim (Bool-cases (is_finish call)) [
    | inl e ↦ rw e (apply_finish-Good call s execution.result execution.control k c)
    | inr e ↦ rw e (apply_control-Good call s execution.result execution.control k e c)
  ]

  GoodCall-halt : (es : List HarnessEvent) → All Says es → GoodCall (es, halt)
  unfolding GoodCall
  GoodCall-halt es a = a

  await_call-Good :
      (moment : ℕ × ℕ) (call : ToolCall) (s : RoundState)
      → StateOk s
      → GoodCall (await_call h moment call s)
  unfolding await_call
  await_call-Good moment call s k = go (h.env.wait moment (exec_timeout_ms h call))
    where
      go : (w : Wait) → GoodCall (after_wait h moment call s w)
      go stop_requested = GoodCall-halt _ (r.says_stopped s.run k.0, tt)
      go elapsed = apply_execution-Good call s (timed_out call) k (r.times_out call)
      go ready = apply_execution-Good call s _ k (r.executes moment call)

  emit-GoodCall :
      (e : HarnessEvent) (t : Traced CallEnd) → Says e → GoodCall t → GoodCall (emit e t)
  unfolding GoodCall
  emit-GoodCall e (es, halt) q g = (q, g)
  emit-GoodCall e (es, break s) q g = ((q, g.0), g.1)
  emit-GoodCall e (es, next s) q g = ((q, g.0), g.1)

  skip_finish-Good :
      (call : ToolCall) (s : RoundState) (skipped : ToolResult)
      → StateOk s
      → GoodCall (skip_finish call s skipped)
  unfolding GoodCall
  skip_finish-Good call s skipped k = ((r.says_started call, (r.says_result skipped, tt)), k)

  run_call-Good :
      (moment : ℕ × ℕ) (call : ToolCall) (s : RoundState)
      → StateOk s
      → GoodCall (run_call h moment call s)
  unfolding run_call
  run_call-Good moment call s k = elim (Bool-cases (h.env.stop_at_call moment)) [
    | inl e ↦ rw e (GoodCall-halt _ (r.says_stopped s.run k.0, tt))
    | inr e ↦ rw e (elim (Bool-cases (is_finish call && s.preceding_failed)) [
      | inl f ↦ rw f (skip_finish-Good call s _ k)
      | inr f ↦ rw f (emit-GoodCall _ _ (r.says_started call) (await_call-Good moment call s k))
    ])
  ]

  prefix-GoodCalls :
      (es : List HarnessEvent) (t : Traced CallsEnd)
      → All Says es
      → GoodCalls t
      → GoodCalls (prefix es t)
  unfolding GoodCalls
  prefix-GoodCalls es (fs, halted) a g = All-append Says es fs a g
  prefix-GoodCalls es (fs, through s) a g = (All-append Says es fs a g.0, g.1)

  after_call-Good :
      (t : Traced CallEnd) (k : RoundState → Traced CallsEnd)
      → GoodCall t
      → ((s : RoundState) → StateOk s → GoodCalls (k s))
      → GoodCalls (after_call t k)
  unfolding GoodCall GoodCalls
  after_call-Good (es, halt) k g n = g
  after_call-Good (es, break s) k g n = g
  after_call-Good (es, next s) k g n = prefix-GoodCalls es (k s) g.0 (n s g.1)

  run_calls-Good :
      (round position : ℕ) (calls : List ToolCall) (s : RoundState)
      → StateOk s
      → GoodCalls (run_calls h round position calls s)
  unfolding run_calls
  run_calls-Good round position [] s k = unfold GoodCalls in (tt, k)
  run_calls-Good round position (call ∷ calls) s k =
      after_call-Good _ _ (run_call-Good (round, position) call s k)
        (λ s' k'. run_calls-Good round (position + 1) calls s' k')

  after_commit-Good :
      (s : RoundState) (call : ToolCall) (response : Option Text) (c : Committed)
      → StateOk s
      → Control call (finish response)
      → (commit_finish s.run.workspace response).1 ≡ c
      → GoodCalls
          (after_commit s call (with_workspace s.run (commit_finish s.run.workspace response).0) c)
  unfolding GoodCalls
  after_commit-Good s call response (committed text) k c e =
      (r.says_result _, (r.says_finished s.run call response text k.0 c e, tt))
  after_commit-Good s call response (not_committed code) k c e =
      ((r.says_result _, tt), (r.keeps_commit s.run call response k.0 c, k.1))

  commit-Good : (s : RoundState) → StateOk s → GoodCalls (commit s)
  unfolding commit
  commit-Good s k = go s.pending_finish k.1
    where
      go : (p : Option (ToolCall × Option Text)) → Pending p → GoodCalls (commit_pending s p)
      go none c = unfold GoodCalls in (tt, k)
      go (some (call, response)) c =
          after_commit-Good s call response (commit_finish s.run.workspace response).1 k c refl
