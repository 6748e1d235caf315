-- ===== src/AgentLoop/Limits.antt =====
-- How many tool calls the parts of a round start.
pub mod Calls
pub mod Reads
use shirita.Prelude.{
  ℕ, zero, suc, ◌+◌, ◌-◌, ◌%◌, ◌^◌, ◌≤◌, ◌<◌, ◌≡◌, refl, inl, inr, Option, none, some, Bool, true,
  false, List, [], ◌∷◌, ◌++◌, arith, Bool-cases, ltb, length, ◌&&◌, min, length-append,
}
use shirita.Text.{Text}
use shirita.Tools.{
  ToolCall, ToolCallTransport, native, xml, ToolExecution, ToolControl, ToolResult,
  ToolResultStatus, ok, finish, no_control, update_status, replace_response, patch_response,
}
use shirita.Model.{ChatRequest, text_delta, reasoning_delta, tool_call, end_of_turn, ModelEvent}
use shirita.Workspace.{Committed, committed, not_committed, commit_finish}
use shirita.Agent.{GenerationRun}
use shirita.AgentLoop.{
  HarnessEvent, Reply, refused, stream, usage, Failure, finished, stopped, failed, panicked,
  tool_started, Wait, stop_requested, elapsed, ready, StreamItem, cancelled, item, error, Harness,
  Traced, round_started,
}
use shirita.AgentLoop.Calls.{
  RoundState, CallEnd, halt, break, next, CallsEnd, halted, through, apply_control, apply_finish,
  apply_execution, after_wait, skip_finish, is_finish, await_call, run_call, run_calls, after_call,
  changed_event, visible_status, emit, prefix, exec_timeout_ms,
}
use shirita.AgentLoop.Rounds.{
  Drained, broken_off, drained, drain, LoopState, RoundEnd, ended, again, commit, perform,
  admit_round, run_round, rounds, run_harness, Read, unreadable, readable, read_round, after_read,
  after_drain, after_reply, after_round, after_choice, after_commit, commit_pending, closed,
  then_commit, count_round, bad_ids, too_many_repeats, takes_text, enter_round, choose_transport,
}

-- The calls that are started.
abbrev pub starts : List HarnessEvent → ℕ
starts [] = 0
starts (tool_started call ∷ es) = suc (starts es)
starts (_ ∷ es) = starts es

pub starts-append : (es fs : List HarnessEvent) → starts (es ++ fs) ≡ starts es + starts fs
starts-append [] fs = omega arith
starts-append (tool_started _ ∷ es) fs = omega (arith, starts-append es fs)
starts-append (round_started _ ∷ es) fs = starts-append es fs
starts-append (shirita.AgentLoop.tool_finished _ ∷ es) fs = starts-append es fs
starts-append (shirita.AgentLoop.status _ ∷ es) fs = starts-append es fs
starts-append (usage _ _ ∷ es) fs = starts-append es fs
starts-append (shirita.AgentLoop.workspace_changed _ ∷ es) fs = starts-append es fs
starts-append (finished _ _ ∷ es) fs = starts-append es fs
starts-append (stopped _ ∷ es) fs = starts-append es fs
starts-append (failed _ ∷ es) fs = starts-append es fs
starts-append (panicked ∷ es) fs = starts-append es fs

-- A part that starts at most `n` calls.
pub StartsAtMost : {A : Type 0} → ℕ → Traced A → Type 0
StartsAtMost n t = starts t.0 ≤ n

pub emit-StartsAtMost :
    {A : Type 0} (call : ToolCall) (n : ℕ) (t : Traced A)
    → StartsAtMost n t
    → StartsAtMost (suc n) (emit (tool_started call) t)
unfolding StartsAtMost
emit-StartsAtMost call n (es, a) q = omega (arith, q)

pub prefix-StartsAtMost :
    {A : Type 0} (n m : ℕ) (es : List HarnessEvent) (t : Traced A)
    → starts es ≤ n
    → StartsAtMost m t
    → StartsAtMost (n + m) (prefix es t)
unfolding StartsAtMost
prefix-StartsAtMost n m es (fs, a) p q = omega (arith, p, q, starts-append es fs)

pub more-StartsAtMost :
    {A : Type 0} (n m : ℕ) (t : Traced A) → n ≤ m → StartsAtMost n t → StartsAtMost m t
unfolding StartsAtMost
more-StartsAtMost n m t l q = omega (arith, l, q)

module _ (h : Harness) where
  starts-changed_event : (st : ToolResultStatus) (r : ℕ) → starts (changed_event st r) ≡ 0
  starts-changed_event ok r = refl
  starts-changed_event _ r = refl

  starts-visible_status : (b : Bool) (t : Text) → starts (visible_status b t) ≡ 0
  starts-visible_status true t = refl
  starts-visible_status false t = refl

  apply_control-StartsAtMost :
      (call : ToolCall) (s : RoundState) (result : ToolResult) (control : ToolControl)
      → StartsAtMost 0 (apply_control h call s result control)
  unfolding apply_control StartsAtMost
  apply_control-StartsAtMost call s result no_control = omega arith
  apply_control-StartsAtMost call s result (update_status message visible) =
      omega (arith, starts-visible_status (visible && h.settings.show_user_status) message)
  apply_control-StartsAtMost call s result (replace_response text) =
      omega (arith, starts-changed_event _ _)
  apply_control-StartsAtMost call s result (patch_response revision ops) =
      omega (arith, starts-changed_event _ _)
  apply_control-StartsAtMost call s result (finish response) = omega arith

  apply_finish-StartsAtMost :
      (call : ToolCall) (s : RoundState) (result : ToolResult) (control : ToolControl)
      → StartsAtMost 0 (apply_finish call s result control)
  unfolding apply_finish StartsAtMost
  apply_finish-StartsAtMost call s result (finish response) = omega arith
  apply_finish-StartsAtMost call s result _ = omega arith

  apply_execution-StartsAtMost :
      (call : ToolCall) (s : RoundState) (execution : ToolExecution)
      → StartsAtMost 0 (apply_execution h call s execution)
  unfolding apply_execution
  apply_execution-StartsAtMost call s execution = elim (Bool-cases (is_finish call)) [
    | inl e ↦ rw e (apply_finish-StartsAtMost call s execution.result execution.control)
    | inr e ↦ rw e (apply_control-StartsAtMost call s execution.result execution.control)
  ]

  stopped-StartsAtMost :
      {A : Type 0} (run : GenerationRun) (a : A) → StartsAtMost 0 (stopped run ∷ [], a)
  unfolding StartsAtMost
  stopped-StartsAtMost run a = omega arith

  await_call-StartsAtMost :
      (moment : ℕ × ℕ) (call : ToolCall) (s : RoundState)
      → StartsAtMost 0 (await_call h moment call s)
  unfolding await_call
  await_call-StartsAtMost moment call s = go (h.env.wait moment (exec_timeout_ms h call))
    where
      go : (w : Wait) → StartsAtMost 0 (after_wait h moment call s w)
      go stop_requested = stopped-StartsAtMost _ _
      go elapsed = apply_execution-StartsAtMost call s _
      go ready = apply_execution-StartsAtMost call s _

  skip_finish-StartsAtMost :
      (call : ToolCall) (s : RoundState) (r : ToolResult) → StartsAtMost 1 (skip_finish call s r)
  unfolding StartsAtMost
  skip_finish-StartsAtMost call s r = omega arith

  run_call-StartsAtMost :
      (moment : ℕ × ℕ) (call : ToolCall) (s : RoundState)
      → StartsAtMost 1 (run_call h moment call s)
  unfolding run_call
  run_call-StartsAtMost moment call s = elim (Bool-cases (h.env.stop_at_call moment)) [
    | inl e ↦ rw e (more-StartsAtMost 0 1 _ (omega arith) (stopped-StartsAtMost _ halt))
    | inr e ↦ rw e (elim (Bool-cases (is_finish call && s.preceding_failed)) [
      | inl f ↦ rw f (skip_finish-StartsAtMost call s _)
      | inr f ↦ rw f (emit-StartsAtMost call 0 _ (await_call-StartsAtMost moment call s))
    ])
  ]

  after_call-StartsAtMost :
      (n : ℕ) (t : Traced CallEnd) (k : RoundState → Traced CallsEnd)
      → StartsAtMost 1 t
      → ((s : RoundState) → StartsAtMost n (k s))
      → StartsAtMost (1 + n) (after_call t k)
  unfolding StartsAtMost
  after_call-StartsAtMost n (es, halt) k q f = omega (arith, q)
  after_call-StartsAtMost n (es, break s) k q f = omega (arith, q)
  after_call-StartsAtMost n (es, next s) k q f = prefix-StartsAtMost 1 n es (k s) q (f s)

  -- The calls of a round start at most once each.
  pub run_calls-StartsAtMost :
      (round position : ℕ) (calls : List ToolCall) (s : RoundState)
      → StartsAtMost (length calls) (run_calls h round position calls s)
  unfolding run_calls
  run_calls-StartsAtMost round position [] s = unfold StartsAtMost in omega arith
  run_calls-StartsAtMost round position (call ∷ calls) s =
      more-StartsAtMost (1 + length calls) (suc (length calls)) _ (omega arith) (
        after_call-StartsAtMost (length calls) _ _ (run_call-StartsAtMost (round, position) call s)
          (λ s'. run_calls-StartsAtMost round (position + 1) calls s'))
