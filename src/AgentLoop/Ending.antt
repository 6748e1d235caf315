-- ===== src/AgentLoop/Ending.antt =====
-- A run of the agent loop ends once: its last event, and no other, is terminal.
use shirita.Prelude.{
  ℕ, zero, suc, ◌+◌, ◌≡◌, refl, inl, inr, Option, none, some, Bool, true, false, List, [], ◌∷◌,
  ◌++◌, arith, Bool-cases, ltb, ◌&&◌,
}
use shirita.Text.{Text}
use shirita.Tools.{
  ToolCall, ToolCallTransport, ToolExecution, ToolControl, ToolResult, ToolResultStatus, ok, finish,
  no_control, update_status, replace_response, patch_response,
}
use shirita.Model.{ChatRequest, text_delta, reasoning_delta, tool_call, end_of_turn, ModelEvent}
use shirita.Workspace.{Committed, committed, not_committed, commit_finish}
use shirita.Agent.{GenerationRun}
use shirita.AgentLoop.{
  HarnessEvent, Reply, refused, stream, usage, Failure, finished, stopped, failed, panicked,
  tool_started, Wait, stop_requested, elapsed, ready, StreamItem, cancelled, item, error, Harness,
  Traced,
}
use shirita.AgentLoop.Calls.{
  RoundState, CallEnd, halt, break, next, CallsEnd, halted, through, apply_control, apply_finish,
  apply_execution, after_wait, skip_finish, is_finish, await_call, run_call, run_calls, after_call,
  changed_event, emit, prefix, exec_timeout_ms,
}
use shirita.AgentLoop.Rounds.{
  Drained, broken_off, drained, drain, LoopState, RoundEnd, ended, again, commit, perform,
  admit_round, run_round, rounds, run_harness, Read, unreadable, readable, read_round, after_read,
  after_drain, after_reply, after_round, after_choice, after_commit, commit_pending, closed,
  then_commit, count_round, bad_ids, too_many_repeats, takes_text, enter_round, choose_transport,
}

abbrev pub is_terminal : HarnessEvent → Bool
is_terminal (finished _ _) = true
is_terminal (stopped _) = true
is_terminal (failed _) = true
is_terminal panicked = true
is_terminal _ = false

abbrev pub Quiet : List HarnessEvent → Type 0
Quiet [] = Unit
Quiet (e ∷ es) = (is_terminal e ≡ false) × Quiet es

-- The last event is terminal, and no other is.
abbrev pub EndsOnce : List HarnessEvent → Type 0
EndsOnce [] = ⊥
EndsOnce (e ∷ []) = is_terminal e ≡ true
EndsOnce (e ∷ f ∷ es) = (is_terminal e ≡ false) × EndsOnce (f ∷ es)

EndsOnce-cons :
    (e : HarnessEvent) (es : List HarnessEvent)
    → is_terminal e ≡ false
    → EndsOnce es
    → EndsOnce (e ∷ es)
EndsOnce-cons e [] q h = absurd h
EndsOnce-cons e (f ∷ es) q h = (q, h)

EndsOnce-append : (es fs : List HarnessEvent) → Quiet es → EndsOnce fs → EndsOnce (es ++ fs)
EndsOnce-append [] fs q h = h
EndsOnce-append (e ∷ es) fs q h = EndsOnce-cons e (es ++ fs) q.0 (EndsOnce-append es fs q.1 h)

Quiet-append : (es fs : List HarnessEvent) → Quiet es → Quiet fs → Quiet (es ++ fs)
Quiet-append [] fs q r = r
Quiet-append (e ∷ es) fs q r = (q.0, Quiet-append es fs q.1 r)

-- A part that returns ends the run; one that goes on yields no terminal event.
abbrev Result : Bool → List HarnessEvent → Type 0
Result true es = EndsOnce es
Result false es = Quiet es

-- `over` tells which ends of a part are returns.
Ends : {A : Type 0} (over : A → Bool) → Traced A → Type 0
Ends over t = Result (over t.1) t.0

module _ {A : Type 0} (over : A → Bool) where
  Ends-intro : (es : List HarnessEvent) (a : A) → Result (over a) es → Ends over (es, a)
  unfolding Ends
  Ends-intro es a q = q

  Result-append :
      (b : Bool) (es fs : List HarnessEvent) → Quiet es → Result b fs → Result b (es ++ fs)
  Result-append true es fs q r = EndsOnce-append es fs q r
  Result-append false es fs q r = Quiet-append es fs q r

  Ends-prefix :
      (es : List HarnessEvent) (t : Traced A) → Quiet es → Ends over t → Ends over (prefix es t)
  unfolding Ends
  Ends-prefix es (fs, a) q r = Result-append (over a) es fs q r

  Ends-emit :
      (e : HarnessEvent) (t : Traced A) → is_terminal e ≡ false → Ends over t → Ends over (emit e t)
  unfolding Ends
  Ends-emit e (fs, a) q r = Result-append (over a) (e ∷ []) fs (q, tt) r

abbrev halts : CallEnd → Bool
halts halt = true
halts _ = false

abbrev returns : CallsEnd → Bool
returns halted = true
returns (through s) = false

abbrev breaks_off : Drained → Bool
breaks_off broken_off = true
breaks_off (drained working calls) = false

abbrev is_over : RoundEnd → Bool
is_over ended = true
is_over (again l) = false

changed_event-Quiet : (st : ToolResultStatus) (r : ℕ) → Quiet (changed_event st r)
changed_event-Quiet ok r = (refl, tt)
changed_event-Quiet _ r = tt

skip_finish-Ends :
    (call : ToolCall) (s : RoundState) (r : ToolResult) → Ends halts (skip_finish call s r)
unfolding Ends
skip_finish-Ends call s r = (refl, (refl, tt))

module _ (h : Harness) where
  apply_control-Ends :
      (call : ToolCall) (s : RoundState) (result : ToolResult) (control : ToolControl)
      → Ends halts (apply_control h call s result control)
  unfolding apply_control Ends
  apply_control-Ends call s result no_control = (refl, tt)
  apply_control-Ends call s result (update_status message visible) = ground arith
  apply_control-Ends call s result (replace_response text) = (refl, changed_event-Quiet _ _)
  apply_control-Ends call s result (patch_response revision ops) = (refl, changed_event-Quiet _ _)
  apply_control-Ends call s result (finish response) = refl

  apply_finish-Ends :
      (call : ToolCall) (s : RoundState) (result : ToolResult) (control : ToolControl)
      → Ends halts (apply_finish call s result control)
  unfolding apply_finish Ends
  apply_finish-Ends call s result (finish response) = tt
  apply_finish-Ends call s result _ = (refl, tt)

  apply_execution-Ends :
      (call : ToolCall) (s : RoundState) (execution : ToolExecution)
      → Ends halts (apply_execution h call s execution)
  unfolding apply_execution
  apply_execution-Ends call s execution = elim (Bool-cases (is_finish call)) [
    | inl e ↦ rw e (apply_finish-Ends call s execution.result execution.control)
    | inr e ↦ rw e (apply_control-Ends call s execution.result execution.control)
  ]

  await_call-Ends :
      (moment : ℕ × ℕ) (call : ToolCall) (s : RoundState) → Ends halts (await_call h moment call s)
  unfolding await_call
  await_call-Ends moment call s = go (h.env.wait moment (exec_timeout_ms h call))
    where
      go : (w : Wait) → Ends halts (after_wait h moment call s w)
      go stop_requested = Ends-intro halts _ halt refl
      go elapsed = apply_execution-Ends call s _
      go ready = apply_execution-Ends call s _

  run_call-Ends :
      (moment : ℕ × ℕ) (call : ToolCall) (s : RoundState) → Ends halts (run_call h moment call s)
  unfolding run_call
  run_call-Ends moment call s = elim (Bool-cases (h.env.stop_at_call moment)) [
    | inl e ↦ rw e (Ends-intro halts _ halt refl)
    | inr e ↦ rw e (elim (Bool-cases (is_finish call && s.preceding_failed)) [
      | inl f ↦ rw f (skip_finish-Ends call s _)
      | inr f ↦ rw f (Ends-emit halts (tool_started call) _ refl (await_call-Ends moment call s))
    ])
  ]

  after_call-Ends :
      (t : Traced CallEnd) (k : RoundState → Traced CallsEnd)
      → Ends halts t
      → ((s : RoundState) → Ends returns (k s))
      → Ends returns (after_call t k)
  unfolding Ends
  after_call-Ends (es, halt) k q r = q
  after_call-Ends (es, break s) k q r = q
  after_call-Ends (es, next s) k q r = Ends-prefix returns es (k s) q (r s)

  run_calls-Ends :
      (round position : ℕ) (calls : List ToolCall) (s : RoundState)
      → Ends returns (run_calls h round position calls s)
  unfolding run_calls
  run_calls-Ends round position [] s = Ends-intro returns [] (through s) tt
  run_calls-Ends round position (call ∷ calls) s =
      after_call-Ends _ _ (run_call-Ends (round, position) call s)
        (λ s'. run_calls-Ends round (position + 1) calls s')

after_commit-Ends :
    (s : RoundState) (call : ToolCall) (run : GenerationRun) (c : Committed)
    → Ends returns (after_commit s call run c)
unfolding Ends
after_commit-Ends s call run (committed text) = (refl, refl)
after_commit-Ends s call run (not_committed code) = (refl, tt)

commit-Ends : (s : RoundState) → Ends returns (commit s)
unfolding commit
commit-Ends s = go s.pending_finish
  where
    go : (p : Option (ToolCall × Option Text)) → Ends returns (commit_pending s p)
    go none = Ends-intro returns [] (through s) tt
    go (some (call, response)) =
        after_commit-Ends s call _ (commit_finish s.run.workspace response).1

drain-Ends :
    (transport : ToolCallTransport) (run : GenerationRun) (working : Text) (calls : List ToolCall)
    (parts : List StreamItem)
    → Ends breaks_off (drain transport run working calls parts)
unfolding drain
drain-Ends transport run working calls [] = Ends-intro breaks_off [] (drained working calls) tt
drain-Ends transport run working calls (cancelled ∷ rest) = Ends-intro breaks_off _ broken_off refl
drain-Ends transport run working calls (error e ∷ rest) = Ends-intro breaks_off _ broken_off refl
drain-Ends transport run working calls (item (text_delta t) ∷ rest) =
    elim (Bool-cases (takes_text transport working t)) [
      | inl e ↦ rw e (drain-Ends transport run (working ++ t) calls rest)
      | inr e ↦ rw e (Ends-intro breaks_off _ broken_off refl)
    ]
drain-Ends transport run working calls (item (reasoning_delta t) ∷ rest) =
    elim (Bool-cases (takes_text transport working t)) [
      | inl e ↦ rw e (drain-Ends transport run (working ++ t) calls rest)
      | inr e ↦ rw e (Ends-intro breaks_off _ broken_off refl)
    ]
drain-Ends transport run working calls (item (tool_call call) ∷ rest) =
    drain-Ends transport run working (calls ++ call ∷ []) rest
drain-Ends transport run working calls (item (ModelEvent.usage a b) ∷ rest) =
    Ends-emit breaks_off (usage a b) _ refl (drain-Ends transport run working calls rest)
drain-Ends transport run working calls (item (end_of_turn reason) ∷ rest) =
    drain-Ends transport run working calls rest

module _ (h : Harness) (transport : ToolCallTransport) (round : ℕ) where
  closed-Ends :
      (l : LoopState) (working : Text) (calls : List ToolCall) (t : Traced CallsEnd)
      → Ends returns t
      → Ends is_over (closed h transport l working calls t)
  unfolding Ends
  closed-Ends l working calls (es, halted) q = q
  closed-Ends l working calls (es, through s) q = q

  then_commit-Ends : (t : Traced CallsEnd) → Ends returns t → Ends returns (then_commit t)
  unfolding Ends
  then_commit-Ends (es, halted) q = q
  then_commit-Ends (es, through s) q = Ends-prefix returns es (commit s) q (commit-Ends s)

  failed-Ends : (f : Failure) → Ends is_over (failed f ∷ [], ended)
  failed-Ends f = Ends-intro is_over _ ended refl

  admit_round-Ends :
      (l : LoopState) (working : Text) (calls : List ToolCall)
      → Ends is_over (admit_round h transport round l working calls)
  unfolding admit_round perform
  admit_round-Ends l working calls =
      let l' = count_round h l calls in
      elim (Bool-cases (bad_ids [] calls)) [
        | inl e ↦ rw e (failed-Ends _)
        | inr e ↦ rw e (elim (Bool-cases (ltb h.settings.max_tool_calls l'.total_calls)) [
          | inl f ↦ rw f (failed-Ends _)
          | inr f ↦ rw f (elim (Bool-cases (too_many_repeats h l' calls)) [
            | inl g ↦ rw g (failed-Ends _)
            | inr g ↦ rw g (
                closed-Ends l' working calls _
                  (then_commit-Ends _ (run_calls-Ends h round 0 calls _)))
          ])
        ])
      ]

  after_read-Ends : (l : LoopState) (r : Read) → Ends is_over (after_read h transport round l r)
  after_read-Ends l (unreadable e) = failed-Ends _
  after_read-Ends l (readable working calls) = admit_round-Ends l working calls

  after_drain-Ends :
      (l : LoopState) (t : Traced Drained)
      → Ends breaks_off t
      → Ends is_over (after_drain h transport round l t)
  unfolding Ends
  after_drain-Ends l (es, broken_off) q = q
  after_drain-Ends l (es, drained working calls) q =
      Ends-prefix is_over es _ q (after_read-Ends l (read_round h.serde transport working calls))

  after_reply-Ends : (l : LoopState) (r : Reply) → Ends is_over (after_reply h transport round l r)
  after_reply-Ends l (refused e) = failed-Ends _
  after_reply-Ends l (stream parts) = after_drain-Ends l _ (drain-Ends transport l.run [] [] parts)

  run_round-Ends : (l : LoopState) → Ends is_over (run_round h transport round l)
  unfolding run_round
  run_round-Ends l = elim (Bool-cases (h.env.stop_at_round round)) [
    | inl e ↦ rw e (Ends-intro is_over _ ended refl)
    | inr e ↦ rw e (Ends-emit is_over _ _ refl (after_reply-Ends (enter_round l round) _))
  ]

  after_round-EndsOnce :
      (t : Traced RoundEnd) (k : LoopState → List HarnessEvent)
      → Ends is_over t
      → ((l : LoopState) → EndsOnce (k l))
      → EndsOnce (after_round t k)
  unfolding Ends
  after_round-EndsOnce (es, ended) k q r = q
  after_round-EndsOnce (es, again l) k q r = EndsOnce-append es (k l) q (r l)

module _ (h : Harness) where
  rounds-EndsOnce :
      (transport : ToolCallTransport) (round left : ℕ) (l : LoopState)
      → EndsOnce (rounds h transport round left l)
  unfolding rounds
  rounds-EndsOnce transport round zero l = refl
  rounds-EndsOnce transport round (suc left) l =
      after_round-EndsOnce h transport round _ _ (run_round-Ends h transport round l)
        (λ l'. rounds-EndsOnce transport (round + 1) left l')

  -- If the provider answers every request, with an error or with a stream that ends or is cancelled
  -- after finitely many items, as `Reply` says, then, whatever else the provider, the tools, the clock
  -- and the stop token do, the events of a run end with a terminal event (finished, stopped or failed,
  -- or the panic), and no event before it is terminal.
  pub run_harness-EndsOnce :
      (request : ChatRequest) (native_supported : Bool) (run : GenerationRun)
      → EndsOnce (run_harness h request native_supported run)
  unfolding run_harness
  run_harness-EndsOnce request native_supported run =
      go (choose_transport h.settings.transport native_supported)
    where
      go : (c : Option ToolCallTransport) → EndsOnce (after_choice h request run c)
      go none = refl
      go (some transport) = rounds-EndsOnce transport 1 h.settings.max_rounds _
