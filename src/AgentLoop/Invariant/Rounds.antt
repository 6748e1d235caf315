-- ===== src/AgentLoop/Invariant/Rounds.antt =====
-- The rule of the parent, carried from the calls of a round to a whole run.
use shirita.Prelude.{
  ℕ, zero, suc, ◌+◌, inl, inr, Option, none, some, Bool, List, [], ◌∷◌, ◌++◌, Bool-cases, ltb, All,
  All-append,
}
use shirita.Text.{Text}
use shirita.Tools.{ToolCall, ToolCallTransport, ToolControl}
use shirita.Model.{ChatRequest, text_delta, reasoning_delta, tool_call, end_of_turn, ModelEvent}
use shirita.Agent.{GenerationRun}
use shirita.AgentLoop.{
  HarnessEvent, Reply, refused, stream, usage, Failure, failed, StreamItem, cancelled, item, error,
  Harness, Traced,
}
use shirita.AgentLoop.Calls.{CallsEnd, halted, through, run_calls, emit, prefix}
use shirita.AgentLoop.Rounds.{
  Drained, broken_off, drained, drain, LoopState, RoundEnd, ended, again, perform, admit_round,
  run_round, rounds, run_harness, Read, unreadable, readable, after_read, read_round, after_drain,
  after_reply, after_round, after_choice, closed, then_commit, count_round, bad_ids,
  too_many_repeats, takes_text, enter_round, choose_transport, start_loop,
}
use shirita.AgentLoop.Invariant.{
  Rules, GoodCalls, GoodRound, prefix-GoodCalls, run_calls-Good, commit-Good,
}

module _ {h : Harness} {Inv : GenerationRun → Type 0} {Says : HarnessEvent → Type 0}
    {Control : ToolCall → ToolControl → Type 0} (r : Rules h Inv Says Control) where
  then_commit-Good : (t : Traced CallsEnd) → GoodCalls r t → GoodCalls r (then_commit t)
  unfolding GoodCalls
  then_commit-Good (es, halted) g = g
  then_commit-Good (es, through s) g = prefix-GoodCalls r es _ g.0 (commit-Good r s g.1)

  module _ (transport : ToolCallTransport) where
    closed-Good :
        (l : LoopState) (working : Text) (calls : List ToolCall) (t : Traced CallsEnd)
        → GoodCalls r t
        → GoodRound r (closed h transport l working calls t)
    unfolding GoodCalls GoodRound
    closed-Good l working calls (es, halted) g = g
    closed-Good l working calls (es, through s) g = (g.0, g.1.0)

    failed-Good : (f : Failure) → GoodRound r (failed f ∷ [], ended)
    unfolding GoodRound
    failed-Good f = (r.says_failed f, tt)

    admit_round-Good :
        (round : ℕ) (l : LoopState) (working : Text) (calls : List ToolCall)
        → Inv l.run
        → GoodRound r (admit_round h transport round l working calls)
    unfolding admit_round perform
    admit_round-Good round l working calls k =
        let l' = count_round h l calls in
        elim (Bool-cases (bad_ids [] calls)) [
          | inl e ↦ rw e (failed-Good _)
          | inr e ↦ rw e (elim (Bool-cases (ltb h.settings.max_tool_calls l'.total_calls)) [
            | inl f ↦ rw f (failed-Good _)
            | inr f ↦ rw f (elim (Bool-cases (too_many_repeats h l' calls)) [
              | inl g ↦ rw g (failed-Good _)
              | inr g ↦ rw g (
                  closed-Good l' working calls _ (
                    then_commit-Good _
                      (run_calls-Good r round 0 calls _ (r.keeps_count l.run _ k, tt))))
            ])
          ])
        ]

    after_read-Good :
        (round : ℕ) (l : LoopState) (x : Read)
        → Inv l.run
        → GoodRound r (after_read h transport round l x)
    after_read-Good round l (unreadable e) k = failed-Good _
    after_read-Good round l (readable working calls) k = admit_round-Good round l working calls k

    DrainOk : Traced Drained → Type 0
    DrainOk t = All Says t.0

    emit-DrainOk : (e : HarnessEvent) (t : Traced Drained) → Says e → DrainOk t → DrainOk (emit e t)
    unfolding DrainOk
    emit-DrainOk e (es, d) q a = (q, a)

    one-DrainOk : (e : HarnessEvent) (d : Drained) → Says e → DrainOk (e ∷ [], d)
    unfolding DrainOk
    one-DrainOk e d q = (q, tt)

    drain-Ok :
        (run : GenerationRun) (working : Text) (calls : List ToolCall) (parts : List StreamItem)
        → Inv run
        → DrainOk (drain transport run working calls parts)
    unfolding drain
    drain-Ok run working calls [] k = unfold DrainOk in tt
    drain-Ok run working calls (cancelled ∷ rest) k =
        one-DrainOk _ broken_off (r.says_stopped run k)
    drain-Ok run working calls (error e ∷ rest) k = one-DrainOk _ broken_off (r.says_failed _)
    drain-Ok run working calls (item (text_delta t) ∷ rest) k =
        elim (Bool-cases (takes_text transport working t)) [
          | inl e ↦ rw e (drain-Ok run (working ++ t) calls rest k)
          | inr e ↦ rw e (one-DrainOk _ broken_off (r.says_failed _))
        ]
    drain-Ok run working calls (item (reasoning_delta t) ∷ rest) k =
        elim (Bool-cases (takes_text transport working t)) [
          | inl e ↦ rw e (drain-Ok run (working ++ t) calls rest k)
          | inr e ↦ rw e (one-DrainOk _ broken_off (r.says_failed _))
        ]
    drain-Ok run working calls (item (tool_call call) ∷ rest) k =
        drain-Ok run working (calls ++ call ∷ []) rest k
    drain-Ok run working calls (item (ModelEvent.usage a b) ∷ rest) k =
        emit-DrainOk _ _ (r.says_usage a b) (drain-Ok run working calls rest k)
    drain-Ok run working calls (item (end_of_turn reason) ∷ rest) k =
        drain-Ok run working calls rest k

    prefix-GoodRound :
        (es : List HarnessEvent) (t : Traced RoundEnd)
        → All Says es
        → GoodRound r t
        → GoodRound r (prefix es t)
    unfolding GoodRound
    prefix-GoodRound es (fs, ended) a g = All-append Says es fs a g
    prefix-GoodRound es (fs, again l) a g = (All-append Says es fs a g.0, g.1)

    emit-GoodRound :
        (e : HarnessEvent) (t : Traced RoundEnd) → Says e → GoodRound r t → GoodRound r (emit e t)
    unfolding GoodRound
    emit-GoodRound e (es, ended) q g = (q, g)
    emit-GoodRound e (es, again l) q g = ((q, g.0), g.1)

    after_drain-Good :
        (round : ℕ) (l : LoopState) (t : Traced Drained)
        → Inv l.run
        → DrainOk t
        → GoodRound r (after_drain h transport round l t)
    unfolding DrainOk
    after_drain-Good round l (es, broken_off) k a = unfold GoodRound in a
    after_drain-Good round l (es, drained working calls) k a =
        prefix-GoodRound es _ a
          (after_read-Good round l (read_round h.serde transport working calls) k)

    after_reply-Good :
        (round : ℕ) (l : LoopState) (x : Reply)
        → Inv l.run
        → GoodRound r (after_reply h transport round l x)
    after_reply-Good round l (refused e) k = failed-Good _
    after_reply-Good round l (stream parts) k =
        after_drain-Good round l _ k (drain-Ok l.run [] [] parts k)

    stopped-Good :
        (l : LoopState)
        → Inv l.run
        → GoodRound r
            (shirita.AgentLoop.stopped (shirita.AgentLoop.Calls.stop_run l.run) ∷ [], ended)
    unfolding GoodRound
    stopped-Good l k = (r.says_stopped l.run k, tt)

    run_round-Good :
        (round : ℕ) (l : LoopState) → Inv l.run → GoodRound r (run_round h transport round l)
    unfolding run_round
    run_round-Good round l k = elim (Bool-cases (h.env.stop_at_round round)) [
      | inl e ↦ rw e (stopped-Good l k)
      | inr e ↦
          let k' = r.keeps_round l.run round k in
          rw e (
            emit-GoodRound _ _ (r.says_round _ k')
              (after_reply-Good round (enter_round l round) _ k'))
    ]

    after_round-All :
        (t : Traced RoundEnd) (k : LoopState → List HarnessEvent)
        → GoodRound r t
        → ((l : LoopState) → Inv l.run → All Says (k l))
        → All Says (after_round t k)
    unfolding GoodRound
    after_round-All (es, ended) k g n = g
    after_round-All (es, again l) k g n = All-append Says es (k l) g.0 (n l g.1)

    rounds-All :
        (round left : ℕ) (l : LoopState) → Inv l.run → All Says (rounds h transport round left l)
    unfolding rounds
    rounds-All round zero l k = (r.says_failed _, tt)
    rounds-All round (suc left) l k =
        after_round-All _ _ (run_round-Good round l k) (λ l' k'. rounds-All (round + 1) left l' k')

  -- Every event of a run that starts with the invariant meets the predicate.
  pub run_harness-All :
      (request : ChatRequest) (native_supported : Bool) (run : GenerationRun)
      → Inv run
      → All Says (run_harness h request native_supported run)
  unfolding run_harness
  run_harness-All request native_supported run k =
      go (choose_transport h.settings.transport native_supported)
    where
      go : (c : Option ToolCallTransport) → All Says (after_choice h request run c)
      go none = (r.says_failed _, tt)
      go (some transport) =
          rounds-All transport 1 h.settings.max_rounds (start_loop h transport request run) k
