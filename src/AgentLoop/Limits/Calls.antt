-- ===== src/AgentLoop/Limits/Calls.antt =====
-- A run starts no more calls than its settings allow.
use shirita.Prelude.{
  ℕ, zero, suc, ◌+◌, ◌≤◌, ◌<◌, ◌≡◌, ◌^◌, refl, inl, inr, Option, none, some, Bool, List, [], ◌∷◌,
  arith, Bool-cases, ltb, length,
}
use shirita.Text.{Text}
use shirita.Tools.{ToolCall, ToolCallTransport}
use shirita.Model.{ChatRequest}
use shirita.Workspace.{Committed, committed, not_committed, commit_finish}
use shirita.Agent.{GenerationRun}
use shirita.AgentLoop.{
  HarnessEvent, Reply, refused, stream, failed, Failure, StreamItem, Harness, Traced, stopped,
  round_started,
}
use shirita.AgentLoop.Calls.{RoundState, CallsEnd, halted, through, emit, prefix, stop_run}
use shirita.AgentLoop.Rounds.{
  Drained, broken_off, drained, LoopState, RoundEnd, ended, again, commit, perform, start_loop,
  admit_round, run_round, rounds, run_harness, Read, unreadable, readable, after_read, after_drain,
  after_reply, after_round, after_choice, after_commit, commit_pending, closed, then_commit,
  count_round, count_calls, bad_ids, too_many_repeats, enter_round, choose_transport, u32_max,
}
use shirita.AgentLoop.Limits.{
  starts, StartsAtMost, starts-append, prefix-StartsAtMost, more-StartsAtMost,
  run_calls-StartsAtMost,
}
use shirita.AgentLoop.Limits.Reads.{FewRead, Holds, drain-calls, read_round-FewRead}

after_commit-StartsAtMost :
    (s : RoundState) (call : ToolCall) (run : GenerationRun) (c : Committed)
    → StartsAtMost 0 (after_commit s call run c)
unfolding StartsAtMost
after_commit-StartsAtMost s call run (committed text) = omega arith
after_commit-StartsAtMost s call run (not_committed code) = omega arith

commit-StartsAtMost : (s : RoundState) → StartsAtMost 0 (commit s)
unfolding commit
commit-StartsAtMost s = go s.pending_finish
  where
    go : (p : Option (ToolCall × Option Text)) → StartsAtMost 0 (commit_pending s p)
    go none = unfold StartsAtMost in omega arith
    go (some (call, response)) =
        after_commit-StartsAtMost s call _ (commit_finish s.run.workspace response).1

then_commit-StartsAtMost :
    (n : ℕ) (t : Traced CallsEnd) → StartsAtMost n t → StartsAtMost n (then_commit t)
unfolding StartsAtMost
then_commit-StartsAtMost n (es, halted) q = q
then_commit-StartsAtMost n (es, through s) q =
    more-StartsAtMost (n + 0) n (prefix es (commit s)) (omega arith)
      (prefix-StartsAtMost n 0 es (commit s) q (commit-StartsAtMost s))

-- With `total` calls counted before it and at most `most` allowed, a round starts no call too many,
-- and leaves a count of them.
Counted : ℕ → ℕ → Traced RoundEnd → Type 0
Counted most total (es, ended) = starts es + total ≤ most
Counted most total (es, again l) = (starts es + total ≤ l.total_calls) × (l.total_calls ≤ most)

closed-Counted :
    (h : Harness) (transport : ToolCallTransport) (l : LoopState) (working : Text)
    (calls : List ToolCall) (t : Traced CallsEnd) (most total n : ℕ)
    → StartsAtMost n t
    → n + total ≡ l.total_calls
    → l.total_calls ≤ most
    → Counted most total (closed h transport l working calls t)
unfolding StartsAtMost Counted
closed-Counted h transport l working calls (es, halted) most total n q e m = omega (arith, q, e, m)
closed-Counted h transport l working calls (es, through s) most total n q e m =
    (omega (arith, q, e, m), m)

counted :
    (total n most : ℕ)
    → n < 2 ^ 32
    → most < u32_max
    → count_calls total n ≤ most
    → n + total ≡ count_calls total n
counted total n most l m q = omega (arith, l, m, q)

-- The replies of the provider hold fewer items than a counter of 32 bits counts.
abbrev pub ShortReplies : Harness → Type 0
ShortReplies h =
    (round : ℕ) (request : ChatRequest) (parts : List StreamItem)
    → h.env.respond round request ≡ stream parts
    → length parts < 2 ^ 32

module _ (h : Harness) (limit : h.settings.max_tool_calls < u32_max)
    (transport : ToolCallTransport) where
  failed-Counted :
      (f : Failure) (total : ℕ)
      → total ≤ h.settings.max_tool_calls
      → Counted h.settings.max_tool_calls total (failed f ∷ [], ended)
  unfolding Counted
  failed-Counted f total k = omega (arith, k)

  admit_round-Counted :
      (round : ℕ) (l : LoopState) (working : Text) (calls : List ToolCall)
      → l.total_calls ≤ h.settings.max_tool_calls
      → length calls < 2 ^ 32
      → Counted h.settings.max_tool_calls l.total_calls
          (admit_round h transport round l working calls)
  unfolding admit_round perform
  admit_round-Counted round l working calls k few =
      let l' = count_round h l calls in
      elim (Bool-cases (bad_ids [] calls)) [
        | inl e ↦ rw e (failed-Counted _ _ k)
        | inr e ↦ rw e (elim (Bool-cases (ltb h.settings.max_tool_calls l'.total_calls)) [
          | inl f ↦ rw f (failed-Counted _ _ k)
          | inr f ↦
              let within : l'.total_calls ≤ h.settings.max_tool_calls = ground arith in
              rw f (elim (Bool-cases (too_many_repeats h l' calls)) [
                | inl g ↦ rw g (failed-Counted _ _ k)
                | inr g ↦ rw g (
                    closed-Counted h transport l' working calls _ h.settings.max_tool_calls
                      l.total_calls (length calls)
                      (then_commit-StartsAtMost _ _ (run_calls-StartsAtMost h round 0 calls _))
                      (counted l.total_calls (length calls) h.settings.max_tool_calls few limit
                        within)
                      within)
              ])
        ])
      ]

  abbrev most : ℕ
  most = h.settings.max_tool_calls

  prefix-Counted :
      (total : ℕ) (es : List HarnessEvent) (t : Traced RoundEnd)
      → starts es ≡ 0
      → Counted most total t
      → Counted most total (prefix es t)
  unfolding Counted
  prefix-Counted total es (fs, ended) z q = omega (arith, z, q, starts-append es fs)
  prefix-Counted total es (fs, again l) z q = (omega (arith, z, q.0, starts-append es fs), q.1)

  entered-Counted :
      (total : ℕ) (run : GenerationRun) (t : Traced RoundEnd)
      → Counted most total t
      → Counted most total (emit (round_started run) t)
  unfolding Counted
  entered-Counted total run (es, ended) q = q
  entered-Counted total run (es, again l) q = q

  after_read-Counted :
      (round : ℕ) (l : LoopState) (x : Read)
      → l.total_calls ≤ most
      → FewRead x
      → Counted most l.total_calls (after_read h transport round l x)
  after_read-Counted round l (unreadable e) k f = failed-Counted _ _ k
  after_read-Counted round l (readable working calls) k f =
      admit_round-Counted round l working calls k f

  ended-Counted :
      (total : ℕ) (es : List HarnessEvent)
      → total ≤ most
      → starts es ≡ 0
      → Counted most total (es, ended)
  unfolding Counted
  ended-Counted total es k z = omega (arith, k, z)

  after_drain-Counted :
      (round n : ℕ) (l : LoopState) (t : Traced Drained)
      → l.total_calls ≤ most
      → n < 2 ^ 32
      → starts t.0 ≡ 0
      → Holds n t.1
      → Counted most l.total_calls (after_drain h transport round l t)
  after_drain-Counted round n l (es, broken_off) k few z f = ended-Counted _ es k z
  after_drain-Counted round n l (es, drained working calls) k few z f = prefix-Counted _ es _ z (
      after_read-Counted round l _ k
        (read_round-FewRead h.serde transport working calls (omega (arith, few, f))))

  after_reply-Counted :
      (round : ℕ) (l : LoopState) (x : Reply)
      → l.total_calls ≤ most
      → ((parts : List StreamItem) → x ≡ stream parts → length parts < 2 ^ 32)
      → Counted most l.total_calls (after_reply h transport round l x)
  after_reply-Counted round l (refused e) k short = failed-Counted _ _ k
  after_reply-Counted round l (stream parts) k short =
      let d = drain-calls transport l.run parts in
      after_drain-Counted round (length parts) l _ k (short parts refl) d.0 d.1

  run_round-Counted :
      (round : ℕ) (l : LoopState)
      → ShortReplies h
      → l.total_calls ≤ most
      → Counted most l.total_calls (run_round h transport round l)
  unfolding run_round
  run_round-Counted round l short k = elim (Bool-cases (h.env.stop_at_round round)) [
    | inl e ↦ rw e (ended-Counted _ (stopped (stop_run l.run) ∷ []) k refl)
    | inr e ↦ rw e (
        entered-Counted _ _ _
          (after_reply-Counted round (enter_round l round) _ k (λ parts q. short round _ parts q)))
  ]

  starts-after_round :
      (total : ℕ) (t : Traced RoundEnd) (k : LoopState → List HarnessEvent)
      → Counted most total t
      → ((l : LoopState) → l.total_calls ≤ most → starts (k l) + l.total_calls ≤ most)
      → starts (after_round t k) + total ≤ most
  unfolding Counted
  starts-after_round total (es, ended) k q f = q
  starts-after_round total (es, again l) k q f =
      omega (arith, q.0, q.1, f l q.1, starts-append es (k l))

  starts-rounds :
      (round left : ℕ) (l : LoopState)
      → ShortReplies h
      → l.total_calls ≤ most
      → starts (rounds h transport round left l) + l.total_calls ≤ most
  unfolding rounds
  starts-rounds round zero l short k = omega (arith, k)
  starts-rounds round (suc left) l short k =
      starts-after_round l.total_calls _ _ (run_round-Counted round l short k)
        (λ l' k'. starts-rounds (round + 1) left l' short k')

-- Where the limit on calls is below the greatest number of 32 bits, as validated settings have it,
-- and no reply of the provider has 2 ^ 32 items, a run starts at most as many tool calls as its
-- settings allow.
pub starts-run_harness :
    (h : Harness) (request : ChatRequest) (native_supported : Bool) (run : GenerationRun)
    → h.settings.max_tool_calls < u32_max
    → ShortReplies h
    → starts (run_harness h request native_supported run) ≤ h.settings.max_tool_calls
unfolding run_harness
starts-run_harness h request native_supported run limit short =
    go (choose_transport h.settings.transport native_supported)
  where
    go :
        (c : Option ToolCallTransport)
        → starts (after_choice h request run c) ≤ h.settings.max_tool_calls
    go none = omega arith
    go (some transport) =
        let r =
          starts-rounds h limit transport 1 h.settings.max_rounds
            (start_loop h transport request run) short (unfold start_loop in omega arith) in
        omega (arith, r)
