-- ===== src/AgentLoop/Rounds.antt =====
-- shirita-core/src/agent_loop.rs: the rounds of a run.
use shirita.Prelude.{
  ℕ, zero, suc, ◌+◌, ◌-◌, ◌%◌, ◌^◌, min, Option, none, some, Bool, true, false, not, ◌&&◌, ◌||◌,
  List, [], ◌∷◌, ◌++◌, map, ltb, ◌==◌, if◌then◌else◌, length, is_empty, any,
}
use shirita.Text.{Text, codes, text_eq, byte_len, trim, join}
use shirita.Json.{Value, Serde, object, end, field, bool}
use shirita.Tools.{ToolCall, ToolCallTransport, native, xml, reject}
use shirita.Workspace.{Committed, committed, not_committed, commit_finish, nat, done}
use shirita.Tools.Builtin.{usize_add}
use shirita.XmlTools.{
  XmlResult, XmlError, parsed, unterminated_tool_call, parse_xml_tool_round, max_xml_round_bytes,
}
use shirita.Model.{ChatRequest, ModelEvent, text_delta, reasoning_delta, tool_call, end_of_turn}
use shirita.Agent.{ToolTransport, GenerationRun, RunStatus}
use shirita.AgentLoop.{
  HarnessEvent, round_started, tool_finished, usage, finished, stopped, failed, native_disabled,
  xml_round_too_large, bad_call_id, call_limit, repeated_calls, round_limit, provider_error,
  xml_error, StreamItem, cancelled, item, error, Reply, refused, stream, Harness, Traced,
}
use shirita.AgentLoop.Context.{prepare, inject_workspace_snapshot, append_round}
use shirita.AgentLoop.Calls.{
  RoundState, CallsEnd, halted, through, push_result, stop_run, prefix, emit, run_calls,
}

abbrev pub u32_max : ℕ
u32_max = 2 ^ 32 - 1

-- What the stream of a round comes to: the generator returns, or text and calls.
pub data Drained : Type 0 where
  broken_off : Drained
  drained : Text → List ToolCall → Drained

-- The arms of the `match` on a text delta.
abbrev pub takes_text : ToolCallTransport → Text → Text → Bool
takes_text native working delta = true
takes_text xml working delta =
    not (ltb max_xml_round_bytes (usize_add (byte_len working) (byte_len delta)))

-- The loop over the provider's stream.
unfoldable pub drain :
    ToolCallTransport → GenerationRun → Text → List ToolCall → List StreamItem → Traced Drained
drain transport run working calls [] = ([], drained working calls)
drain transport run working calls (cancelled ∷ rest) = (stopped (stop_run run) ∷ [], broken_off)
drain transport run working calls (error e ∷ rest) = (failed (provider_error e) ∷ [], broken_off)
drain transport run working calls (item (text_delta t) ∷ rest) =
    let after = drain transport run (working ++ t) calls rest in
    if takes_text transport working t then after else (failed xml_round_too_large ∷ [], broken_off)
drain transport run working calls (item (reasoning_delta t) ∷ rest) =
    let after = drain transport run (working ++ t) calls rest in
    if takes_text transport working t then after else (failed xml_round_too_large ∷ [], broken_off)
drain transport run working calls (item (tool_call call) ∷ rest) =
    drain transport run working (calls ++ call ∷ []) rest
drain transport run working calls (item (ModelEvent.usage input output) ∷ rest) =
    emit (usage input output) (drain transport run working calls rest)
drain transport run working calls (item (end_of_turn reason) ∷ rest) =
    drain transport run working calls rest

-- The text and the calls of a round, or the message that the run fails with.
pub data Read : Type 0 where
  unreadable : XmlError → Read
  readable : Text → List ToolCall → Read

abbrev pub read_xml : Text → XmlResult → Read
read_xml working (parsed r) = readable r.working_text r.calls
read_xml working (XmlResult.failed unterminated_tool_call) = readable working []
read_xml working (XmlResult.failed e) = unreadable e

abbrev pub read_round : Serde → ToolCallTransport → Text → List ToolCall → Read
read_round serde native working calls = readable working calls
read_round serde xml working calls = read_xml working (parse_xml_tool_round serde working)

-- `calls.iter().any(|call| call.id.trim().is_empty() || !ids.insert(call.id.clone()))`
unfoldable pub bad_ids : List Text → List ToolCall → Bool
bad_ids seen [] = false
bad_ids seen (call ∷ calls) =
    is_empty (trim call.id)
    || (any (λ id. text_eq id call.id) seen || bad_ids (call.id ∷ seen) calls)

abbrev or_empty : Option Text → Text
or_empty none = []
or_empty (some s) = s

unfoldable pub call_signature : Serde → List ToolCall → Text
call_signature serde calls =
    join (codes "\n")
      (map (λ call. call.name ++ (codes ":" ++ or_empty (serde.to_string call.arguments))) calls)

-- The variables of `run` that live through the rounds.
pub record LoopState : Type 0 where
  pub request : ChatRequest
  pub run : GenerationRun
  pub total_calls : ℕ  -- u32
  pub previous_signature : Text
  pub identical_rounds : ℕ  -- u32

pub data RoundEnd : Type 0 where
  ended : RoundEnd
  again : LoopState → RoundEnd

abbrev pub commit_output : Text → ℕ → Value
commit_output text revision = object (
    field (codes "bytes") (nat (byte_len text))
      (field (codes "committed") (bool true) (field (codes "revision") (nat revision) end)))

abbrev pub completed_run : GenerationRun → GenerationRun
completed_run run = record run { status = RunStatus.completed }

-- The `match` on what `commit_finish` returns, with the run that holds the new workspace.
abbrev pub after_commit : RoundState → ToolCall → GenerationRun → Committed → Traced CallsEnd
after_commit s call run (committed text) = (
  tool_finished (done call (commit_output text run.workspace.revision))
      ∷ finished text (completed_run run)
      ∷ [],
  halted,
)
after_commit s call run (not_committed code) =
    let rejected = (reject call code).result in
    (tool_finished rejected ∷ [], through (push_result (record s { run = run }) rejected))

abbrev pub commit_pending : RoundState → Option (ToolCall × Option Text) → Traced CallsEnd
commit_pending s none = ([], through s)
commit_pending s (some (call, response)) =
    let (workspace, outcome) = commit_finish s.run.workspace response in
    after_commit s call (record s.run { workspace = workspace }) outcome

-- The commit of a finish, after the loop over the calls.
unfoldable pub commit : RoundState → Traced CallsEnd
commit s = commit_pending s s.pending_finish

-- What follows the commit: the transcript for the next round.
abbrev pub close_round :
    Harness → ToolCallTransport → LoopState → Text → List ToolCall → CallsEnd → RoundEnd
close_round h transport l working calls halted = ended
close_round h transport l working calls (through s) = again (record l {
  run = s.run;
  request =
      append_round h.serde l.request working calls s.results transport h.settings.unfinished_prompt;
})

abbrev pub closed :
    Harness
    → ToolCallTransport
    → LoopState
    → Text
    → List ToolCall
    → Traced CallsEnd
    → Traced RoundEnd
closed h transport l working calls (es, end_of_calls) =
    (es, close_round h transport l working calls end_of_calls)

abbrev pub start_round : GenerationRun → RoundState
start_round run = record {
  run = run;
  results = [];
  pending_finish = none;
  preceding_failed = false;
}

abbrev pub then_commit : Traced CallsEnd → Traced CallsEnd
then_commit (es, halted) = (es, halted)
then_commit (es, through s) = prefix es (commit s)

-- The calls of a round that passed the limits, from the first on.
unfoldable pub perform :
    Harness → ToolCallTransport → ℕ → LoopState → Text → List ToolCall → Traced RoundEnd
perform h transport round l working calls =
    closed h transport l working calls (then_commit (run_calls h round 0 calls (start_round l.run)))

-- `total_calls.saturating_add(calls.len() as u32)`
abbrev pub count_calls : ℕ → ℕ → ℕ
count_calls total n = min (total + n % 2 ^ 32) u32_max

-- Whether a round repeats the calls of the round before it.
abbrev pub repeats : LoopState → Text → Bool
repeats l signature = not (is_empty signature) && text_eq signature l.previous_signature

-- The counters of the run, with the calls of a round counted.
abbrev pub count_round : Harness → LoopState → List ToolCall → LoopState
count_round h l calls =
    let total : ℕ = count_calls l.total_calls (length calls) in
    let signature = call_signature h.serde calls in
    record l {
      run = record l.run { tool_calls = total };
      total_calls = total;
      previous_signature = signature;
      identical_rounds = if repeats l signature then (l.identical_rounds + 1) % 2 ^ 32 else 1;
    }

abbrev pub too_many_repeats : Harness → LoopState → List ToolCall → Bool
too_many_repeats h l calls =
    not (is_empty calls) && ltb h.settings.max_identical_call_rounds l.identical_rounds

-- The checks between the reading of a round and its calls.
unfoldable pub admit_round :
    Harness → ToolCallTransport → ℕ → LoopState → Text → List ToolCall → Traced RoundEnd
admit_round h transport round l working calls =
    if bad_ids [] calls
    then (failed bad_call_id ∷ [], ended)
    else let l' = count_round h l calls in
      if ltb h.settings.max_tool_calls l'.total_calls
      then (failed call_limit ∷ [], ended)
      else if too_many_repeats h l' calls
      then (failed repeated_calls ∷ [], ended)
      else perform h transport round l' working calls

abbrev pub after_read : Harness → ToolCallTransport → ℕ → LoopState → Read → Traced RoundEnd
after_read h transport round l (unreadable e) = (failed (xml_error e) ∷ [], ended)
after_read h transport round l (readable working calls) =
    admit_round h transport round l working calls

abbrev pub after_drain :
    Harness → ToolCallTransport → ℕ → LoopState → Traced Drained → Traced RoundEnd
after_drain h transport round l (es, broken_off) = (es, ended)
after_drain h transport round l (es, drained working calls) =
    prefix es (after_read h transport round l (read_round h.serde transport working calls))

abbrev pub after_reply : Harness → ToolCallTransport → ℕ → LoopState → Reply → Traced RoundEnd
after_reply h transport round l (refused e) = (failed (provider_error e) ∷ [], ended)
after_reply h transport round l (stream parts) =
    after_drain h transport round l (drain transport l.run [] [] parts)

abbrev pub enter_round : LoopState → ℕ → LoopState
enter_round l round = record l { run = record l.run { round = round } }

abbrev pub round_request : Harness → LoopState → ℕ → ChatRequest
round_request h l round = inject_workspace_snapshot h.serde l.request l.run.workspace (round == 1)

-- The body of `for round in 1..=settings.max_rounds`.
unfoldable pub run_round : Harness → ToolCallTransport → ℕ → LoopState → Traced RoundEnd
run_round h transport round l =
    if h.env.stop_at_round round
    then (stopped (stop_run l.run) ∷ [], ended)
    else let l' = enter_round l round in
      emit (round_started l'.run)
        (after_reply h transport round l' (h.env.respond round (round_request h l' round)))

abbrev pub after_round : Traced RoundEnd → (LoopState → List HarnessEvent) → List HarnessEvent
after_round (es, ended) k = es
after_round (es, again l) k = es ++ k l

-- The rounds from number `round` on, with `left` of them left.
unfoldable pub rounds : Harness → ToolCallTransport → ℕ → ℕ → LoopState → List HarnessEvent
rounds h transport round zero l = failed round_limit ∷ []
rounds h transport round (suc left) l =
    after_round (run_round h transport round l) (λ l'. rounds h transport (round + 1) left l')

unfoldable pub start_loop : Harness → ToolCallTransport → ChatRequest → GenerationRun → LoopState
start_loop h transport request run = record {
  request = prepare h.serde h.settings h.registry transport request;
  run = run;
  total_calls = 0;
  previous_signature = [];
  identical_rounds = 0;
}

unfoldable pub choose_transport : ToolTransport → Bool → Option ToolCallTransport
choose_transport ToolTransport.xml native_supported = some xml
choose_transport ToolTransport.native native_supported =
    if native_supported then some native else none
choose_transport ToolTransport.auto native_supported =
    some (if native_supported then native else xml)

abbrev pub after_choice :
    Harness → ChatRequest → GenerationRun → Option ToolCallTransport → List HarnessEvent
after_choice h request run none = failed native_disabled ∷ []
after_choice h request run (some transport) =
    rounds h transport 1 h.settings.max_rounds (start_loop h transport request run)

-- `agent_loop::run`: the events of the stream, in order.
unfoldable pub run_harness : Harness → ChatRequest → Bool → GenerationRun → List HarnessEvent
unfolding choose_transport start_loop
run_harness h request native_supported run =
    after_choice h request run (choose_transport h.settings.transport native_supported)
