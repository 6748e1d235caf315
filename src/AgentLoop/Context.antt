-- ===== src/AgentLoop/Context.antt =====
-- shirita-core/src/agent_loop.rs: the request context of a run, with the prompt of the harness, the
-- workspace snapshot of a round, and the transcript that a round leaves.
use shirita.Prelude.{
  ℕ, suc, ◌-◌, Option, none, some, Bool, true, false, ◌&&◌, ◌||◌, List, [], ◌∷◌, ◌++◌, map,
  if◌then◌else◌, length, take, drop, is_empty, keep,
}
use shirita.Text.{Text, codes, text_eq, decimal}
use shirita.Json.{Value, Serde, object, field, end, get, as_u64}
use shirita.Tools.{
  ToolCall, ToolResult, ToolSpec, ToolRegistry, ToolCallTransport, ToolResultStatus, native, xml,
  ok, contains, specs, is_response_control,
}
use shirita.Workspace.{ResponseWorkspace, nat}
use shirita.XmlTools.{safe_json, render_xml_tool_call, render_xml_tool_result, xml_protocol_prompt}
use shirita.Model.{Role, system, user, assistant, ChatMessage, ChatRequest, default_message}
use shirita.Agent.{AgentSettings}

-- `Vec::insert`
abbrev pub insert_at {ℓ} : {A : Type ℓ} → ℕ → A → List A → List A
insert_at i x xs = take i xs ++ (x ∷ drop i xs)

abbrev is_user : Role → Bool
is_user user = true
is_user _ = false

-- `messages.iter().rposition(|m| m.role == Role::User)`
unfoldable pub last_user : List ChatMessage → Option ℕ
last_user [] = none
last_user (m ∷ ms) = elim (last_user ms) [
  | some i ↦ some (suc i)
  | none ↦ if is_user m.role then some 0 else none
]

-- `.unwrap_or(request.messages.len())`
unfoldable pub user_position : List ChatMessage → ℕ
unfolding last_user
user_position ms = elim (last_user ms) [ none ↦ length ms | some i ↦ i ]

unfoldable pub selected_specs : ToolRegistry → List Text → List ToolSpec
selected_specs registry enabled =
    keep (λ spec. spec.required || (spec.selected || contains enabled spec.name)) (specs registry)

abbrev pub system_message : Text → ChatMessage
system_message content = record default_message { role = system; content = content }

-- A system message of the harness itself.
abbrev pub control_message : Text → ChatMessage
control_message content = record default_message {
  role = system;
  content = content;
  control = true;
}

abbrev harness_prompt : Serde → AgentSettings → ToolCallTransport → List ToolSpec → Text
harness_prompt serde settings native specs = settings.system_prompt
harness_prompt serde settings xml specs =
    settings.system_prompt ++ (codes "\n\n" ++ xml_protocol_prompt serde specs)

abbrev offered : ToolCallTransport → List ToolSpec → List ToolSpec
offered native specs = specs
offered xml specs = []

-- What `run` does to the request before its first round.
unfoldable pub prepare :
    Serde → AgentSettings → ToolRegistry → ToolCallTransport → ChatRequest → ChatRequest
prepare serde settings registry transport request =
    let chosen = selected_specs registry settings.enabled_tools in
    let prompt = system_message (harness_prompt serde settings transport chosen) in
    record request {
      messages = insert_at (user_position request.messages) prompt request.messages;
      tools = offered transport chosen;
    }

abbrev snapshot_state : Text → Text
snapshot_state [] = codes "empty"
snapshot_state (_ ∷ _) = codes "present"

unfoldable pub render_workspace_snapshot : Serde → ResponseWorkspace → Text
render_workspace_snapshot serde workspace =
    codes "SHIRITA_RESPONSE_WORKSPACE\n"
    ++ (safe_json serde (
          object (
            field (codes "revision") (nat workspace.revision) (
              field (codes "state") (Value.text (snapshot_state workspace.text))
                (field (codes "text") (Value.text workspace.text) end))))
        ++ codes "\nEND_SHIRITA_RESPONSE_WORKSPACE")

unfoldable pub inject_workspace_snapshot :
    Serde → ChatRequest → ResponseWorkspace → Bool → ChatRequest
inject_workspace_snapshot serde request workspace first_round =
    let message = control_message (render_workspace_snapshot serde workspace) in
    let at : ℕ =
      if first_round then user_position request.messages else length request.messages - 1 in
    record request { messages = insert_at at message request.messages }

abbrev u64_or_zero : Option Value → ℕ
u64_or_zero none = 0
u64_or_zero (some v) = elim (as_u64 v) [ none ↦ 0 | some n ↦ n ]

unfoldable pub render_receipt : ToolCall → ToolResult → Text
render_receipt call result =
    let revision = decimal (u64_or_zero (get result.output (codes "revision"))) in
    if text_eq call.name (codes "shirita.response.replace")
    then codes "response replaced -> revision " ++ revision
    else codes "response patched ("
      ++ (decimal (u64_or_zero (get result.output (codes "operations")))
          ++ (codes " operations) -> revision " ++ revision))

abbrev is_ok : ToolResultStatus → Bool
is_ok ok = true
is_ok _ = false

-- The three lists that `append_round` fills from the calls and their results.
pub record Retained : Type 0 where
  pub calls : List ToolCall
  pub results : List ToolResult
  pub receipts : List Text

abbrev nothing_retained : Retained
nothing_retained = record { calls = []; results = []; receipts = [] }

-- The loop over the zipped lists, which ends with the shorter one.
unfoldable pub retain_round : List ToolCall → List ToolResult → Retained
retain_round [] results = nothing_retained
retain_round (call ∷ calls) [] = nothing_retained
retain_round (call ∷ calls) (result ∷ results) =
    let rest = retain_round calls results in
    if is_response_control call.name && is_ok result.status
    then record rest { receipts = render_receipt call result ∷ rest.receipts }
    else record rest { calls = call ∷ rest.calls; results = result ∷ rest.results }

-- `content.push('\n'); content.push_str(&render_xml_tool_call(call))` for each retained call.
unfoldable pub render_calls : Serde → List ToolCall → Text
render_calls serde [] = []
render_calls serde (call ∷ calls) =
    codes "\n" ++ (render_xml_tool_call serde call ++ render_calls serde calls)

abbrev pub assistant_turn : Serde → ToolCallTransport → Text → List ToolCall → ChatMessage
assistant_turn serde xml working calls = record default_message {
  role = assistant;
  content = working ++ render_calls serde calls;
}
assistant_turn serde native working calls = record default_message {
  role = assistant;
  content = working;
  tool_calls = calls;
}

abbrev pub result_message : Serde → ToolCallTransport → ToolResult → ChatMessage
result_message serde native result = record default_message { tool_result = some result }
result_message serde xml result = record default_message {
  content = render_xml_tool_result serde result;
}

-- The messages that `append_round` pushes.
unfoldable pub round_messages :
    Serde → Text → List ToolCall → List ToolResult → ToolCallTransport → Text → List ChatMessage
unfolding render_calls
round_messages serde working calls results transport unfinished =
    let kept = retain_round calls results in
    (if is_empty working && is_empty kept.calls
      then []
      else assistant_turn serde transport working kept.calls ∷ [])
    ++ (map (result_message serde transport) kept.results
        ++ (map control_message kept.receipts ++ control_message unfinished ∷ []))

unfoldable pub append_round :
    Serde
    → ChatRequest
    → Text
    → List ToolCall
    → List ToolResult
    → ToolCallTransport
    → Text
    → ChatRequest
append_round serde request working calls results transport unfinished = record request {
  messages = request.messages ++ round_messages serde working calls results transport unfinished;
}
