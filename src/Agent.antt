-- ===== src/Agent.antt =====
-- shirita-core/src/agent.rs: the settings of the agent harness and the record of a run.
pub mod Settings
use shirita.Prelude.{
  ℕ, ◌≡◌, Option, none, some, Bool, true, false, not, ◌&&◌, ◌||◌, List, [], ◌∷◌, ◌++◌, ltb, ◌==◌,
  if◌then◌else◌, is_empty, keep,
}
use shirita.Text.{Text, codes, text_eq, byte_len, trim}
use shirita.Tools.{contains, text_le}
use shirita.Workspace.{ResponseWorkspace}

abbrev pub hard_max_rounds : ℕ
hard_max_rounds = 8

abbrev pub hard_max_tool_calls : ℕ
hard_max_tool_calls = 32

abbrev pub hard_max_tool_timeout_ms : ℕ
hard_max_tool_timeout_ms = 30000

abbrev pub max_agent_prompt_bytes : ℕ
max_agent_prompt_bytes = 65536

pub data ToolTransport : Type 0 where
  auto native xml : ToolTransport

pub record AgentSettings : Type 0 where
  pub enabled : Bool
  pub transport : ToolTransport
  pub enabled_tools : List Text
  pub max_rounds : ℕ  -- u32
  pub max_tool_calls : ℕ  -- u32
  pub tool_timeout_ms : ℕ  -- u64
  pub show_activity : Bool
  pub show_user_status : Bool
  pub max_identical_call_rounds : ℕ  -- u32
  pub system_prompt : Text
  pub unfinished_prompt : Text

pub default_system_prompt : Text
default_system_prompt =
    codes "You are operating inside Shirita's text-generation harness.\n"
    ++ (codes
          "Use the registered tools when they help you produce the response requested by the user and the conversation prompt. Tool schemas are authoritative.\n"
        ++ (codes
              "Ordinary model text and reasoning are private working output. They are not returned to the user.\n"
            ++ (codes
                  "The current user-visible response is supplied every round as a response workspace with a revision number. Ordinary output does not change it.\n"
                ++ (codes
                      "Use shirita.response.replace to create or replace the response, and shirita.response.patch to revise it atomically. Tool results become visible only in the next round.\n"
                    ++ (codes
                          "Use shirita.run.update_status only for transient status: visibility=user may be shown while you work; internal status remains private.\n"
                        ++ codes
                            "Only shirita.run.finish returns text to the user and stores it. Call finish() to commit the current response workspace, or finish with a response field for a one-shot response. Calls after finish are ignored.")))))

pub default_unfinished_prompt : Text
default_unfinished_prompt =
    codes
      "Continue working. Tool results from this round are visible now. When the response is ready, call shirita.run.finish() to commit the response workspace, or shirita.run.finish with the final text as a one-shot response."

-- `clamp(lo, hi)`, for `lo ≤ hi`
unfoldable pub clamp : ℕ → ℕ → ℕ → ℕ
clamp lo hi n = if ltb n lo then lo else if ltb hi n then hi else n

insert_text : Text → List Text → List Text
insert_text x [] = x ∷ []
insert_text x (y ∷ ys) = if text_le x y then x ∷ y ∷ ys else y ∷ insert_text x ys

-- `Vec::sort`
unfoldable pub sort_texts : List Text → List Text
unfolding insert_text
sort_texts [] = []
sort_texts (x ∷ xs) = insert_text x (sort_texts xs)

abbrev pub onto : Text → List Text → List Text
onto x [] = x ∷ []
onto x (y ∷ ys) = if text_eq x y then y ∷ ys else x ∷ y ∷ ys

-- `Vec::dedup`: of equal neighbours the first stays.
unfoldable pub dedup : List Text → List Text
dedup [] = []
dedup (x ∷ xs) = onto x (dedup xs)

unfoldable pub prompt_ok : Text → Bool
prompt_ok s = not (is_empty (trim s)) && not (ltb max_agent_prompt_bytes (byte_len s))

abbrev pub or_default : Text → Text → Text
or_default s d = if prompt_ok s then s else d

-- `AgentSettings::sanitized`
unfoldable pub sanitized : AgentSettings → List Text → AgentSettings
sanitized s registered_tools =
    let rounds : ℕ = clamp 1 hard_max_rounds s.max_rounds in
    record s {
      max_rounds = rounds;
      max_tool_calls = clamp 1 hard_max_tool_calls s.max_tool_calls;
      tool_timeout_ms = clamp 1 hard_max_tool_timeout_ms s.tool_timeout_ms;
      max_identical_call_rounds = clamp 1 rounds s.max_identical_call_rounds;
      enabled_tools = dedup (sort_texts (keep (λ n. contains registered_tools n) s.enabled_tools));
      system_prompt = or_default s.system_prompt default_system_prompt;
      unfinished_prompt = or_default s.unfinished_prompt default_unfinished_prompt;
    }

pub data SettingsError : Type 0 where
  rounds_out_of_range tool_calls_out_of_range timeout_out_of_range : SettingsError
  identical_rounds_out_of_range empty_prompt prompt_too_long : SettingsError
  unknown_tool : Text → SettingsError

-- The loop over `enabled_tools` of `validate`.
unfoldable pub first_unknown : List Text → List Text → Option SettingsError
first_unknown registered_tools [] = none
first_unknown registered_tools (name ∷ names) =
    let rest = first_unknown registered_tools names in
    if contains registered_tools name then rest else some (unknown_tool name)

-- `AgentSettings::validate`; none is `Ok(())`.
unfoldable pub validate : AgentSettings → List Text → Option SettingsError
unfolding first_unknown
validate s registered_tools =
    if s.max_rounds == 0 || ltb hard_max_rounds s.max_rounds
    then some rounds_out_of_range
    else if s.max_tool_calls == 0 || ltb hard_max_tool_calls s.max_tool_calls
    then some tool_calls_out_of_range
    else if s.tool_timeout_ms == 0 || ltb hard_max_tool_timeout_ms s.tool_timeout_ms
    then some timeout_out_of_range
    else if s.max_identical_call_rounds == 0 || ltb s.max_rounds s.max_identical_call_rounds
    then some identical_rounds_out_of_range
    else if is_empty (trim s.system_prompt) || is_empty (trim s.unfinished_prompt)
    then some empty_prompt
    else if ltb max_agent_prompt_bytes (byte_len s.system_prompt)
        || ltb max_agent_prompt_bytes (byte_len s.unfinished_prompt)
    then some prompt_too_long
    else first_unknown registered_tools s.enabled_tools

pub data RunKind : Type 0 where
  send regenerate : RunKind

pub data RunStatus : Type 0 where
  running completed stopped failed : RunStatus

pub record GenerationRun : Type 0 where
  pub id : Text
  pub session_id : Text
  pub parent_message_id : Option Text
  pub kind : RunKind
  pub round : ℕ  -- u32
  pub tool_calls : ℕ  -- u32
  pub status : RunStatus
  pub workspace : ResponseWorkspace

-- `GenerationRun::new`
unfoldable pub new_run : Text → Text → Option Text → RunKind → GenerationRun
new_run id session_id parent_message_id kind = record {
  id = id;
  session_id = session_id;
  parent_message_id = parent_message_id;
  kind = kind;
  round = 0;
  tool_calls = 0;
  status = running;
  workspace = record { text = []; revision = 0 };
}
