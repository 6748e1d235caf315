-- ===== src/AgentLoop/Outcome.antt =====
-- What the text of a finished run is, whatever the model asked for: the promises of the tools
-- carried through the calls and the commit.
pub mod Tools
pub mod Builtin
use shirita.Prelude.{
  ℕ, ◌≤◌, ◌≡◌, refl, inl, inr, Option, none, some, Bool, true, false, List, [], ◌∷◌, arith,
  Bool-cases, ltb, All, is_empty, Option-cases, ◌&&◌, not,
}
use shirita.Text.{Text, byte_len, trim, text_eq}
use shirita.Assoc.{lookup}
use shirita.Json.{Serde}
use shirita.Tools.{
  ToolCall, ToolControl, ToolRegistry, ToolHandler, ToolExecution, ResponsePatchOperation,
  no_control, update_status, replace_response, patch_response, finish, execute, contains, bounded,
  json_len, Moment,
}
use shirita.Tools.Builtin.{max_response_workspace_bytes}
use shirita.Model.{ChatRequest}
use shirita.Workspace.{
  ResponseWorkspace, Committed, committed, not_committed, commit_finish, apply_replace, apply_patch,
}
use shirita.Workspace.Edits.{Searches, Fits, apply_patch-Fits, commit_finish-Fits}
use shirita.Agent.{GenerationRun, RunStatus, completed}
use shirita.AgentLoop.{HarnessEvent, finished, panicked, Harness}
use shirita.AgentLoop.Calls.{is_finish, finish_name}
use shirita.AgentLoop.Rounds.{run_harness}
use shirita.AgentLoop.Invariant.{Rules}
use shirita.AgentLoop.Invariant.Rounds.{run_harness-All}

-- What a tool may ask for: a replacement within the limit, a patch that searches for something, and
-- a finish only under the name of the finish tool and with no empty text.
abbrev pub Asks : ToolCall → ToolControl → Type 0
Asks call no_control = Unit
Asks call (update_status _ _) = Unit
Asks call (replace_response text) = byte_len text ≤ max_response_workspace_bytes
Asks call (patch_response _ operations) = Searches operations
Asks call (finish none) = is_finish call ≡ true
Asks call (finish (some s)) = (is_finish call ≡ true) × (is_empty s ≡ false)

-- A handler that is called under `name` keeps to what a tool may ask for.
abbrev pub Keeps : Text → ToolHandler → Type 0
Keeps name handler =
    (moment : Moment) (call : ToolCall) → call.name ≡ name → Asks call (handler moment call).control

abbrev pub Promises : ToolRegistry → Type 0
Promises registry =
    (name : Text) (handler : ToolHandler)
    → lookup name registry.handlers ≡ some handler
    → Keeps name handler

bounded-Asks :
    (serde : Serde) (call : ToolCall) (out : ToolExecution)
    → Asks call out.control
    → Asks call (bounded serde call out).control
bounded-Asks serde call out a =
    elim (Bool-cases (ltb shirita.Tools.max_tool_result_bytes (json_len serde out.result.output))) [
      | inl e ↦ rw e tt
      | inr e ↦ rw e a
    ]

pub execute-Asks :
    (serde : Serde) (registry : ToolRegistry) (moment : Moment) (call : ToolCall)
    (enabled : List Text)
    → Promises registry
    → Asks call (execute serde registry moment call enabled).control
unfolding execute
execute-Asks serde registry moment call enabled p =
    elim (Bool-cases (ltb shirita.Tools.max_tool_argument_bytes (json_len serde call.arguments))) [
      | inl e ↦ rw e tt
      | inr e ↦ rw e (elim (Option-cases (lookup call.name registry.specs)) [
        | inl f ↦ rw f tt
        | inr (spec, f) ↦
            rw f
              (elim (Bool-cases
                (not spec.required && (not spec.selected && not (contains enabled call.name)))) [
                  | inl g ↦ rw g tt
                  | inr g ↦ rw g (elim (Option-cases (lookup call.name registry.handlers)) [
                    | inl k ↦ rw k tt
                    | inr (handler, k) ↦ rw k (
                        bounded-Asks serde call (handler moment call)
                          (p call.name handler k moment call refl))
                  ])
                ])
      ])
    ]

-- A run that finished does so with the text of its workspace, which is not empty and within the
-- limit; and no tool has driven the loop into its `unreachable!`.
abbrev pub SoundEnd : HarnessEvent → Type 0
SoundEnd (finished text run) =
    (run.status ≡ completed)
    × (run.workspace.text ≡ text)
    × (is_empty text ≡ false)
    × (byte_len text ≤ max_response_workspace_bytes)
SoundEnd panicked = ⊥
SoundEnd _ = Unit

abbrev RunFits : GenerationRun → Type 0
RunFits run = Fits run.workspace

is_empty-trim : (s : Text) → is_empty (trim s) ≡ false → is_empty s ≡ false
unfolding trim
is_empty-trim [] h = absurd (ground arith)
is_empty-trim (c ∷ s) h = refl

committed_text :
    (w : ResponseWorkspace) (call : ToolCall) (response : Option Text) (text : Text)
    → Asks call (finish response)
    → (commit_finish w response).1 ≡ committed text
    → ((commit_finish w response).0.text ≡ text) × (is_empty text ≡ false)
unfolding commit_finish
committed_text w call none text a h = elim (Bool-cases (is_empty (trim w.text))) [
  | inl e ↦ absurd (ground arith)
  | inr e ↦ let f = is_empty-trim w.text e in (ground arith, ground arith)
]
committed_text w call (some s) text a h =
    elim (Bool-cases (ltb max_response_workspace_bytes (byte_len s))) [
      | inl e ↦ absurd (ground arith)
      | inr e ↦ (ground arith, ground arith)
    ]

not_panicked :
    (call : ToolCall) (response : Option Text)
    → is_finish call ≡ false
    → Asks call (finish response)
    → ⊥
not_panicked call none f a = ground arith
not_panicked call (some s) f a = let b = a.0 in ground arith

rules : (h : Harness) → Promises h.registry → Rules h RunFits SoundEnd Asks
rules h p = record {
  executes = λ moment call. execute-Asks h.serde h.registry moment call h.settings.enabled_tools p;
  times_out = λ call. tt;
  says_failed = λ f. tt;
  says_started = λ call. tt;
  says_result = λ result. tt;
  says_status = λ message. tt;
  says_usage = λ a b. tt;
  says_stopped = λ run k. tt;
  says_round = λ run k. tt;
  keeps_round = λ run n k. k;
  keeps_count = λ run n k. k;
  says_changed = λ n. tt;
  keeps_replace = λ run call text k a. unfold apply_replace in a;
  keeps_patch = λ run call revision ops k a. apply_patch-Fits run.workspace call revision ops k;
  says_panic = λ call response f a. not_panicked call response f a;
  keeps_commit = λ run call response k a. commit_finish-Fits run.workspace response k;
  says_finished = λ run call response text k a e.
      let t = committed_text run.workspace call response text a e in
      let f = commit_finish-Fits run.workspace response k in (refl, t.0, t.1, ground (arith, t.0));
}

-- If the tools of the registry keep their promises and the run starts with a workspace within the
-- limit, then no event of the run is a panic, and where the run finishes, its record is completed
-- and holds as the text of the workspace the very text that is sent, which is not empty and at most
-- 262144 bytes long.
pub run_harness-SoundEnd :
    (h : Harness) (request : ChatRequest) (native_supported : Bool) (run : GenerationRun)
    → Promises h.registry
    → Fits run.workspace
    → All SoundEnd (run_harness h request native_supported run)
run_harness-SoundEnd h request native_supported run p f =
    run_harness-All (rules h p) request native_supported run f
