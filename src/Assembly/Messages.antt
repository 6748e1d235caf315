-- ===== src/Assembly/Messages.antt =====
-- shirita-core/src/assembly.rs: the segments of a plan and the history as the messages of a request.
use shirita.Prelude.{
  Option, none, some, Bool, true, false, List, [], ◌∷◌, ◌++◌, map, keep, if◌then◌else◌,
}
use shirita.Text.{codes}
use shirita.Model.{ChatMessage, default_message, Role, system, user, assistant}
use shirita.Assembly.{Placement, before_history, after_history, PromptSegment, AssembledPlan}

abbrev pub role_eq : Role → Role → Bool
role_eq system system = true
role_eq user user = true
role_eq assistant assistant = true
role_eq _ _ = false

unfoldable pub is_before : Placement → Bool
is_before before_history = true
is_before after_history = false

unfoldable pub is_after : Placement → Bool
is_after before_history = false
is_after after_history = true

abbrev pub system_message : PromptSegment → ChatMessage
system_message s = record default_message { role = system; content = s.content }

unfoldable pub before_messages : AssembledPlan → List ChatMessage
before_messages plan = map system_message (keep (λ s. is_before s.placement) plan.segments)

unfoldable pub after_messages : AssembledPlan → List ChatMessage
after_messages plan = map system_message (keep (λ s. is_after s.placement) plan.segments)

-- `split_last`, the rest first.
unfoldable pub split_last : List ChatMessage → Option (List ChatMessage × ChatMessage)
split_last [] = none
split_last (m ∷ ms) = elim (split_last ms) [
  | none ↦ some ([], m)
  | some (rest, last) ↦ some (m ∷ rest, last)
]

-- The messages of the past, and the turn that is held out: none or one.
unfoldable pub hold_last :
    List ChatMessage → Option (List ChatMessage × ChatMessage) → List ChatMessage × List ChatMessage
hold_last history none = (history, [])
hold_last history (some (rest, last)) =
    if role_eq last.role user then (rest, last ∷ []) else (history, [])

unfoldable pub hold_turn : List ChatMessage → Bool → List ChatMessage × List ChatMessage
hold_turn history history_enabled =
    if history_enabled then hold_last history (split_last history) else (history, [])

abbrev pub joined : ChatMessage → ChatMessage → ChatMessage
joined last m = record last { content = last.content ++ (codes "\n" ++ m.content) }

-- Into the last of the merged messages, if it has the same role, and behind it otherwise.
unfoldable pub push_merged : List ChatMessage → ChatMessage → List ChatMessage
push_merged [] m = m ∷ []
push_merged (x ∷ xs) m =
    let rest = push_merged xs m in
    elim xs [
      | [] ↦ if role_eq x.role m.role then joined x m ∷ [] else x ∷ m ∷ []
      | _ ∷ _ ↦ x ∷ rest
    ]

unfoldable pub merge_all : List ChatMessage → List ChatMessage → List ChatMessage
merge_all merged [] = merged
merge_all merged (m ∷ ms) = merge_all (push_merged merged m) ms

unfoldable pub build_chat_messages : AssembledPlan → List ChatMessage → Bool → List ChatMessage
build_chat_messages plan history history_enabled =
    let (historical, current_turn) = hold_turn history history_enabled in
    let out =
      before_messages plan
      ++ ((if history_enabled then historical else []) ++ after_messages plan) in
    merge_all [] out ++ current_turn
