-- ===== src/Examples/Sessions.antt =====
-- The history of a session, its tree, and a request for authorization.
use shirita.Prelude.{
  ℕ, ◌≤◌, ◌<◌, ◌≡◌, refl, Option, none, some, false, List, [], ◌∷◌, length, arith, Bool-cases,
  Option-cases, inl, inr, sym, ap, subst, ◌∙◌, if◌then◌else◌,
}
use mathlib.Core.List.{Memᴰ}
use shirita.Text.{Text, codes, text_eq}
use shirita.Json.{Value, null, object, field, end}
use shirita.Assoc.{lookup, insert, remove}
use shirita.Model.{ChatMessage, default_message, system, user}
use shirita.Budget.{trim_history}
use shirita.Budget.Window.{Trimmed, trim_history-Trimmed}
use shirita.Tree.{Message, deepest_leaf, by_id, parent, active_leaf, active_path}
use shirita.Tree.Branch.{Branch, Acyclic, height_of, active_path-Branch}
use shirita.Tree.Descent.{Falling, Descent, deepest_leaf-Descent}
use shirita.Authorization.{
  AuthorizationBroker, request, bounded_redacted_preview, cut_short, or_braces,
}
use shirita.Authorization.Redaction.{Masked, preview-Masked}
use shirita.Examples.Loop.{plain_serde}

abbrev said : Text → ChatMessage
said content = record default_message { content = content }

abbrev history : List ChatMessage
history =
    record default_message { role = system; content = codes "ss" }
    ∷ said (codes "aaaa")
    ∷ said (codes "bbbb")
    ∷ said (codes "zz")
    ∷ []

trim_history-Trimmed_example :
    Trimmed history 8 length (trim_history history 8 length).0 (trim_history history 8 length).1
trim_history-Trimmed_example = trim_history-Trimmed history 8 length

abbrev turn : Text → Option Text → Text → Message
turn id parent_id created_at = record {
  id = id;
  session_id = codes "s";
  parent_id = parent_id;
  role = user;
  raw_content = [];
  display_content = none;
  is_hidden = false;
  is_anchor = false;
  attachments = [];
  snapshot_state = null;
  created_at = created_at;
}

abbrev first_turn : Message
first_turn = turn (codes "a") none (codes "1")

abbrev second_turn : Message
second_turn = turn (codes "b") (some (codes "a")) (codes "2")

abbrev two_turns : List Message
two_turns = first_turn ∷ second_turn ∷ []

-- How high a message with this parent stands.
abbrev height_at : Option Text → ℕ
height_at none = 0
height_at (some p) = if text_eq (codes "b") p then 2 else 1

abbrev turn_height : Message → ℕ
turn_height m = height_at m.parent_id

lower_first : turn_height first_turn ≡ 0
lower_first = refl

lower_second : turn_height second_turn ≡ 1
unfolding text_eq
lower_second = refl

two_turns-by_id : by_id [] two_turns ≡ (codes "b", second_turn) ∷ (codes "a", first_turn) ∷ []
unfolding by_id insert remove text_eq
two_turns-by_id = refl

lower :
    (p : Text) (y : Message)
    → lookup p ((codes "b", second_turn) ∷ (codes "a", first_turn) ∷ []) ≡ some y
    → turn_height y < height_at (some p)
unfolding lookup
lower p y h = elim (Bool-cases (text_eq (codes "b") p)) [
  | inl e ↦
      let q : second_turn ≡ y = ground arith in
      let r = ap turn_height q ∙ refl in rw e (omega (arith, r, lower_second))
  | inr e ↦ elim (Bool-cases (text_eq (codes "a") p)) [
    | inl f ↦
        let q : first_turn ≡ y = ground arith in
        let r = ap turn_height q ∙ refl in rw e (omega (arith, r, lower_first))
    | inr f ↦ absurd (ground arith)
  ]
]

two_turns-Acyclic : Acyclic (by_id [] two_turns) turn_height
unfolding parent
two_turns-Acyclic x y e = elim (Option-cases x.parent_id) [
  | inl f ↦ absurd (ground arith)
  | inr (p, f) ↦
      let g : lookup p (by_id [] two_turns) ≡ some y = ground arith in
      rw f (lower p y (subst (λ m. lookup p m ≡ some y) two_turns-by_id g))
]

leaf_height : height_of turn_height (active_leaf two_turns (some (codes "b"))) ≤ 2
unfolding active_leaf by_id insert remove lookup text_eq
leaf_height = omega arith

active_path-Branch_example :
    (path : List Message) × (active_path 2 two_turns (some (codes "b")) ≡ some path)
    × Branch (by_id [] two_turns) none path (active_leaf two_turns (some (codes "b")))
active_path-Branch_example =
    active_path-Branch two_turns (some (codes "b")) turn_height 2 two_turns-Acyclic leaf_height

abbrev asked : AuthorizationBroker
asked = request plain_serde [] (codes "r") (codes "s") (codes "srv") (codes "tool") (codes "c") null

abbrev login : Value
login = object (field (codes "api_key") (Value.text (codes "hunter2")) end)

preview-Masked_example :
    (shown : Value) × Masked shown
    × (bounded_redacted_preview plain_serde login
        ≡ cut_short (or_braces (plain_serde.to_string shown)))
    × (length (bounded_redacted_preview plain_serde login) ≤ 513)
preview-Masked_example = preview-Masked plain_serde login

-- Two answers to one message, the later one last.
abbrev siblings : List Message
siblings = first_turn ∷ second_turn ∷ turn (codes "c") (some (codes "a")) (codes "3") ∷ []

-- How far down the messages below an id go.
abbrev depth_below : Text → ℕ
depth_below id = if text_eq (codes "a") id then 1 else 0

first_depth : depth_below (codes "a") ≡ 1
unfolding text_eq
first_depth = refl

answer-lower :
    (m x : Message) (p : Text)
    → m ≡ x
    → x.parent_id ≡ some (codes "a")
    → depth_below x.id ≡ 0
    → m.parent_id ≡ some p
    → depth_below m.id < depth_below p
answer-lower m x p e up low h =
    let above : codes "a" ≡ p = ground arith in
    let same = ap (λ y. depth_below y.id) e in
    let high = ap depth_below (sym above) in omega (arith, same, low, high, first_depth)

siblings-Falling : Falling siblings depth_below
unfolding text_eq
siblings-Falling m p (Memᴰ.head e) h = absurd (ground arith)
siblings-Falling m p (Memᴰ.tail (Memᴰ.head e)) h = answer-lower m _ p e refl refl h
siblings-Falling m p (Memᴰ.tail (Memᴰ.tail (Memᴰ.head e))) h = answer-lower m _ p e refl refl h
siblings-Falling m p (Memᴰ.tail (Memᴰ.tail (Memᴰ.tail i))) h = elim i [ ]

deepest_leaf-Descent_example :
    (last : Text) × (deepest_leaf 2 siblings (codes "a") ≡ some last)
    × Descent siblings (codes "a") last
deepest_leaf-Descent_example =
    deepest_leaf-Descent siblings depth_below 2 (codes "a") siblings-Falling
      (omega (arith, first_depth))
