-- ===== src/Examples/Prompts.antt =====
-- A tree of prompts with an entry of keywords, a history, and the variables of a session.
use shirita.Prelude.{
  ◌≡◌, ℕ, List, [], ◌∷◌, ◌++◌, refl, true, false, none, some, arith, inl, All, length, ◌-◌, ◌∙◌,
  inr, Bool-cases, sym, append-nil, if◌then◌else◌,
}
use shirita.Text.{Text, codes, starts_with, text_eq, text_eq_iff}
use shirita.Json.{null, number, pos_int, get}
use shirita.Assoc.{first_of}
use shirita.Tools.Random.{pos}
use shirita.Model.{ChatMessage, default_message, assistant}
use shirita.Nodes.{Definition, PromptNode, ref, history, template}
use shirita.Keyword.{Automaton}
use shirita.Keyword.Laws.{Lawful, IsMatch}
use shirita.Variables.{VarDecl, number_type, Update, set, system_variables, effective_state}
use shirita.Variables.Schema.{resolve_schema_from_bricks, parse_decls, tag_scope}
use shirita.Variables.Updates.{Arithmetic, apply_updates, declared}
use shirita.Variables.Reserved.{apply_updates-Protected}
use shirita.Variables.Typed.{Typed, FiniteHasNumber, apply_updates-Typed}
use shirita.Variables.Precedence.{
  last_decl, last_pack, initial, get-effective_state, declared-resolve_schema,
}
use shirita.Assembly.{AssembledPlan, before_history, after_history}
use shirita.Assembly.Messages.{before_messages, after_messages, build_chat_messages}
use shirita.Assembly.Runs.{Splits, Runs, build_chat_messages-Runs}
use shirita.Assembly.Activation.{Draws, activate, Entry, keyword}
use shirita.Assembly.Activation.Reasons.{Due}
use shirita.Assembly.Activation.Due.{activate-Due}
use shirita.Assembly.Content.{Rendering, strip_loop}
use shirita.Assembly.Content.Comments.{Ends, strip_loop-Ends}
use shirita.Assembly.Plan.{
  Inputs, assemble_from_nodes_with_packs, resolve, render_pack_body, active_of, entries_of,
  pack_entries,
}
use shirita.Assembly.Plan.Segments.{Placed, assemble-Placed}
use shirita.Assembly.Plan.Shown.{Rendered, AllAdded, resolve-active_of}
use shirita.Examples.Loop.{plain_serde}

abbrev said : Text → ChatMessage
said content = record default_message { content = content }

abbrev replied : Text → ChatMessage
replied content = record default_message { role = assistant; content = content }

abbrev plan : AssembledPlan
plan = record {
  segments =
      record { placement = before_history; content = codes "a"; source = [] }
      ∷ record { placement = after_history; content = codes "b"; source = [] }
      ∷ [];
  history_enabled = true;
  regex_rules = [];
}

abbrev chat : List ChatMessage
chat = said (codes "one") ∷ replied (codes "two") ∷ said (codes "three") ∷ []

build_chat_messages-Runs_example :
    (historical turn merged : List ChatMessage) × Splits true chat historical turn
    × Runs (before_messages plan ++ (historical ++ after_messages plan)) merged
    × (build_chat_messages plan chat true ≡ merged ++ turn)
build_chat_messages-Runs_example = build_chat_messages-Runs plan chat true

-- An automaton that finds the first pattern, and dice that never come out low.
abbrev eager : Automaton
eager = record {
  find_iter = λ patterns body. 0 ∷ [];
  to_lowercase = λ s. s;
  set_order = λ ids. ids;
}

abbrev high : Draws
high = λ n p. false

abbrev plain : Rendering
plain = record { render_vars = λ s v. s; is_alphabetic = λ c. true }

abbrev lore : Definition
lore = record {
  id = codes "d";
  def_type = codes "lore";
  name = codes "Lore";
  content = codes "text";
  meta = null;
}

abbrev node : Text → PromptNode
node id = record {
  id = id;
  owner_kind = template;
  owner_id = codes "t";
  parent_id = none;
  sort_order = pos 0;
  kind = ref;
  tag = none;
  definition_id = some (codes "d");
  enabled = true;
  created_at = [];
  meta = null;
}

abbrev tree : List PromptNode
tree = node (codes "n") ∷ record (node (codes "h")) { kind = history; definition_id = none } ∷ []

abbrev inputs : Inputs
inputs = record { re = plain; definitions = (codes "d", lore) ∷ []; overrides = null; state = null }

assemble-Placed_example :
    Placed
      (assemble_from_nodes_with_packs eager high inputs tree [] []).history_enabled
      (assemble_from_nodes_with_packs eager high inputs tree [] []).segments
assemble-Placed_example = assemble-Placed eager high inputs tree [] []

-- An automaton that finds the first pattern where it is the whole of the text.
abbrev whole_text : List Text → Text → List ℕ
whole_text [] body = []
whole_text (p ∷ ps) body = if text_eq p body then 0 ∷ [] else []

abbrev exact : Automaton
exact = record { find_iter = whole_text; to_lowercase = λ s. s; set_order = λ ids. ids }

whole_text-IsMatch :
    (patterns : List Text) (body : Text)
    → All (λ i. IsMatch patterns body i) (whole_text patterns body)
whole_text-IsMatch [] body = tt
whole_text-IsMatch (p ∷ ps) body = elim (Bool-cases (text_eq p body)) [
  | inl e ↦
      let same : body ≡ [] ++ (p ++ []) = sym (append-nil p ∙ (text_eq_iff p body).0 e) in
      rw e (([], [], same), tt)
  | inr e ↦ rw e tt
]

exact-Lawful : Lawful exact
exact-Lawful = record { find_iter-IsMatch = whole_text-IsMatch; set_order-Mem = λ ids id m. m }

resolve-active_of_example :
    Rendered exact high inputs
      (entries_of inputs tree ++ pack_entries inputs [])
      []
      (node (codes "n"))
      (resolve inputs (active_of exact high inputs tree [] []) (node (codes "n")))
    × AllAdded exact high inputs
        (entries_of inputs tree ++ pack_entries inputs [])
        []
        (node (codes "n"))
        (render_pack_body inputs (active_of exact high inputs tree [] []) (node (codes "n")))
resolve-active_of_example =
    resolve-active_of exact high inputs tree [] [] (node (codes "n")) exact-Lawful

abbrev entry : Entry
entry = record {
  id = codes "e";
  trigger = record { mode = keyword; keys = codes "sun" ∷ []; probability = 100 };
  content = codes "bright";
  scan_depth = 4;
  recursive = true;
}

activate-Due_example :
    All
      (λ id. Due exact high (entry ∷ []) (codes "sun" ∷ []) id)
      (activate exact high (entry ∷ []) (codes "sun" ∷ []))
activate-Due_example = activate-Due exact high (entry ∷ []) (codes "sun" ∷ []) exact-Lawful

strip_loop-Ends_example : Ends (strip_loop 8 [] (codes "a {{//b "))
strip_loop-Ends_example = strip_loop-Ends 8 [] (codes "a {{//b ") (omega arith)

-- Whole numbers in place of floats.
abbrev whole : Arithmetic
whole = record {
  F = ℕ;
  zero_value = 0;
  parse = λ s. some (length s);
  of_number = λ n. 0;
  add_value = λ a b. a;
  sub_value = λ a b. a - b;
  is_finite = λ n. true;
  is_small_whole = λ n. true;
  to_integer = pos_int;
  to_float = λ n. some (pos_int n);
}

whole-FiniteHasNumber : FiniteHasNumber whole
whole-FiniteHasNumber n f = (pos_int n, refl)

abbrev hp : VarDecl
hp = record {
  name = codes "hp";
  var_type = number_type;
  initial = number (pos_int 9);
  scope = none;
}

abbrev wound : List Update
wound =
    record { action = set; key = codes "hp"; value = some (codes "123") }
    ∷ record { action = set; key = codes "$avatar"; value = some (codes "x") }
    ∷ []

avatar_reserved : starts_with (codes "$") (codes "$avatar") ≡ true
unfolding starts_with
avatar_reserved = refl

apply_updates-Protected_example :
    get (apply_updates whole plain_serde null (hp ∷ []) wound) (codes "$avatar")
    ≡ get null (codes "$avatar")
apply_updates-Protected_example =
    apply_updates-Protected whole plain_serde null (hp ∷ []) wound (codes "$avatar")
      (inl avatar_reserved)

nothing-Typed : Typed (hp ∷ []) null
unfolding get
nothing-Typed = λ k d v g h. absurd (ground arith)

apply_updates-Typed_example : Typed (hp ∷ []) (apply_updates whole plain_serde null (hp ∷ []) wound)
apply_updates-Typed_example =
    apply_updates-Typed whole plain_serde whole-FiniteHasNumber null (hp ∷ []) wound nothing-Typed

get-effective_state_example :
    get (effective_state (hp ∷ []) null null) (codes "hp")
    ≡ first_of
        (get null (codes "hp"))
        (first_of (get null (codes "hp")) (initial (last_decl (codes "hp") (hp ∷ []))))
get-effective_state_example = get-effective_state (hp ∷ []) null null (codes "hp")

declared-resolve_schema_example :
    declared (resolve_schema_from_bricks (λ v. none) (hp ∷ []) [] null) (codes "hp")
    ≡ first_of
        (last_decl
          (codes "hp")
          (parse_decls (λ v. none) null (codes "local_variables") (codes "local")))
        (first_of (last_pack (codes "hp") []) (
          first_of
            (last_decl (codes "hp") (tag_scope (hp ∷ []) (codes "template")))
            (declared system_variables (codes "hp"))))
declared-resolve_schema_example = declared-resolve_schema (λ v. none) (hp ∷ []) [] null (codes "hp")
