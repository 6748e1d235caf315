-- ===== src/Assembly/Plan.antt =====
-- shirita-core/src/assembly.rs: the segments of a plan, from the tree of a template and the trees of
-- the packs that are mounted.
pub mod Segments
pub mod Shown
use shirita.Prelude.{
  Option, none, some, Bool, true, false, not, ◌&&◌, List, [], ◌∷◌, ◌++◌, map, keep, is_empty,
  if◌then◌else◌,
}
use shirita.Text.{Text, codes, text_eq, trim, join}
use shirita.Json.{Value, str_at}
use shirita.Tools.{contains}
use shirita.Nodes.{
  Definition, Definitions, PromptNode, NodeKind, folder, ref, history, content, is_ref,
  definition_of, sort_nodes, is_root, is_child_of,
}
use shirita.Keyword.{Automaton}
use shirita.Assembly.{Placement, before_history, after_history, PromptSegment, AssembledPlan}
use shirita.Assembly.Activation.{Entry, Draws, activate}
use shirita.Assembly.Content.{
  Rendering, effective_trigger, effective_scan, body_of, maybe_wrap, sanitize_tag, tag_or, wrapped,
}

abbrev pub non_rendering_types : List Text
non_rendering_types =
    codes "regex_rule" ∷ codes "first_message" ∷ codes "html" ∷ codes "css" ∷ codes "variables" ∷ []

unfoldable pub is_non_rendering : Text → Bool
is_non_rendering def_type = contains non_rendering_types def_type

-- What the assembly takes in besides the trees.
pub record Inputs : Type 0 where
  pub re : Rendering
  pub definitions : Definitions
  pub overrides : Value
  pub state : Value

abbrev pub or_nothing_text : Option Text → Text
or_nothing_text none = []
or_nothing_text (some s) = s

unfoldable pub entry_of : Inputs → Option Definition → List Entry
entry_of inp none = []
entry_of inp (some def) =
    if is_non_rendering def.def_type
    then []
    else record {
      id = def.id;
      trigger = effective_trigger def inp.overrides;
      content = body_of inp.re def inp.overrides inp.state;
      scan_depth = (effective_scan def inp.overrides).0;
      recursive = (effective_scan def inp.overrides).1;
    }
      ∷ []

unfoldable pub entries_of : Inputs → List PromptNode → List Entry
entries_of inp [] = []
entries_of inp (n ∷ ns) =
    (if is_ref n.kind then entry_of inp (definition_of inp.definitions n) else [])
    ++ entries_of inp ns

unfoldable pub pack_entries : Inputs → List (List PromptNode) → List Entry
pack_entries inp [] = []
pack_entries inp (p ∷ ps) = entries_of inp p ++ pack_entries inp ps

-- The definition of a node that is rendered: the node is an enabled reference to a definition whose
-- type is rendered and whose entry is active.
unfoldable pub shown_definition : List Text → Option Definition → Option Definition
shown_definition active none = none
shown_definition active (some def) =
    if is_non_rendering def.def_type
    then none
    else if contains active def.id
    then some def
    else none

unfoldable pub shown : Inputs → List Text → PromptNode → Option Definition
shown inp active n =
    if n.enabled && is_ref n.kind
    then shown_definition active (definition_of inp.definitions n)
    else none

-- The closure `resolve`.
unfoldable pub resolve : Inputs → List Text → PromptNode → Option Text
resolve inp active n = elim (shown inp active n) [
  | none ↦ none
  | some def ↦ some (maybe_wrap inp.re def n (body_of inp.re def inp.overrides inp.state))
]

abbrev pub Pair : Type 0
Pair = Text × Text

unfoldable pub pack_body : Inputs → Option Definition → List Pair
pack_body inp none = []
pack_body inp (some def) =
    let body = body_of inp.re def inp.overrides inp.state in
    if is_empty (trim body) then [] else (def.def_type, body) ∷ []

-- The closure `render_pack_body`: no pair or one.
unfoldable pub render_pack_body : Inputs → List Text → PromptNode → List Pair
render_pack_body inp active n = pack_body inp (shown inp active n)

unfoldable pub folder_pairs : Inputs → List Text → Bool → List PromptNode → List Pair
folder_pairs inp active select_one [] = []
folder_pairs inp active select_one (k ∷ ks) =
    let rest = folder_pairs inp active select_one ks in
    let pair = render_pack_body inp active k in
    if select_one && not (is_empty pair) then pair else pair ++ rest

unfoldable pub selects_one : PromptNode → Bool
selects_one root = text_eq (or_nothing_text (str_at root.meta (codes "select"))) (codes "one")

unfoldable pub children_of : List PromptNode → PromptNode → List PromptNode
children_of nodes root = sort_nodes (keep (is_child_of root.id) nodes)

unfoldable pub roots_of : List PromptNode → List PromptNode
roots_of nodes = sort_nodes (keep is_root nodes)

unfoldable pub root_pairs : Inputs → List Text → List PromptNode → PromptNode → NodeKind → List Pair
root_pairs inp active pack root ref = render_pack_body inp active root
root_pairs inp active pack root folder =
    if root.enabled then folder_pairs inp active (selects_one root) (children_of pack root) else []
root_pairs inp active pack root history = []
root_pairs inp active pack root content = []

unfoldable pub all_root_pairs : Inputs → List Text → List PromptNode → List PromptNode → List Pair
all_root_pairs inp active pack [] = []
all_root_pairs inp active pack (root ∷ roots) =
    root_pairs inp active pack root root.kind ++ all_root_pairs inp active pack roots

-- The closure `pack_pairs`.
unfoldable pub pack_pairs : Inputs → List Text → List PromptNode → List Pair
pack_pairs inp active pack = all_root_pairs inp active pack (roots_of pack)

unfoldable pub all_pack_pairs : Inputs → List Text → List (List PromptNode) → List Pair
all_pack_pairs inp active [] = []
all_pack_pairs inp active (p ∷ ps) = pack_pairs inp active p ++ all_pack_pairs inp active ps

abbrev pub Grouped : Type 0
Grouped = List (Text × List Text)

unfoldable pub group_pair : Text → Text → Grouped → Grouped
group_pair ty body [] = (ty, body ∷ []) ∷ []
group_pair ty body ((t, bodies) ∷ rest) =
    let others = group_pair ty body rest in
    if text_eq t ty then (t, bodies ++ body ∷ []) ∷ rest else (t, bodies) ∷ others

unfoldable pub group_pairs : Grouped → List Pair → Grouped
group_pairs grouped [] = grouped
group_pairs grouped ((ty, body) ∷ rest) = group_pairs (group_pair ty body grouped) rest

unfoldable pub group_segment : Inputs → Placement → Text × List Text → PromptSegment
group_segment inp placement (ty, bodies) = record {
  placement = placement;
  content = wrapped (tag_or (sanitize_tag inp.re ty) (codes "content")) (join (codes "\n") bodies);
  source = codes "pack:" ++ ty;
}

-- The bodies of a folder's children that are not blank.
unfoldable pub child_bodies : Inputs → List Text → List PromptNode → List Text
child_bodies inp active [] = []
child_bodies inp active (c ∷ cs) =
    let rest = child_bodies inp active cs in
    elim (resolve inp active c) [
      | none ↦ rest
      | some b ↦ if is_empty (trim b) then rest else b ∷ rest
    ]

unfoldable pub folder_segment : Placement → Text → List Text → List PromptSegment
folder_segment placement tag bodies =
    if is_empty bodies
    then []
    else record {
      placement = placement;
      content = wrapped tag (join (codes "\n") bodies);
      source = tag;
    }
      ∷ []

unfoldable pub ref_segment : Placement → PromptNode → Option Text → List PromptSegment
ref_segment placement root none = []
ref_segment placement root (some body) =
    if is_empty (trim body)
    then []
    else record {
      placement = placement;
      content = body;
      source = or_nothing_text root.definition_id;
    }
      ∷ []

-- The segments of one root; a history node yields none.
unfoldable pub root_segments :
    Inputs
    → List Text
    → List PromptNode
    → List (List PromptNode)
    → Placement
    → PromptNode
    → NodeKind
    → List PromptSegment
root_segments inp active nodes packs placement root history = []
root_segments inp active nodes packs placement root content =
    if root.enabled
    then map (group_segment inp placement) (group_pairs [] (all_pack_pairs inp active packs))
    else []
root_segments inp active nodes packs placement root folder =
    if root.enabled
    then folder_segment placement (or_nothing_text root.tag)
        (child_bodies inp active (children_of nodes root))
    else []
root_segments inp active nodes packs placement root ref =
    ref_segment placement root (resolve inp active root)

unfoldable pub is_history : NodeKind → Bool
is_history history = true
is_history folder = false
is_history ref = false
is_history content = false

unfoldable pub placement_after : PromptNode → Placement → Placement
placement_after root placement =
    if root.enabled && is_history root.kind then after_history else placement

unfoldable pub all_segments :
    Inputs
    → List Text
    → List PromptNode
    → List (List PromptNode)
    → Placement
    → List PromptNode
    → List PromptSegment
all_segments inp active nodes packs placement [] = []
all_segments inp active nodes packs placement (root ∷ roots) =
    root_segments inp active nodes packs placement root root.kind
    ++ all_segments inp active nodes packs (placement_after root placement) roots

unfoldable pub any_history : List PromptNode → Bool
any_history [] = false
any_history (root ∷ roots) =
    let rest = any_history roots in if root.enabled && is_history root.kind then true else rest

unfoldable pub rule_of : Option Definition → List Definition
rule_of none = []
rule_of (some d) = if text_eq d.def_type (codes "regex_rule") then d ∷ [] else []

unfoldable pub rules_of : Inputs → List PromptNode → List Definition
rules_of inp [] = []
rules_of inp (n ∷ ns) =
    (if n.enabled && is_ref n.kind then rule_of (definition_of inp.definitions n) else [])
    ++ rules_of inp ns

unfoldable pub active_of :
    Automaton → Draws → Inputs → List PromptNode → List (List PromptNode) → List Text → List Text
active_of ac draws inp nodes pack_trees recent_msgs =
    activate ac draws (entries_of inp nodes ++ pack_entries inp pack_trees) recent_msgs

unfoldable pub assemble_from_nodes_with_packs :
    Automaton
    → Draws
    → Inputs
    → List PromptNode
    → List (List PromptNode)
    → List Text
    → AssembledPlan
assemble_from_nodes_with_packs ac draws inp nodes pack_trees recent_msgs = record {
  segments =
      all_segments inp (active_of ac draws inp nodes pack_trees recent_msgs) nodes pack_trees
        before_history (roots_of nodes);
  history_enabled = any_history (roots_of nodes);
  regex_rules = rules_of inp nodes;
}
