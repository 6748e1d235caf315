-- ===== src/Assembly/Plan/Segments.antt =====
-- Where the segments of a plan of shirita-core/src/assembly.rs stand, and that none is blank.
use shirita.Prelude.{
  ◌≡◌, refl, sym, ap, ◌∙◌, append_assoc, Option, none, some, Bool, true, false, ◌&&◌, List, [], ◌∷◌,
  ◌++◌, map, is_empty, if◌then◌else◌, All, All-append, Bool-cases, inl, inr,
}
use shirita.Text.{Text, trim, trim_start, trim_end, is_whitespace}
use shirita.Nodes.{PromptNode, NodeKind, folder, ref, history, content}
use shirita.Keyword.{Automaton}
use shirita.Assembly.{Placement, before_history, after_history, PromptSegment}
use shirita.Assembly.Activation.{Draws}
use shirita.Assembly.Plan.{
  Inputs, group_segment, folder_segment, ref_segment, root_segments, is_history, placement_after,
  all_segments, any_history, assemble_from_nodes_with_packs, Grouped, roots_of, active_of,
}

-- A segment with something to read, at a placement.
abbrev pub Good : Placement → PromptSegment → Type 0
Good placement s = (s.placement ≡ placement) × (is_empty (trim s.content) ≡ false)

trim_start-angle : (r : Text) → is_empty (trim_start (b'<' ∷ r)) ≡ false
unfolding trim_start
trim_start-angle r = refl

trim-angle : (s : Text) → is_empty (trim (b'<' ∷ s)) ≡ false
unfolding trim trim_end
trim-angle s = go (trim_end s)
  where
    go :
        (rest : Text)
        → is_empty (
            trim_start (elim rest as (λ _. Text) [
              | [] ↦ if is_whitespace b'<' then [] else b'<' ∷ []
              | d ∷ r ↦ b'<' ∷ d ∷ r
            ]))
          ≡ false
    go [] = trim_start-angle []
    go (d ∷ r) = trim_start-angle (d ∷ r)

group_segments-Good :
    (inp : Inputs) (placement : Placement) (grouped : Grouped)
    → All (Good placement) (map (group_segment inp placement) grouped)
unfolding group_segment
group_segments-Good inp placement [] = tt
group_segments-Good inp placement ((ty, bodies) ∷ rest) =
    ((refl, trim-angle _), group_segments-Good inp placement rest)

folder_segment-Good :
    (placement : Placement) (tag : Text) (bodies : List Text)
    → All (Good placement) (folder_segment placement tag bodies)
unfolding folder_segment
folder_segment-Good placement tag [] = tt
folder_segment-Good placement tag (b ∷ bs) = ((refl, trim-angle _), tt)

ref_segment-Good :
    (placement : Placement) (root : PromptNode) (o : Option Text)
    → All (Good placement) (ref_segment placement root o)
unfolding ref_segment
ref_segment-Good placement root none = tt
ref_segment-Good placement root (some body) = elim (Bool-cases (is_empty (trim body))) [
  | inl e ↦ rw e tt
  | inr e ↦ rw e ((refl, e), tt)
]

root_segments-Good :
    (inp : Inputs) (active : List Text) (nodes : List PromptNode) (packs : List (List PromptNode))
    (placement : Placement) (root : PromptNode) (k : NodeKind)
    → All (Good placement) (root_segments inp active nodes packs placement root k)
unfolding root_segments
root_segments-Good inp active nodes packs placement root history = tt
root_segments-Good inp active nodes packs placement root content = elim (Bool-cases root.enabled) [
  | inl e ↦ rw e (group_segments-Good inp placement _)
  | inr e ↦ rw e tt
]
root_segments-Good inp active nodes packs placement root folder = elim (Bool-cases root.enabled) [
  | inl e ↦ rw e (folder_segment-Good placement _ _)
  | inr e ↦ rw e tt
]
root_segments-Good inp active nodes packs placement root ref = ref_segment-Good placement root _

-- Segments that are not blank: those before the history and, if the history has a place, behind them
-- those after it.
abbrev pub Placed : Bool → List PromptSegment → Type 0
Placed false segments = All (Good before_history) segments
Placed true segments =
    (before after : List PromptSegment) × (segments ≡ before ++ after)
    × All (Good before_history) before
    × All (Good after_history) after

all_segments-after :
    (inp : Inputs) (active : List Text) (nodes : List PromptNode) (packs : List (List PromptNode))
    (roots : List PromptNode)
    → All (Good after_history) (all_segments inp active nodes packs after_history roots)
unfolding all_segments placement_after
all_segments-after inp active nodes packs [] = tt
all_segments-after inp active nodes packs (root ∷ roots) =
    elim (Bool-cases (root.enabled && is_history root.kind)) [
      | inl e ↦ rw e (
          All-append (Good after_history) _ _
            (root_segments-Good inp active nodes packs after_history root root.kind)
            (all_segments-after inp active nodes packs roots))
      | inr e ↦ rw e (
          All-append (Good after_history) _ _
            (root_segments-Good inp active nodes packs after_history root root.kind)
            (all_segments-after inp active nodes packs roots))
    ]

Placed-append :
    (b : Bool) (first rest : List PromptSegment)
    → All (Good before_history) first
    → Placed b rest
    → Placed b (first ++ rest)
Placed-append false first rest p q = All-append (Good before_history) first rest p q
Placed-append true first rest p (before, after, e, x, y) = (
  first ++ before,
  after,
  ap (λ l. first ++ l) e ∙ sym (append_assoc first before after),
  All-append (Good before_history) first before p x,
  y,
)

all_segments-Placed :
    (inp : Inputs) (active : List Text) (nodes : List PromptNode) (packs : List (List PromptNode))
    (roots : List PromptNode)
    → Placed (any_history roots) (all_segments inp active nodes packs before_history roots)
unfolding all_segments placement_after any_history
all_segments-Placed inp active nodes packs [] = tt
all_segments-Placed inp active nodes packs (root ∷ roots) =
    let first = root_segments-Good inp active nodes packs before_history root root.kind in
    elim (Bool-cases (root.enabled && is_history root.kind)) [
      | inl e ↦ rw e (_, _, refl, first, all_segments-after inp active nodes packs roots)
      | inr e ↦ rw e (Placed-append _ _ _ first (all_segments-Placed inp active nodes packs roots))
    ]

-- No segment of a plan is blank, and the segments of a plan are first those before the history and
-- then those after it; without an enabled history at the root all stand before it.
pub assemble-Placed :
    (ac : Automaton) (draws : Draws) (inp : Inputs) (nodes : List PromptNode)
    (pack_trees : List (List PromptNode)) (recent_msgs : List Text)
    → Placed
        (assemble_from_nodes_with_packs ac draws inp nodes pack_trees recent_msgs).history_enabled
        (assemble_from_nodes_with_packs ac draws inp nodes pack_trees recent_msgs).segments
unfolding assemble_from_nodes_with_packs
assemble-Placed ac draws inp nodes pack_trees recent_msgs =
    all_segments-Placed inp (active_of ac draws inp nodes pack_trees recent_msgs) nodes pack_trees
      (roots_of nodes)
