-- ===== src/Panels.antt =====
-- shirita-core/src/panels.rs: the panels of a tree.
use shirita.Prelude.{
  ℕ, ◌%◌, ◌^◌, Option, none, some, Bool, true, false, ◌&&◌, List, [], ◌∷◌, map, keep, if◌then◌else◌,
}
use shirita.Text.{Text, codes, text_eq, join}
use shirita.Json.{Value, object, end, get, str_at}
use shirita.Nodes.{
  Definition, Definitions, PromptNode, NodeKind, folder, ref, history, content, is_ref,
  definition_of, sort_nodes, is_child_of,
}
use shirita.Assembly.Activation.{u64_of}

pub record RenderedPanel : Type 0 where
  pub id : Text
  pub name : Text
  pub html : Text
  pub css : Text
  pub caps : Value
  pub min_messages : ℕ

-- The parts of a panel's children in their order, and the name of the first of them in HTML.
pub record PanelParts : Type 0 where
  pub html_parts : List Text
  pub css_parts : List Text
  pub first_html_name : Option Text

unfoldable pub is_folder : NodeKind → Bool
is_folder folder = true
is_folder ref = false
is_folder history = false
is_folder content = false

abbrev no_parts : PanelParts
no_parts = record { html_parts = []; css_parts = []; first_html_name = none }

unfoldable pub add_part : Option Definition → PanelParts → PanelParts
add_part none p = p
add_part (some d) p =
    if text_eq d.def_type (codes "html")
    then record {
      html_parts = d.content ∷ p.html_parts;
      css_parts = p.css_parts;
      first_html_name = some d.name;
    }
    else if text_eq d.def_type (codes "css")
    then record p { css_parts = d.content ∷ p.css_parts }
    else p

-- The loop over the children, from its end, so that the first name is the last that is set.
unfoldable pub parts_of : Definitions → List PromptNode → PanelParts
parts_of defs [] = no_parts
parts_of defs (k ∷ ks) = add_part (definition_of defs k) (parts_of defs ks)

unfoldable pub has_panel_tag : Option Text → Bool
has_panel_tag none = false
has_panel_tag (some t) = text_eq t (codes "panel")

unfoldable pub panel_name : Option Text → Option Text → Text
panel_name (some n) first = n
panel_name none (some n) = n
panel_name none none = codes "Panel"

abbrev or_object : Option Value → Value
or_object none = object end
or_object (some v) = v

abbrev or_zero : Option ℕ → ℕ
or_zero none = 0
or_zero (some n) = n

-- The number of messages is cut to 32 bits.
unfoldable pub panel_of : Definitions → List PromptNode → PromptNode → RenderedPanel
panel_of defs nodes root =
    let kids =
      sort_nodes (keep (λ n. (is_ref n.kind && n.enabled) && is_child_of root.id n) nodes) in
    let p = parts_of defs kids in
    record {
      id = root.id;
      name = panel_name (str_at root.meta (codes "name")) p.first_html_name;
      html = join (codes "\n") p.html_parts;
      css = join (codes "\n") p.css_parts;
      caps = or_object (get root.meta (codes "caps"));
      min_messages = or_zero (u64_of (get root.meta (codes "min_messages"))) % 2 ^ 32;
    }

unfoldable pub collect_panels : List PromptNode → Definitions → List RenderedPanel
collect_panels nodes defs =
    map (panel_of defs nodes)
      (sort_nodes (keep (λ n. is_folder n.kind && (n.enabled && has_panel_tag n.tag)) nodes))
