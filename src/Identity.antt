-- ===== src/Identity.antt =====
-- shirita-core/src/identity.rs: the names and avatars of the two sides of a chat.
use shirita.Prelude.{
  Option, none, some, ◌&&◌, List, [], ◌∷◌, ◌++◌, keep, find_by, is_empty, if◌then◌else◌,
}
use shirita.Text.{Text, codes, text_eq}
use shirita.Json.{str_at}
use shirita.Nodes.{Definition, Definitions, PromptNode, is_ref, definition_of}

pub record PackIdentity : Type 0 where
  pub display_name : Option Text
  pub avatar : Option Text

pub record SideIdentity : Type 0 where
  pub name : Option Text
  pub avatar : Option Text

pub record Identity : Type 0 where
  pub assistant : SideIdentity
  pub user : SideIdentity

abbrev listed : Option Definition → List Definition
listed none = []
listed (some d) = d ∷ []

unfoldable pub candidates : Definitions → Text → List PromptNode → List Definition
candidates defs def_type [] = []
candidates defs def_type (n ∷ ns) =
    (if is_ref n.kind && n.enabled
      then keep (λ d. text_eq d.def_type def_type) (listed (definition_of defs n))
      else [])
    ++ candidates defs def_type ns

unfoldable pub first_def : List Definition → Option Definition
first_def [] = none
first_def (d ∷ ds) = some d

unfoldable pub or_first : List Definition → Option Definition → Option Definition
or_first cs (some d) = some d
or_first cs none = first_def cs

unfoldable pub named : List Definition → Option Text → Option Definition
named cs none = none
named cs (some name) = find_by (λ d. text_eq d.name name) cs

unfoldable pub pick : List PromptNode → Definitions → Text → Option Text → Option Definition
pick nodes defs def_type template_name =
    let cs = candidates defs def_type nodes in or_first cs (named cs template_name)

unfoldable pub not_empty : Option Text → Option Text
not_empty none = none
not_empty (some s) = if is_empty s then none else some s

unfoldable pub pack_name : Option PackIdentity → Option Text
pack_name none = none
pack_name (some p) = not_empty p.display_name

unfoldable pub pack_avatar : Option PackIdentity → Option Text
pack_avatar none = none
pack_avatar (some p) = not_empty p.avatar

abbrev pub or_text : Option Text → Option Text → Option Text
or_text none d = d
or_text (some s) d = some s

unfoldable pub def_name : Option Definition → Option Text
def_name none = none
def_name (some d) = some d.name

unfoldable pub def_avatar : Option Definition → Option Text
def_avatar none = none
def_avatar (some d) = str_at d.meta (codes "avatar")

unfoldable pub resolve_identity_with_packs :
    List PromptNode
    → Definitions
    → Option Text
    → Option Text
    → Option PackIdentity
    → Option PackIdentity
    → Identity
resolve_identity_with_packs nodes defs template_name session_avatar assistant_pack user_pack =
    let char_def = pick nodes defs (codes "char") template_name in
    let persona_def = pick nodes defs (codes "persona") template_name in
    record {
      assistant = record {
        name = or_text (pack_name assistant_pack) (def_name char_def);
        avatar = or_text (pack_avatar assistant_pack) session_avatar;
      };
      user = record {
        name = or_text (pack_name user_pack) (def_name persona_def);
        avatar = or_text (pack_avatar user_pack) (def_avatar persona_def);
      };
    }

unfoldable pub resolve_identity :
    List PromptNode → Definitions → Option Text → Option Text → Identity
resolve_identity nodes defs template_name session_avatar =
    resolve_identity_with_packs nodes defs template_name session_avatar none none
