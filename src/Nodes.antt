-- ===== src/Nodes.antt =====
-- shirita-core/src/models/definition.rs and prompt_node.rs: definitions and the nodes of a tree of
-- prompts that refer to them, with the order in which nodes are walked.
use shirita.Prelude.{
  Option, none, some, Bool, true, false, List, [], ◌∷◌, leb, if◌then◌else◌, ◌≡◌, refl, ◌⊎◌, inl,
  inr,
}
use shirita.Text.{Text, codes, text_eq}
use shirita.Json.{Value}
use shirita.Assoc.{Assoc, lookup}
use shirita.Tools.Random.{ℤ, pos, negsuc}

pub record Definition : Type 0 where
  pub id : Text
  pub def_type : Text
  pub name : Text
  pub content : Text
  pub meta : Value

pub data NodeKind : Type 0 where
  folder ref history content : NodeKind

unfoldable pub kind_str : NodeKind → Text
kind_str folder = codes "folder"
kind_str ref = codes "ref"
kind_str history = codes "history"
kind_str content = codes "content"

-- `NodeKind::from_db`; the error keeps the text.
unfoldable pub kind_from_db : Text → Text ⊎ NodeKind
kind_from_db s =
    if text_eq s (codes "folder")
    then inr folder
    else if text_eq s (codes "ref")
    then inr ref
    else if text_eq s (codes "history")
    then inr history
    else if text_eq s (codes "content")
    then inr content
    else inl s

pub data OwnerKind : Type 0 where
  template session pack : OwnerKind

unfoldable pub owner_str : OwnerKind → Text
owner_str template = codes "template"
owner_str session = codes "session"
owner_str pack = codes "pack"

unfoldable pub owner_from_db : Text → Text ⊎ OwnerKind
owner_from_db s =
    if text_eq s (codes "template")
    then inr template
    else if text_eq s (codes "session")
    then inr session
    else if text_eq s (codes "pack")
    then inr pack
    else inl s

pub record PromptNode : Type 0 where
  pub id : Text
  pub owner_kind : OwnerKind
  pub owner_id : Text
  pub parent_id : Option Text
  pub sort_order : ℤ
  pub kind : NodeKind
  pub tag : Option Text
  pub definition_id : Option Text
  pub enabled : Bool
  pub created_at : Text
  pub meta : Value

pub kind_from_db-kind_str : (k : NodeKind) → kind_from_db (kind_str k) ≡ inr k
unfolding kind_from_db kind_str text_eq
kind_from_db-kind_str folder = refl
kind_from_db-kind_str ref = refl
kind_from_db-kind_str history = refl
kind_from_db-kind_str content = refl

unfoldable pub int_le : ℤ → ℤ → Bool
int_le (pos m) (pos n) = leb m n
int_le (pos m) (negsuc n) = false
int_le (negsuc m) (pos n) = true
int_le (negsuc m) (negsuc n) = leb n m

-- A stable sort, as `sort_by_key` is.
unfoldable pub insert_node : PromptNode → List PromptNode → List PromptNode
insert_node n [] = n ∷ []
insert_node n (m ∷ ms) =
    let rest = insert_node n ms in if int_le n.sort_order m.sort_order then n ∷ m ∷ ms else m ∷ rest

-- `sort_by_key(|n| n.sort_order)`
unfoldable pub sort_nodes : List PromptNode → List PromptNode
sort_nodes [] = []
sort_nodes (n ∷ ns) = insert_node n (sort_nodes ns)

unfoldable pub is_ref : NodeKind → Bool
is_ref ref = true
is_ref folder = false
is_ref history = false
is_ref content = false

abbrev pub Definitions : Type 0
Definitions = Assoc Definition

abbrev lookup_some : Definitions → Option Text → Option Definition
lookup_some defs none = none
lookup_some defs (some id) = lookup id defs

-- The definition that a node refers to.
unfoldable pub definition_of : Definitions → PromptNode → Option Definition
definition_of defs n = lookup_some defs n.definition_id

unfoldable pub is_root : PromptNode → Bool
is_root n = elim n.parent_id [ none ↦ true | some _ ↦ false ]

unfoldable pub is_child_of : Text → PromptNode → Bool
is_child_of id n = elim n.parent_id [ none ↦ false | some p ↦ text_eq p id ]
