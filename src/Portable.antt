-- ===== src/Portable.antt =====
-- shirita-core/src/portable.rs: the documents in which definitions, templates and packs travel.
pub mod Travels
pub mod Enabled
use shirita.Prelude.{
  ℕ, zero, suc, ◌⊎◌, inl, inr, Option, none, some, Bool, true, false, List, [], ◌∷◌, ◌++◌, map,
  length, if◌then◌else◌,
}
use shirita.Text.{Text, codes, text_eq, decimal}
use shirita.Json.{
  Value, null, bool, number, pos_int, array, object, Fields, end, field, get, str_at, array_at,
  bool_at, or_nothing, or_true, or_no_items, to_items,
}
use shirita.Assoc.{Assoc, lookup, insert}
use shirita.Tools.{contains}
use shirita.Tools.Random.{ℤ, pos, int, i64_field}
use shirita.Nodes.{
  Definition, Definitions, PromptNode, NodeKind, kind_str, kind_from_db, is_ref, definition_of,
}
use shirita.Identity.{PackIdentity}

pub record Template : Type 0 where
  pub id : Text
  pub name : Text
  pub meta : Value

pub record Pack : Type 0 where
  pub id : Text
  pub name : Text
  pub identity : PackIdentity
  pub meta : Value

pub record PortableNode : Type 0 where
  pub local_id : Text
  pub parent_local_id : Option Text
  pub kind : NodeKind
  pub tag : Option Text
  pub def_local_id : Option Text
  pub enabled : Bool
  pub sort_order : ℤ
  pub meta : Value

pub record PortableDef : Type 0 where
  pub local_id : Text
  pub def_type : Text
  pub name : Text
  pub content : Text
  pub meta : Value

pub data PortableDoc : Type 0 where
  definition : Definition → PortableDoc
  template : Text → Value → List PortableNode → List PortableDef → PortableDoc
  pack : Text → PackIdentity → Value → List PortableNode → List PortableDef → PortableDoc

pub data PortableError : Type 0 where
  missing_definition missing_template missing_pack unrecognized : PortableError
  invalid_kind : Text → PortableError

abbrev pub str : Text → Value
str s = Value.text s

abbrev pub opt_str : Option Text → Value
opt_str none = null
opt_str (some s) = str s

unfoldable pub export_definition : Definition → Value
export_definition def = object (
    field (codes "definition")
      (object (
        field (codes "content") (str def.content) (
          field (codes "meta") def.meta
            (field (codes "name") (str def.name) (field (codes "type") (str def.def_type) end)))))
      (field (codes "format") (str (codes "shirita.definition"))
        (field (codes "version") (number (pos_int 1)) end)))

-- The last node of an id, as a map from ids keeps it.
unfoldable pub node_by_id : List PromptNode → Text → Option PromptNode
node_by_id [] id = none
node_by_id (n ∷ ns) id = elim (node_by_id ns id) [
  | some m ↦ some m
  | none ↦ if text_eq n.id id then some n else none
]

unfoldable pub parent_of : List PromptNode → Option Text → Option PromptNode
parent_of nodes none = none
parent_of nodes (some p) = node_by_id nodes p

-- The walk from a node up to its root; none where the fuel is used up.
unfoldable pub all_enabled : ℕ → List PromptNode → List Text → PromptNode → Option Bool
all_enabled zero nodes seen cur = none
all_enabled (suc n) nodes seen cur = elim cur.enabled [
  | false ↦ some false
  | true ↦ elim (contains seen cur.id) [
    | true ↦ some false
    | false ↦ elim (parent_of nodes cur.parent_id) [
      | none ↦ some true
      | some p ↦ all_enabled n nodes (cur.id ∷ seen) p
    ]
  ]
]

abbrev is_yes : Option Bool → Bool
is_yes (some true) = true
is_yes _ = false

unfoldable pub keep_enabled : List PromptNode → List PromptNode → List PromptNode
keep_enabled nodes [] = []
keep_enabled nodes (n ∷ ns) =
    let rest = keep_enabled nodes ns in
    if is_yes (all_enabled (suc (length nodes)) nodes [] n) then n ∷ rest else rest

unfoldable pub filter_enabled : List PromptNode → List PromptNode
filter_enabled nodes = keep_enabled nodes nodes

-- The local ids of the nodes, by their place.
unfoldable pub local_ids : ℕ → List PromptNode → Assoc Text
local_ids i [] = []
local_ids i (n ∷ ns) = local_ids (suc i) ns ++ (n.id, codes "n" ++ decimal i) ∷ []

unfoldable pub local_of : Assoc Text → Option Text → Option Text
local_of lids none = none
local_of lids (some id) = lookup id lids

-- What a node becomes; its own local id is never missing.
unfoldable pub portable_node : Assoc Text → PromptNode → Option Text → PortableNode
portable_node lids n def_local = record {
  local_id = or_nothing (lookup n.id lids);
  parent_local_id = local_of lids n.parent_id;
  kind = n.kind;
  tag = n.tag;
  def_local_id = def_local;
  enabled = n.enabled;
  sort_order = n.sort_order;
  meta = n.meta;
}

unfoldable pub portable_def : Text → Definition → PortableDef
portable_def lid d = record {
  local_id = lid;
  def_type = d.def_type;
  name = d.name;
  content = d.content;
  meta = d.meta;
}

-- The local ids of the definitions that were met, and what is put out so far.
pub record Inlined : Type 0 where
  pub def_lid : Assoc Text
  pub out_nodes : List PortableNode
  pub out_defs : List PortableDef

abbrev push_node : PortableNode → Inlined → Inlined
push_node p s = record s { out_nodes = s.out_nodes ++ p ∷ [] }

unfoldable pub inline_known : Assoc Text → PromptNode → Definition → Inlined → Option Text → Inlined
inline_known lids n d s (some lid) = push_node (portable_node lids n (some lid)) s
inline_known lids n d s none =
    let lid = codes "d" ++ decimal (length s.out_defs) in
    push_node (portable_node lids n (some lid)) (record s {
      def_lid = insert d.id lid s.def_lid;
      out_defs = s.out_defs ++ portable_def lid d ∷ [];
    })

unfoldable pub inline_ref : Assoc Text → PromptNode → Inlined → Option Definition → Inlined
inline_ref lids n s none = s
inline_ref lids n s (some d) = inline_known lids n d s (lookup d.id s.def_lid)

unfoldable pub inline_node : Assoc Text → Definitions → Inlined → PromptNode → Inlined
inline_node lids defs s n =
    if is_ref n.kind
    then inline_ref lids n s (definition_of defs n)
    else push_node (portable_node lids n none) s

unfoldable pub inline_nodes : Assoc Text → Definitions → Inlined → List PromptNode → Inlined
inline_nodes lids defs s [] = s
inline_nodes lids defs s (n ∷ ns) = inline_nodes lids defs (inline_node lids defs s n) ns

-- The JSON of a node and of a definition.
unfoldable pub node_value : PortableNode → Value
node_value n = object (
    field (codes "def_local_id") (opt_str n.def_local_id) (
      field (codes "enabled") (bool n.enabled) (
        field (codes "kind") (str (kind_str n.kind)) (
          field (codes "local_id") (str n.local_id) (
            field (codes "meta") n.meta (
              field (codes "parent_local_id") (opt_str n.parent_local_id) (
                field (codes "sort_order") (int n.sort_order)
                  (field (codes "tag") (opt_str n.tag) end))))))))

unfoldable pub def_value : PortableDef → Value
def_value d = object (
    field (codes "content") (str d.content) (
      field (codes "local_id") (str d.local_id) (
        field (codes "meta") d.meta
          (field (codes "name") (str d.name) (field (codes "type") (str d.def_type) end)))))

unfoldable pub inline_subtree : List PromptNode → Definitions → Inlined
inline_subtree kept defs =
    inline_nodes (local_ids 0 kept) defs (record { def_lid = []; out_nodes = []; out_defs = [] })
      kept

abbrev pub values_of : List Value → Value
values_of vs = array (to_items vs)

unfoldable pub export_template : Template → List PromptNode → Definitions → Value
export_template t nodes defs =
    let out = inline_subtree (filter_enabled nodes) defs in
    object (
      field (codes "definitions") (values_of (map def_value out.out_defs)) (
        field (codes "format") (str (codes "shirita.template")) (
          field (codes "nodes") (values_of (map node_value out.out_nodes)) (
            field (codes "template")
              (object (field (codes "meta") t.meta (field (codes "name") (str t.name) end)))
              (field (codes "version") (number (pos_int 1)) end)))))

-- What serde makes of an identity, and reads from a value.
pub record IdentityFormat : Type 0 where
  pub to_value : PackIdentity → Value
  pub from_value : Value → Option PackIdentity

unfoldable pub export_pack : IdentityFormat → Pack → List PromptNode → Definitions → Value
export_pack format p nodes defs =
    let out = inline_subtree nodes defs in
    object (
      field (codes "definitions") (values_of (map def_value out.out_defs)) (
        field (codes "format") (str (codes "shirita.pack")) (
          field (codes "nodes") (values_of (map node_value out.out_nodes)) (
            field (codes "pack")
              (object (
                field (codes "identity") (format.to_value p.identity)
                  (field (codes "meta") p.meta (field (codes "name") (str p.name) end))))
              (field (codes "version") (number (pos_int 1)) end)))))

-- `s(v, k)`
unfoldable pub text_at : Value → Text → Text
text_at v k = or_nothing (str_at v k)

abbrev or_object : Option Value → Value
or_object none = object end
or_object (some v) = v

abbrev or_zero : Option ℤ → ℤ
or_zero none = pos 0
or_zero (some z) = z

unfoldable pub parse_def : Value → PortableDef
parse_def d = record {
  local_id = text_at d (codes "local_id");
  def_type = text_at d (codes "type");
  name = text_at d (codes "name");
  content = text_at d (codes "content");
  meta = or_object (get d (codes "meta"));
}

unfoldable pub node_of : Value → Text ⊎ NodeKind → PortableError ⊎ PortableNode
node_of n (inl s) = inl (invalid_kind s)
node_of n (inr kind) = inr (record {
  local_id = text_at n (codes "local_id");
  parent_local_id = str_at n (codes "parent_local_id");
  kind = kind;
  tag = str_at n (codes "tag");
  def_local_id = str_at n (codes "def_local_id");
  enabled = or_true (bool_at n (codes "enabled"));
  sort_order = or_zero (i64_field n (codes "sort_order"));
  meta = or_object (get n (codes "meta"));
})

unfoldable pub parse_node : Value → PortableError ⊎ PortableNode
parse_node n = node_of n (kind_from_db (text_at n (codes "kind")))

-- `collect` into a result: the first error.
unfoldable pub add_node :
    PortableError ⊎ PortableNode
    → PortableError ⊎ List PortableNode
    → PortableError ⊎ List PortableNode
add_node (inl e) rest = inl e
add_node (inr p) (inl e) = inl e
add_node (inr p) (inr ps) = inr (p ∷ ps)

unfoldable pub parse_nodes : List Value → PortableError ⊎ List PortableNode
parse_nodes [] = inr []
parse_nodes (v ∷ vs) = add_node (parse_node v) (parse_nodes vs)

abbrev pub Subtree : Type 0
Subtree = List PortableNode × List PortableDef

unfoldable pub with_defs :
    List PortableDef → PortableError ⊎ List PortableNode → PortableError ⊎ Subtree
with_defs defs (inl e) = inl e
with_defs defs (inr nodes) = inr (nodes, defs)

unfoldable pub parse_subtree : Value → PortableError ⊎ Subtree
parse_subtree v =
    with_defs (map parse_def (or_no_items (array_at v (codes "definitions"))))
      (parse_nodes (or_no_items (array_at v (codes "nodes"))))

unfoldable pub template_doc : Value → PortableError ⊎ Subtree → PortableError ⊎ PortableDoc
template_doc t (inl e) = inl e
template_doc t (inr (nodes, defs)) =
    inr (template (text_at t (codes "name")) (or_object (get t (codes "meta"))) nodes defs)

abbrev or_default : Option PackIdentity → PackIdentity
or_default none = record { display_name = none; avatar = none }
or_default (some i) = i

unfoldable pub pack_doc :
    IdentityFormat → Value → PortableError ⊎ Subtree → PortableError ⊎ PortableDoc
pack_doc format p (inl e) = inl e
pack_doc format p (inr (nodes, defs)) = inr (
    pack (text_at p (codes "name"))
      (or_default (format.from_value (or_object (get p (codes "identity")))))
      (or_object (get p (codes "meta"))) nodes defs)

unfoldable pub definition_doc : Text → Value → PortableDoc
definition_doc fresh_id d = definition (record {
  id = fresh_id;
  def_type = text_at d (codes "type");
  name = text_at d (codes "name");
  content = text_at d (codes "content");
  meta = or_object (get d (codes "meta"));
})

-- The id of a definition that is read is drawn anew.
unfoldable pub parse_format : IdentityFormat → Text → Value → Text → PortableError ⊎ PortableDoc
parse_format format fresh_id v name =
    if text_eq name (codes "shirita.definition")
    then elim (get v (codes "definition")) [
      | none ↦ inl missing_definition
      | some d ↦ inr (definition_doc fresh_id d)
    ]
    else if text_eq name (codes "shirita.template")
    then elim (get v (codes "template")) [
      | none ↦ inl missing_template
      | some t ↦ template_doc t (parse_subtree v)
    ]
    else if text_eq name (codes "shirita.pack")
    then elim (get v (codes "pack")) [
      | none ↦ inl missing_pack
      | some p ↦ pack_doc format p (parse_subtree v)
    ]
    else inl unrecognized

unfoldable pub parse_portable : IdentityFormat → Text → Value → PortableError ⊎ PortableDoc
parse_portable format fresh_id v = elim (str_at v (codes "format")) [
  | none ↦ inl unrecognized
  | some name ↦ parse_format format fresh_id v name
]
