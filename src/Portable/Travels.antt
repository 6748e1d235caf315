-- ===== src/Portable/Travels.antt =====
-- A pack that is exported by shirita-core/src/portable.rs is read back.
use shirita.Prelude.{
  ◌≡◌, refl, ap, ◌∙◌, inl, inr, Option, none, some, true, List, [], ◌∷◌, map, All, All-append, leb,
  Bool-cases,
}
use shirita.Text.{Text, codes, text_eq}
use shirita.Json.{
  Value, object, field, end, get, get_field, str_at, array_at, bool_at, items, to_items, as_str,
}
use shirita.Assoc.{Assoc, lookup}
use shirita.Tools.Random.{ℤ, pos, negsuc, int, i64_field, as_i64, i64_max}
use shirita.Nodes.{
  Definition, Definitions, PromptNode, is_ref, definition_of, kind_from_db-kind_str,
}
use shirita.Portable

-- An order that a 64-bit integer can hold.
abbrev pub InI64 : ℤ → Type 0
InI64 (pos n) = leb n i64_max ≡ true
InI64 (negsuc n) = Unit

items-to_items : (vs : List Value) → items (to_items vs) ≡ vs
items-to_items [] = refl
items-to_items (v ∷ vs) = ap (λ r. v ∷ r) (items-to_items vs)

as_str-opt_str : (o : Option Text) → as_str (Portable.opt_str o) ≡ o
as_str-opt_str none = refl
as_str-opt_str (some s) = refl

as_i64-int : (z : ℤ) → InI64 z → as_i64 (int z) ≡ some z
as_i64-int (pos n) h = rw h refl
as_i64-int (negsuc n) h = refl

parse_def-def_value : (d : Portable.PortableDef) → Portable.parse_def (Portable.def_value d) ≡ d
unfolding Portable.parse_def Portable.def_value Portable.text_at get get_field text_eq str_at
parse_def-def_value d = refl

parse_node-node_value :
    (n : Portable.PortableNode)
    → InI64 n.sort_order
    → Portable.parse_node (Portable.node_value n) ≡ inr n
unfolding Portable.parse_node Portable.node_of Portable.node_value Portable.text_at get get_field
    text_eq str_at bool_at i64_field
parse_node-node_value n h =
    rw
      (
        kind_from_db-kind_str n.kind,
        as_str-opt_str n.parent_local_id,
        as_str-opt_str n.tag,
        as_str-opt_str n.def_local_id,
        as_i64-int n.sort_order h,
      )
      refl

InRange : List Portable.PortableNode → Type 0
InRange ns = All (λ n. InI64 n.sort_order) ns

parse_nodes-node_value :
    (ns : List Portable.PortableNode)
    → InRange ns
    → Portable.parse_nodes (map Portable.node_value ns) ≡ inr ns
unfolding Portable.parse_nodes InRange Portable.add_node
parse_nodes-node_value [] h = refl
parse_nodes-node_value (n ∷ ns) h =
    rw (parse_node-node_value n h.0, parse_nodes-node_value ns h.1) refl

parse_defs-def_value :
    (ds : List Portable.PortableDef) → map Portable.parse_def (map Portable.def_value ds) ≡ ds
parse_defs-def_value [] = refl
parse_defs-def_value (d ∷ ds) = rw (parse_def-def_value d, parse_defs-def_value ds) refl

module _ (lids : Assoc Text) where
  inline_known-InRange :
      (n : PromptNode) (d : Definition) (s : Portable.Inlined) (o : Option Text)
      → InI64 n.sort_order
      → InRange s.out_nodes
      → InRange (Portable.inline_known lids n d s o).out_nodes
  unfolding Portable.inline_known InRange Portable.portable_node
  inline_known-InRange n d s (some lid) h a =
      All-append (λ n. InI64 n.sort_order) s.out_nodes _ a (h, tt)
  inline_known-InRange n d s none h a = All-append (λ n. InI64 n.sort_order) s.out_nodes _ a (h, tt)

  inline_ref-InRange :
      (n : PromptNode) (s : Portable.Inlined) (o : Option Definition)
      → InI64 n.sort_order
      → InRange s.out_nodes
      → InRange (Portable.inline_ref lids n s o).out_nodes
  unfolding Portable.inline_ref
  inline_ref-InRange n s none h a = a
  inline_ref-InRange n s (some d) h a = inline_known-InRange n d s (lookup d.id s.def_lid) h a

  inline_node-InRange :
      (defs : Definitions) (s : Portable.Inlined) (n : PromptNode)
      → InI64 n.sort_order
      → InRange s.out_nodes
      → InRange (Portable.inline_node lids defs s n).out_nodes
  unfolding Portable.inline_node InRange Portable.portable_node
  inline_node-InRange defs s n h a = elim (Bool-cases (is_ref n.kind)) [
    | inl e ↦ rw e (inline_ref-InRange n s (definition_of defs n) h a)
    | inr e ↦ rw e (All-append (λ n. InI64 n.sort_order) s.out_nodes _ a (h, tt))
  ]

  inline_nodes-InRange :
      (defs : Definitions) (s : Portable.Inlined) (ns : List PromptNode)
      → All (λ n. InI64 n.sort_order) ns
      → InRange s.out_nodes
      → InRange (Portable.inline_nodes lids defs s ns).out_nodes
  unfolding Portable.inline_nodes
  inline_nodes-InRange defs s [] h a = a
  inline_nodes-InRange defs s (n ∷ ns) h a =
      inline_nodes-InRange defs (Portable.inline_node lids defs s n) ns h.1
        (inline_node-InRange defs s n h.0 a)

inline_subtree-InRange :
    (kept : List PromptNode) (defs : Definitions)
    → All (λ n. InI64 n.sort_order) kept
    → InRange (Portable.inline_subtree kept defs).out_nodes
unfolding Portable.inline_subtree
inline_subtree-InRange kept defs h =
    inline_nodes-InRange (Portable.local_ids 0 kept) defs _ kept h (unfold InRange in tt)

parse_subtree-value :
    (v : Value) (ns : List Portable.PortableNode) (ds : List Portable.PortableDef)
    → array_at v (codes "definitions") ≡ some (map Portable.def_value ds)
    → array_at v (codes "nodes") ≡ some (map Portable.node_value ns)
    → InRange ns
    → Portable.parse_subtree v ≡ inr (ns, ds)
unfolding Portable.parse_subtree Portable.with_defs
parse_subtree-value v ns ds d n h =
    rw (d, n) (rw (parse_defs-def_value ds, parse_nodes-node_value ns h) refl)

parse_portable-pack :
    (format : Portable.IdentityFormat) (fresh_id : Text) (v p : Value)
    (ns : List Portable.PortableNode) (ds : List Portable.PortableDef)
    → str_at v (codes "format") ≡ some (codes "shirita.pack")
    → get v (codes "pack") ≡ some p
    → Portable.parse_subtree v ≡ inr (ns, ds)
    → Portable.parse_portable format fresh_id v ≡ Portable.pack_doc format p (inr (ns, ds))
unfolding Portable.parse_portable Portable.parse_format text_eq
parse_portable-pack format fresh_id v p ns ds f g h =
    rw (f, Portable.parse_portable) (rw (g, Portable.parse_format) (rw h refl))

array_at-values_of :
    (v : Value) (k : Text) (vs : List Value)
    → get v k ≡ some (Portable.values_of vs)
    → array_at v k ≡ some vs
unfolding array_at
array_at-values_of v k vs e = rw (e, array_at) (ap some (items-to_items vs))

definitions_of-pack :
    (format : Portable.IdentityFormat) (p : Portable.Pack) (nodes : List PromptNode)
    (defs : Definitions)
    → get (Portable.export_pack format p nodes defs) (codes "definitions")
      ≡ some (
          Portable.values_of (map Portable.def_value (Portable.inline_subtree nodes defs).out_defs))
unfolding Portable.export_pack get get_field text_eq
definitions_of-pack format p nodes defs = refl

nodes_of-pack :
    (format : Portable.IdentityFormat) (p : Portable.Pack) (nodes : List PromptNode)
    (defs : Definitions)
    → get (Portable.export_pack format p nodes defs) (codes "nodes")
      ≡ some (
          Portable.values_of
            (map Portable.node_value (Portable.inline_subtree nodes defs).out_nodes))
unfolding Portable.export_pack get get_field text_eq
nodes_of-pack format p nodes defs = refl

format_of-pack :
    (format : Portable.IdentityFormat) (p : Portable.Pack) (nodes : List PromptNode)
    (defs : Definitions)
    → str_at (Portable.export_pack format p nodes defs) (codes "format")
      ≡ some (codes "shirita.pack")
unfolding Portable.export_pack get get_field text_eq str_at
format_of-pack format p nodes defs = refl

abbrev pack_fields : Portable.IdentityFormat → Portable.Pack → Value
pack_fields format p = object (
    field (codes "identity") (format.to_value p.identity)
      (field (codes "meta") p.meta (field (codes "name") (Portable.str p.name) end)))

fields_of-pack :
    (format : Portable.IdentityFormat) (p : Portable.Pack) (nodes : List PromptNode)
    (defs : Definitions)
    → get (Portable.export_pack format p nodes defs) (codes "pack") ≡ some (pack_fields format p)
unfolding Portable.export_pack get get_field text_eq
fields_of-pack format p nodes defs = refl

pack_doc-fields :
    (format : Portable.IdentityFormat) (p : Portable.Pack) (ns : List Portable.PortableNode)
    (ds : List Portable.PortableDef)
    → format.from_value (format.to_value p.identity) ≡ some p.identity
    → Portable.pack_doc format (pack_fields format p) (inr (ns, ds))
      ≡ inr (Portable.pack p.name p.identity p.meta ns ds)
unfolding Portable.pack_doc Portable.text_at get get_field text_eq str_at
pack_doc-fields format p ns ds i = rw i refl

-- If the order of every node is within 64 bits and the format of identities reads what it writes, the
-- document of a pack is read back to the name, the identity and the meta of the pack, and to its nodes
-- and definitions as they were inlined.
pub parse_portable-export_pack :
    (format : Portable.IdentityFormat) (fresh_id : Text) (p : Portable.Pack)
    (nodes : List PromptNode) (defs : Definitions)
    → format.from_value (format.to_value p.identity) ≡ some p.identity
    → All (λ n. InI64 n.sort_order) nodes
    → Portable.parse_portable format fresh_id (Portable.export_pack format p nodes defs)
      ≡ inr (
          Portable.pack p.name p.identity p.meta
            (Portable.inline_subtree nodes defs).out_nodes
            (Portable.inline_subtree nodes defs).out_defs)
parse_portable-export_pack format fresh_id p nodes defs i h =
    let out = Portable.inline_subtree nodes defs in
    let v = Portable.export_pack format p nodes defs in
    parse_portable-pack format fresh_id v (pack_fields format p) out.out_nodes out.out_defs
      (format_of-pack format p nodes defs) (fields_of-pack format p nodes defs)
      (parse_subtree-value v out.out_nodes out.out_defs
        (array_at-values_of v (codes "definitions") _ (definitions_of-pack format p nodes defs))
        (array_at-values_of v (codes "nodes") _ (nodes_of-pack format p nodes defs))
        (inline_subtree-InRange nodes defs h))
    ∙ pack_doc-fields format p out.out_nodes out.out_defs i
