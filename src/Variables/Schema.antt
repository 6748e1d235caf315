-- ===== src/Variables/Schema.antt =====
-- shirita-core/src/state.rs: the schema of a session, from the bricks of variables of its trees.
use shirita.Prelude.{Option, none, some, ◌&&◌, List, [], ◌∷◌, ◌++◌, keep, if◌then◌else◌}
use shirita.Text.{Text, codes, text_eq}
use shirita.Json.{Value, array_at, or_no_items}
use shirita.Nodes.{Definition, Definitions, PromptNode, is_ref, definition_of, sort_nodes}
use shirita.Variables.{VarDecl, system_variables}

-- What serde makes of a declaration is a parameter.
abbrev pub ReadDecl : Type 0
ReadDecl = Value → Option VarDecl

-- `filter_map` of the reading that succeeds.
unfoldable pub read_decls : ReadDecl → List Value → List VarDecl
read_decls read [] = []
read_decls read (v ∷ vs) =
    let rest = read_decls read vs in elim (read v) [ none ↦ rest | some d ↦ d ∷ rest ]

-- `decls_of`
unfoldable pub decls_of : ReadDecl → Value → List VarDecl
decls_of read meta = read_decls read (or_no_items (array_at meta (codes "decls")))

unfoldable pub tag_scope : List VarDecl → Text → List VarDecl
tag_scope [] scope = []
tag_scope (d ∷ ds) scope = record d { scope = some scope } ∷ tag_scope ds scope

-- `parse_decls(value.get(key), scope)`
unfoldable pub parse_decls : ReadDecl → Value → Text → Text → List VarDecl
parse_decls read v key scope = tag_scope (read_decls read (or_no_items (array_at v key))) scope

-- In place of the declaration of the same name, or at the end.
unfoldable pub merge_decl : VarDecl → List VarDecl → List VarDecl
merge_decl d [] = d ∷ []
merge_decl d (x ∷ xs) =
    let rest = merge_decl d xs in if text_eq x.name d.name then d ∷ xs else x ∷ rest

unfoldable pub merge_decls : List VarDecl → List VarDecl → List VarDecl
merge_decls out [] = out
merge_decls out (d ∷ ds) = merge_decls (merge_decl d out) ds

unfoldable pub merge_packs : List VarDecl → List (List VarDecl) → List VarDecl
merge_packs out [] = out
merge_packs out (pd ∷ pds) = merge_packs (merge_decls out (tag_scope pd (codes "pack"))) pds

unfoldable pub resolve_schema_from_bricks :
    ReadDecl → List VarDecl → List (List VarDecl) → Value → List VarDecl
resolve_schema_from_bricks read template_decls pack_decls override_config =
    let out = merge_decls system_variables (tag_scope template_decls (codes "template")) in
    merge_decls (merge_packs out pack_decls)
      (parse_decls read override_config (codes "local_variables") (codes "local"))

unfoldable pub brick_decls : ReadDecl → Option Definition → List VarDecl
brick_decls read none = []
brick_decls read (some d) =
    if text_eq d.def_type (codes "variables") then decls_of read d.meta else []

unfoldable pub all_decls : ReadDecl → Definitions → List PromptNode → List VarDecl
all_decls read defs [] = []
all_decls read defs (n ∷ ns) = brick_decls read (definition_of defs n) ++ all_decls read defs ns

unfoldable pub variables_from_nodes : ReadDecl → List PromptNode → Definitions → List VarDecl
variables_from_nodes read nodes defs =
    all_decls read defs (sort_nodes (keep (λ n. is_ref n.kind && n.enabled) nodes))
