-- ===== src/Variables/Precedence.antt =====
-- Which of several sources of a variable counts, in shirita-core/src/state.rs.
use shirita.Prelude.{
  ◌≡◌, refl, sym, ap, ◌∙◌, Option, none, some, false, List, [], ◌∷◌, inl, inr, if◌then◌else◌, arith,
  Bool-cases, subst, find_by,
}
use shirita.Text.{Text, codes, text_eq, text_eq_iff}
use shirita.Json.{Value, get, as_object}
use shirita.Assoc.{Assoc, lookup, insert, first_of, lookup-insert, lookup-insert_all}
use shirita.Variables.{
  VarDecl, system_variables, collect_initials, schema_initials, insert_object, effective_state,
}
use shirita.Variables.Schema.{
  ReadDecl, merge_decl, merge_decls, merge_packs, tag_scope, parse_decls,
  resolve_schema_from_bricks,
}
use shirita.Variables.Updates.{declared, or_no_fields}
use shirita.Variables.Reserved.{get-to_fields, get-or_no_fields}

-- The last declaration of a name.
abbrev pub last_decl : Text → List VarDecl → Option VarDecl
last_decl k [] = none
last_decl k (d ∷ ds) = first_of (last_decl k ds) (if text_eq d.name k then some d else none)

abbrev pub initial : Option VarDecl → Option Value
initial none = none
initial (some d) = some d.initial

abbrev or_else : Option VarDecl → Option VarDecl → Option VarDecl
or_else a b = first_of a b

first_of_assoc : (a b c : Option VarDecl) → or_else a (or_else b c) ≡ or_else (or_else a b) c
first_of_assoc none b c = refl
first_of_assoc (some x) b c = refl

lookup-collect_initials :
    (k : Text) (ds : List VarDecl) (m : Assoc Value)
    → lookup k (collect_initials ds m) ≡ first_of (initial (last_decl k ds)) (lookup k m)
unfolding collect_initials
lookup-collect_initials k [] m = refl
lookup-collect_initials k (d ∷ ds) m =
    lookup-collect_initials k ds (insert d.name d.initial m)
    ∙ (go (last_decl k ds) (lookup-insert d.name k d.initial m))
  where
    go :
        (o : Option VarDecl)
        → lookup k (insert d.name d.initial m)
          ≡ (if text_eq d.name k then some d.initial else lookup k m)
        → first_of (initial o) (lookup k (insert d.name d.initial m))
          ≡ first_of (initial (first_of o (if text_eq d.name k then some d else none))) (lookup k m)
    go (some x) h = refl
    go none h = h ∙ (elim (Bool-cases (text_eq d.name k)) [ inl e ↦ rw e refl | inr e ↦ rw e refl ])

lookup-insert_object :
    (k : Text) (v : Value) (m : Assoc Value)
    → lookup k (insert_object (as_object v) m) ≡ first_of (get v k) (lookup k m)
unfolding insert_object
lookup-insert_object k v m = go (as_object v) (get-or_no_fields k v)
  where
    go :
        (o : Option (List (Text × Value)))
        → get v k ≡ lookup k (or_no_fields o)
        → lookup k (insert_object o m) ≡ first_of (get v k) (lookup k m)
    go none h = rw h (unfold lookup or_no_fields in refl)
    go (some fs) h = lookup-insert_all k fs m ∙ rw h (unfold or_no_fields in refl)

declared-merge_decl :
    (k : Text) (d : VarDecl) (out : List VarDecl)
    → declared (merge_decl d out) k ≡ (if text_eq d.name k then some d else declared out k)
unfolding merge_decl declared
declared-merge_decl k d [] = elim (Bool-cases (text_eq d.name k)) [
  | inl e ↦ rw (e, find_by)
  | inr e ↦ rw (e, find_by)
]
declared-merge_decl k d (x ∷ xs) = elim (Bool-cases (text_eq x.name d.name)) [
  | inl e ↦
      let same = (text_eq_iff x.name d.name).0 e in
      elim (Bool-cases (text_eq d.name k)) [
        | inl f ↦ rw (e, f, find_by)
        | inr f ↦ rw (e, f, subst (λ n. text_eq n k ≡ false) (sym same) f, find_by)
      ]
  | inr e ↦ elim (Bool-cases (text_eq x.name k)) [
    | inl f ↦
        let other : text_eq d.name k ≡ false = elim (Bool-cases (text_eq d.name k)) [
          | inl g ↦
              let same = (text_eq_iff x.name k).0 f ∙ sym ((text_eq_iff d.name k).0 g) in
              let there = (text_eq_iff x.name d.name).1 same in absurd (ground arith)
          | inr g ↦ g
        ] in
        rw (e, other, f, find_by)
    | inr f ↦ rw (e, f, find_by) (declared-merge_decl k d xs)
  ]
]

declared-merge_decls :
    (k : Text) (out ds : List VarDecl)
    → declared (merge_decls out ds) k ≡ or_else (last_decl k ds) (declared out k)
unfolding merge_decls
declared-merge_decls k out [] = refl
declared-merge_decls k out (d ∷ ds) =
    declared-merge_decls k (merge_decl d out) ds
    ∙ (rw (declared-merge_decl k d out) (go (last_decl k ds)))
  where
    go :
        (o : Option VarDecl)
        → or_else o (if text_eq d.name k then some d else declared out k)
          ≡ or_else (or_else o (if text_eq d.name k then some d else none)) (declared out k)
    go (some x) = refl
    go none = elim (Bool-cases (text_eq d.name k)) [ inl e ↦ rw e refl | inr e ↦ rw e refl ]

-- The declaration of a name in the packs: in the last that has one.
abbrev pub last_pack : Text → List (List VarDecl) → Option VarDecl
last_pack k [] = none
last_pack k (pd ∷ pds) = first_of (last_pack k pds) (last_decl k (tag_scope pd (codes "pack")))

declared-merge_packs :
    (k : Text) (out : List VarDecl) (pds : List (List VarDecl))
    → declared (merge_packs out pds) k ≡ or_else (last_pack k pds) (declared out k)
unfolding merge_packs
declared-merge_packs k out [] = refl
declared-merge_packs k out (pd ∷ pds) =
    declared-merge_packs k (merge_decls out (tag_scope pd (codes "pack"))) pds
    ∙ (rw (declared-merge_decls k out (tag_scope pd (codes "pack")))
        (first_of_assoc (last_pack k pds) _ _))

-- A name is declared in a session by the last of the conversation's own declarations, and without one
-- by the last pack that declares it, then by the template, and then by the system.
pub declared-resolve_schema :
    (read : ReadDecl) (template_decls : List VarDecl) (pack_decls : List (List VarDecl))
    (override_config : Value) (k : Text)
    → declared (resolve_schema_from_bricks read template_decls pack_decls override_config) k
      ≡ first_of
          (last_decl k (parse_decls read override_config (codes "local_variables") (codes "local")))
          (first_of (last_pack k pack_decls) (
            first_of
              (last_decl k (tag_scope template_decls (codes "template")))
              (declared system_variables k)))
unfolding resolve_schema_from_bricks
declared-resolve_schema read template_decls pack_decls override_config k =
    declared-merge_decls k _ _
    ∙ (rw
        (
          declared-merge_packs k
              (merge_decls system_variables (tag_scope template_decls (codes "template")))
              pack_decls,
          declared-merge_decls k system_variables (tag_scope template_decls (codes "template")),
        )
        refl)

-- The value of a variable in the effective state is that of the branch's snapshot, without one that
-- of the session, and without both the initial one of its last declaration.
pub get-effective_state :
    (schema : List VarDecl) (seed leaf_snapshot : Value) (k : Text)
    → get (effective_state schema seed leaf_snapshot) k
      ≡ first_of (get leaf_snapshot k) (first_of (get seed k) (initial (last_decl k schema)))
unfolding effective_state schema_initials
get-effective_state schema seed leaf_snapshot k =
    get-to_fields k _
    ∙ (lookup-insert_object k leaf_snapshot _
        ∙ (rw
            (
              lookup-insert_object k seed (collect_initials schema []),
              lookup-collect_initials k schema [],
            )
            (ap (λ o. first_of (get leaf_snapshot k) (first_of (get seed k) o))
              (nothing (initial (last_decl k schema))))))
  where
    nothing : (o : Option Value) → first_of o (lookup k []) ≡ o
    nothing none = unfold lookup in refl
    nothing (some v) = refl
