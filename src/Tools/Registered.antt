-- ===== src/Tools/Registered.antt =====
-- What a chain of registrations of shirita-core/src/tools.rs accepts, and what can then be looked up.
use shirita.Prelude.{
  ◌≡◌, ◌≢◌, refl, sym, ap, ◌∙◌, subst, ◌↔◌, ◌⊎◌, inl, inr, Option, none, some, true, false, List,
  [], ◌∷◌, All, Bool-cases, arith, if◌then◌else◌,
}
use shirita.Text.{Text, text_eq, text_eq_iff}
use shirita.Assoc.{
  Assoc, lookup, insert, contains_key, first_of, lookup-insert, lookup-contains_key,
}
use shirita.Tools.{
  ToolSpec, ToolHandler, ToolRegistry, RegisterError, invalid_tool_name, duplicate_tool, no_tools,
  valid_name, register,
}
use shirita.Tools.Builtin.{status_tool, finish_tool, replace_response_tool, patch_response_tool}
use shirita.Tools.Random.{Dice, random_number_tool, random_choose_tool}
use shirita.Tools.Math.{Floats, math_tool}
use shirita.Tools.Registry.{
  Building, then_register, builtin_tool_registry, update_status_spec, finish_spec, replace_spec,
  patch_spec, random_number_spec, random_choose_spec, math_spec,
}

abbrev pub Tool : Type 0
Tool = ToolSpec × ToolHandler

-- One registration after another.
unfoldable pub register_all : Building → List Tool → Building
register_all building [] = building
register_all building (t ∷ ts) = register_all (then_register building t.0 t.1) ts

abbrev builtin_tools : Floats → Dice → List Tool
builtin_tools fl dice =
    (update_status_spec, status_tool)
    ∷ (finish_spec, finish_tool)
    ∷ (replace_spec, replace_response_tool)
    ∷ (patch_spec, patch_response_tool)
    ∷ (random_number_spec, random_number_tool dice)
    ∷ (random_choose_spec, random_choose_tool dice)
    ∷ (math_spec, math_tool fl)
    ∷ []

-- No two tools have one name.
abbrev pub Distinct : List Tool → Type 0
Distinct [] = Unit
Distinct (t ∷ ts) = All (λ u. t.0.name ≢ u.0.name) ts × Distinct ts

abbrev pub Valid : List Tool → Type 0
Valid ts = All (λ t. valid_name t.0.name ≡ true) ts

-- What belongs to the tool with a name.
abbrev pub named {ℓ} : {V : Type ℓ} → (Tool → V) → Text → List Tool → Option V
named f name [] = none
named f name (t ∷ ts) = if text_eq t.0.name name then some (f t) else named f name ts

-- None of the tools has a name that is taken.
abbrev Fresh : ToolRegistry → List Tool → Type 0
Fresh b ts = All (λ t. lookup t.0.name b.specs ≡ none) ts

abbrev with_tool : ToolRegistry → Tool → ToolRegistry
with_tool b t = record {
  specs = insert t.0.name t.0 b.specs;
  handlers = insert t.0.name t.1 b.handlers;
}

lookup-none : (k : Text) (m : Assoc ToolSpec) → lookup k m ≡ none → contains_key k m ≡ false
unfolding lookup contains_key
lookup-none k [] h = refl
lookup-none k ((j, v) ∷ m) h = ground (arith, lookup-none k m)

-- A registration fails, or the name is valid and not taken and the tool is in both maps.
register-cases :
    (b : ToolRegistry) (t : Tool)
    → ((register b t.0 t.1 ≡ inr (with_tool b t))
        × (valid_name t.0.name ≡ true)
        × (lookup t.0.name b.specs ≡ none))
      ⊎ ((e : RegisterError) × (register b t.0 t.1 ≡ inl e)
          × ((valid_name t.0.name ≡ true) → lookup t.0.name b.specs ≢ none))
unfolding register
register-cases b t = elim (Bool-cases (valid_name t.0.name)) [
  | inl v ↦ elim (Bool-cases (contains_key t.0.name b.specs)) [
    | inl c ↦ inr (
      duplicate_tool t.0.name,
      rw (v, c) refl,
      λ q n. let free = lookup-none t.0.name b.specs n in absurd (ground arith),
    )
    | inr c ↦ inl (rw (v, c) refl, v, lookup-contains_key t.0.name b.specs c)
  ]
  | inr v ↦ inr (invalid_tool_name t.0.name, rw v refl, λ q. absurd (ground arith))
]

register_all-inl : (e : RegisterError) (ts : List Tool) → register_all (inl e) ts ≡ inl e
unfolding register_all then_register
register_all-inl e [] = refl
register_all-inl e (t ∷ ts) = register_all-inl e ts

named-none {ℓ} :
    {V : Type ℓ} (f : Tool → V) (t : Tool) (name : Text) (ts : List Tool)
    → All (λ u. t.0.name ≢ u.0.name) ts
    → t.0.name ≡ name
    → named f name ts ≡ none
named-none f t name [] d e = refl
named-none f t name (u ∷ ts) d e = elim (Bool-cases (text_eq u.0.name name)) [
  | inl h ↦ absurd (d.0 (e ∙ sym ((text_eq_iff u.0.name name).0 h)))
  | inr h ↦ rw h (named-none f t name ts d.1 e)
]

-- A tool that was added is found before those that were there.
first_of-named {ℓ} :
    {V : Type ℓ} (f : Tool → V) (t : Tool) (name : Text) (ts : List Tool) (m : Assoc V)
    → All (λ u. t.0.name ≢ u.0.name) ts
    → first_of (named f name ts) (lookup name (insert t.0.name (f t) m))
      ≡ first_of (named f name (t ∷ ts)) (lookup name m)
first_of-named f t name ts m d = elim (Bool-cases (text_eq t.0.name name)) [
  | inl h ↦
      rw
        (
          lookup-insert t.0.name name (f t) m,
          h,
          named-none f t name ts d ((text_eq_iff t.0.name name).0 h),
        )
        refl
  | inr h ↦ rw (lookup-insert t.0.name name (f t) m, h) refl
]

lookup-insert-none :
    (k j : Text) (v : ToolSpec) (m : Assoc ToolSpec)
    → (lookup j (insert k v m) ≡ none) ↔ ((k ≢ j) × (lookup j m ≡ none))
lookup-insert-none k j v m = elim (Bool-cases (text_eq k j)) [
  | inl e ↦
      rw (lookup-insert k j v m, e)
        (λ h. absurd (ground arith), λ h. absurd (h.0 ((text_eq_iff k j).0 e)))
  | inr e ↦
      rw (lookup-insert k j v m, e)
        (λ h. ((λ q. let r = (text_eq_iff k j).1 q in absurd (ground arith)), h), λ h. h.1)
]

Fresh-with_tool :
    (b : ToolRegistry) (t : Tool) (ts : List Tool)
    → Fresh (with_tool b t) ts ↔ (All (λ u. t.0.name ≢ u.0.name) ts × Fresh b ts)
Fresh-with_tool b t [] = (λ h. (tt, tt), λ h. tt)
Fresh-with_tool b t (u ∷ ts) =
    let rest = Fresh-with_tool b t ts in
    let first = lookup-insert-none t.0.name u.0.name t.0 b.specs in
    (
      λ h. let r = rest.0 h.1 in let f = first.0 h.0 in ((f.0, r.0), (f.1, r.1)),
      λ h. (first.1 (h.0.0, h.1.0), rest.1 (h.0.1, h.1.1)),
    )

-- What the registry holds once the tools are added.
abbrev Adds : ToolRegistry → List Tool → ToolRegistry → Type 0
Adds b ts built =
    (name : Text)
    → (lookup name built.specs ≡ first_of (named (λ t. t.0) name ts) (lookup name b.specs))
      × (lookup name built.handlers ≡ first_of (named (λ t. t.1) name ts) (lookup name b.handlers))

register_all-only :
    (b built : ToolRegistry) (ts : List Tool)
    → register_all (inr b) ts ≡ inr built
    → Valid ts × Distinct ts × Fresh b ts × Adds b ts built
unfolding register_all then_register
register_all-only b built [] h =
    let same : b ≡ built = ground arith in
    (tt, tt, tt, λ name. subst (λ x. Adds b [] x) same (λ n. (refl, refl)) name)
register_all-only b built (t ∷ ts) h = elim (register-cases b t) [
  | inl (e, v, n) ↦
      let next : register_all (inr (with_tool b t)) ts ≡ inr built =
        sym (ap (λ x. register_all x ts) e) ∙ h in
      let (vs, ds, fs, adds) = register_all-only (with_tool b t) built ts next in
      let (apart, free) = (Fresh-with_tool b t ts).0 fs in
      (
        (v, vs),
        (apart, ds),
        (n, free),
        λ name. (
          (adds name).0 ∙ first_of-named (λ u. u.0) t name ts b.specs apart,
          (adds name).1 ∙ first_of-named (λ u. u.1) t name ts b.handlers apart,
        ),
      )
  | inr (e, q, c) ↦
      let wrong : inl e ≡ inr built =
        sym (ap (λ x. register_all x ts) q ∙ register_all-inl e ts) ∙ h in
      absurd (ground arith)
]

register_all-built :
    (b : ToolRegistry) (ts : List Tool)
    → Valid ts
    → Distinct ts
    → Fresh b ts
    → (built : ToolRegistry) × (register_all (inr b) ts ≡ inr built)
unfolding register_all then_register
register_all-built b [] v d f = (b, refl)
register_all-built b (t ∷ ts) v d f = elim (register-cases b t) [
  | inl (e, _, _) ↦
      let (built, r) =
        register_all-built (with_tool b t) ts v.1 d.1 ((Fresh-with_tool b t ts).1 (d.0, f.1)) in
      (built, ap (λ x. register_all x ts) e ∙ r)
  | inr (e, q, c) ↦ absurd (c v.0 f.0)
]

no_tools-Fresh : (ts : List Tool) → Fresh no_tools ts
unfolding lookup
no_tools-Fresh [] = tt
no_tools-Fresh (t ∷ ts) = (refl, no_tools-Fresh ts)

first_of-none {ℓ} : {V : Type ℓ} (o : Option V) → first_of o none ≡ o
first_of-none none = refl
first_of-none (some v) = refl

-- How a chain of registrations may end: with a registry that has each tool under its name and nothing
-- else, or with an error, where a name is not valid or is there twice.
abbrev pub Registers : List Tool → Building → Type 0
Registers ts (inl e) = ¬ (Valid ts × Distinct ts)
Registers ts (inr built) =
    Valid ts
    × Distinct ts
    × ((name : Text)
        → (lookup name built.specs ≡ named (λ t. t.0) name ts)
          × (lookup name built.handlers ≡ named (λ t. t.1) name ts))

-- One registration after another, from no tools, succeeds exactly when every name is valid and no two
-- tools have one name; the registry then finds under each name the specification and the handler of the
-- tool with that name, and nothing under any other name.
pub register_all-Registers : (ts : List Tool) → Registers ts (register_all (inr no_tools) ts)
unfolding lookup
register_all-Registers ts = go (register_all (inr no_tools) ts) refl
  where
    go : (r : Building) → register_all (inr no_tools) ts ≡ r → Registers ts r
    go (inl e) h = λ c.
        let (built, r) = register_all-built no_tools ts c.0 c.1 (no_tools-Fresh ts) in
        let wrong : inl e ≡ inr built = sym h ∙ r in absurd (ground arith)
    go (inr built) h =
        let (v, d, _, adds) = register_all-only no_tools built ts h in
        (v, d, λ name. ((adds name).0 ∙ first_of-none _, (adds name).1 ∙ first_of-none _))

-- The built-in registry is such a chain of its seven tools.
builtin_tool_registry-register_all :
    (fl : Floats) (dice : Dice)
    → builtin_tool_registry fl dice ≡ register_all (inr no_tools) (builtin_tools fl dice)
unfolding builtin_tool_registry register_all
builtin_tool_registry-register_all fl dice = refl
