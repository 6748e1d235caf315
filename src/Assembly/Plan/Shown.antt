-- ===== src/Assembly/Plan/Shown.antt =====
-- What a reference of a tree must have to be rendered into a plan of shirita-core/src/assembly.rs.
use shirita.Prelude.{
  ◌≡◌, refl, Option, none, some, Bool, true, false, ◌&&◌, List, ◌++◌, is_empty, if◌then◌else◌, All,
  Bool-cases, Option-cases, inl, inr, arith, subst,
}
use shirita.Text.{Text, trim}
use shirita.Tools.{contains}
use shirita.Nodes.{Definition, PromptNode, is_ref, definition_of}
use shirita.Keyword.{Automaton}
use shirita.Keyword.Laws.{Lawful}
use shirita.Assembly.Activation.{Draws, Entry}
use shirita.Assembly.Activation.Reasons.{Due}
use shirita.Assembly.Activation.Recursion.{contains-All}
use shirita.Assembly.Activation.Due.{activate-Due}
use shirita.Assembly.Content.{maybe_wrap, body_of}
use shirita.Assembly.Plan.{
  Inputs, Pair, is_non_rendering, shown_definition, shown, resolve, render_pack_body, pack_body,
  active_of, entries_of, pack_entries,
}

-- An enabled reference to a definition whose type is rendered, and which takes part for a reason.
abbrev pub Showable :
    Automaton → Draws → Inputs → List Entry → List Text → PromptNode → Definition → Type 0
Showable ac draws inp entries recent n def =
    (n.enabled ≡ true)
    × (is_ref n.kind ≡ true)
    × (definition_of inp.definitions n ≡ some def)
    × (is_non_rendering def.def_type ≡ false)
    × Due ac draws entries recent def.id

-- The text that a node of the template becomes, if any.
abbrev pub Rendered :
    Automaton → Draws → Inputs → List Entry → List Text → PromptNode → Option Text → Type 0
Rendered ac draws inp entries recent n none = Unit
Rendered ac draws inp entries recent n (some text) =
    (def : Definition) × Showable ac draws inp entries recent n def
    × (text ≡ maybe_wrap inp.re def n (body_of inp.re def inp.overrides inp.state))

-- The types and bodies that a node of a pack adds to the plan.
abbrev pub AllAdded :
    Automaton → Draws → Inputs → List Entry → List Text → PromptNode → List Pair → Type 0
AllAdded ac draws inp entries recent n pairs =
    All
      (λ p.
        (def : Definition) × Showable ac draws inp entries recent n def
        × (p.0 ≡ def.def_type)
        × (p.1 ≡ body_of inp.re def inp.overrides inp.state)
        × (is_empty (trim p.1) ≡ false))
      pairs

module _ (ac : Automaton) (draws : Draws) (inp : Inputs) (entries : List Entry)
    (recent active : List Text) (due : All (λ id. Due ac draws entries recent id) active) where
  abbrev MaybeShown : PromptNode → Option Definition → Type 0
  MaybeShown n none = Unit
  MaybeShown n (some def) = Showable ac draws inp entries recent n def

  shown_definition-MaybeShown :
      (n : PromptNode) (o : Option Definition)
      → n.enabled ≡ true
      → is_ref n.kind ≡ true
      → definition_of inp.definitions n ≡ o
      → MaybeShown n (shown_definition active o)
  unfolding shown_definition
  shown_definition-MaybeShown n none e r d = tt
  shown_definition-MaybeShown n (some def) e r d =
      elim (Bool-cases (is_non_rendering def.def_type)) [
        | inl t ↦ rw t tt
        | inr t ↦ elim (Bool-cases (contains active def.id)) [
          | inl a ↦
              rw (t, a)
                (
                  e,
                  r,
                  d,
                  t,
                  contains-All (λ id. Due ac draws entries recent id) active def.id due a,
                )
          | inr a ↦ rw (t, a) tt
        ]
      ]

  shown-MaybeShown : (n : PromptNode) → MaybeShown n (shown inp active n)
  unfolding shown
  shown-MaybeShown n = go (n.enabled && is_ref n.kind) refl
    where
      go :
          (b : Bool)
          → (n.enabled && is_ref n.kind) ≡ b
          → MaybeShown n
              (if b then shown_definition active (definition_of inp.definitions n) else none)
      go true q =
          shown_definition-MaybeShown n (definition_of inp.definitions n) (ground arith)
            (ground arith) refl
      go false q = tt

  resolve-Rendered :
      (n : PromptNode) → Rendered ac draws inp entries recent n (resolve inp active n)
  unfolding resolve
  resolve-Rendered n = elim (Option-cases (shown inp active n)) [
    | inl e ↦ rw (e, Rendered) tt
    | inr (def, e) ↦
        let s : MaybeShown n (some def) = subst (λ o. MaybeShown n o) e (shown-MaybeShown n) in
        rw (e, Rendered) (def, s, refl)
  ]

  render_pack_body-Added :
      (n : PromptNode) → AllAdded ac draws inp entries recent n (render_pack_body inp active n)
  unfolding render_pack_body pack_body
  render_pack_body-Added n = elim (Option-cases (shown inp active n)) [
    | inl e ↦ rw e tt
    | inr (def, e) ↦
        let s : MaybeShown n (some def) = subst (λ o. MaybeShown n o) e (shown-MaybeShown n) in
        elim (Bool-cases (is_empty (trim (body_of inp.re def inp.overrides inp.state)))) [
          | inl b ↦ rw (e, b) tt
          | inr b ↦ rw (e, b) ((def, s, refl, refl, b), tt)
        ]
  ]

-- A node of the template becomes a text, and a node of a pack adds a body to the plan, only if it is
-- an enabled reference to a definition of a type that is rendered, and an entry with that
-- definition's id takes part for a reason, as in `activate-Due` and with its condition on the automaton
-- and on sets; the text is the definition's body, wrapped as the node says, and what a pack's node adds
-- is the definition's type with its body, which is not blank.
pub resolve-active_of :
    (ac : Automaton) (draws : Draws) (inp : Inputs) (nodes : List PromptNode)
    (pack_trees : List (List PromptNode)) (recent_msgs : List Text) (n : PromptNode)
    → Lawful ac
    → Rendered ac draws inp
        (entries_of inp nodes ++ pack_entries inp pack_trees)
        recent_msgs
        n
        (resolve inp (active_of ac draws inp nodes pack_trees recent_msgs) n)
      × AllAdded ac draws inp
          (entries_of inp nodes ++ pack_entries inp pack_trees)
          recent_msgs
          n
          (render_pack_body inp (active_of ac draws inp nodes pack_trees recent_msgs) n)
unfolding active_of
resolve-active_of ac draws inp nodes pack_trees recent_msgs n laws =
    let due =
      activate-Due ac draws (entries_of inp nodes ++ pack_entries inp pack_trees) recent_msgs
        laws in
    (
      resolve-Rendered ac draws inp _ recent_msgs _ due n,
      render_pack_body-Added ac draws inp _ recent_msgs _ due n,
    )
