-- ===== src/Portable/Enabled.antt =====
-- The walk of `filter_enabled` in shirita-core/src/portable.rs comes to an end, in a cycle of parents
-- too.
use shirita.Prelude.{
  ℕ, zero, suc, ◌≤◌, ◌<◌, ◌≡◌, refl, sym, subst, ap, Option, none, some, Bool, true, false, ◌||◌,
  List, [], ◌∷◌, length, if◌then◌else◌, Bool-cases, Option-cases, inl, inr, arith,
}
use mathlib.Core.List.{Memᴰ}
use shirita.Text.{Text, text_eq, text_eq_refl}
use shirita.Tools.{contains}
use shirita.Nodes.{PromptNode}
use shirita.Portable.{node_by_id, parent_of, all_enabled}

-- The nodes that were not seen yet.
abbrev unseen : List Text → List PromptNode → ℕ
unseen seen [] = 0
unseen seen (n ∷ ns) = if contains seen n.id then unseen seen ns else suc (unseen seen ns)

unseen-length : (seen : List Text) (ns : List PromptNode) → unseen seen ns ≤ length ns
unseen-length seen [] = omega arith
unseen-length seen (n ∷ ns) = ground (arith, unseen-length seen ns)

contains-cons :
    (x : Text) (seen : List Text) (y : Text)
    → contains (x ∷ seen) y ≡ (text_eq x y || contains seen y)
unfolding contains
contains-cons x seen y = refl

unseen-cons :
    (x : Text) (seen : List Text) (ns : List PromptNode) → unseen (x ∷ seen) ns ≤ unseen seen ns
unseen-cons x seen [] = omega arith
unseen-cons x seen (n ∷ ns) = ground (arith, unseen-cons x seen ns, contains-cons x seen n.id)

-- A node that is seen for the first time is one less to see.
unseen-cons-lt :
    (cur : PromptNode) (seen : List Text) (ns : List PromptNode)
    → Memᴰ cur ns
    → contains seen cur.id ≡ false
    → unseen (cur.id ∷ seen) ns < unseen seen ns
unseen-cons-lt cur seen [] m h = elim m [ ]
unseen-cons-lt cur seen (n ∷ ns) (Memᴰ.head e) h =
    let named = ap (λ m. m.id) e in
    let there : contains seen n.id ≡ false = subst (λ i. contains seen i ≡ false) named h in
    let hit : text_eq cur.id n.id ≡ true =
      subst (λ i. text_eq cur.id i ≡ true) named (text_eq_refl cur.id) in
    ground (arith, unseen-cons cur.id seen ns, contains-cons cur.id seen n.id)
unseen-cons-lt cur seen (n ∷ ns) (Memᴰ.tail m) h =
    ground (arith, unseen-cons-lt cur seen ns m h, contains-cons cur.id seen n.id)

node_by_id-Memᴰ :
    (ns : List PromptNode) (id : Text) (m : PromptNode) → node_by_id ns id ≡ some m → Memᴰ m ns
unfolding node_by_id
node_by_id-Memᴰ [] id m h = absurd (ground arith)
node_by_id-Memᴰ (n ∷ ns) id m h = go (node_by_id ns id) refl h (λ e. node_by_id-Memᴰ ns id m e)
  where
    go :
        (o : Option PromptNode)
        → node_by_id ns id ≡ o
        → (elim o as (λ _. Option PromptNode) [
          | some k ↦ some k
          | none ↦ if text_eq n.id id then some n else none
        ])
          ≡ some m
        → (node_by_id ns id ≡ some m → Memᴰ m ns)
        → Memᴰ m (n ∷ ns)
    go (some k) e h f = Memᴰ.tail (f (subst (λ x. node_by_id ns id ≡ x) h e))
    go none e h f = elim (Bool-cases (text_eq n.id id)) [
      | inl q ↦ let same : n ≡ m = ground arith in Memᴰ.head (sym same)
      | inr q ↦ absurd (ground arith)
    ]

parent_of-Memᴰ :
    (ns : List PromptNode) (o : Option Text) (m : PromptNode) → parent_of ns o ≡ some m → Memᴰ m ns
unfolding parent_of
parent_of-Memᴰ ns none m h = absurd (ground arith)
parent_of-Memᴰ ns (some p) m h = node_by_id-Memᴰ ns p m h

abbrev pub Decides : Option Bool → Type 0
Decides none = ⊥
Decides (some b) = Unit

walk-Decides :
    (fuel : ℕ) (nodes : List PromptNode) (seen : List Text) (cur : PromptNode)
    → Memᴰ cur nodes
    → unseen seen nodes < fuel
    → Decides (all_enabled fuel nodes seen cur)
unfolding all_enabled
walk-Decides zero nodes seen cur m l = absurd (omega (arith, l))
walk-Decides (suc n) nodes seen cur m l = elim (Bool-cases cur.enabled) [
  | inr e ↦ rw (e, all_enabled) tt
  | inl e ↦ elim (Bool-cases (contains seen cur.id)) [
    | inl f ↦ rw (e, f, all_enabled) tt
    | inr f ↦ elim (Option-cases (parent_of nodes cur.parent_id)) [
      | inl g ↦ rw (e, f, g, all_enabled) tt
      | inr (p, g) ↦
          rw (e, f, g, all_enabled)
            (walk-Decides n nodes (cur.id ∷ seen) p (parent_of-Memᴰ nodes cur.parent_id p g)
              (omega (arith, l, unseen-cons-lt cur seen nodes m f)))
    ]
  ]
]

-- The walk from a node of a tree to its root decides with one step more than the tree has nodes,
-- whether their parents form a cycle or not.
pub all_enabled-Decides :
    (nodes : List PromptNode) (n : PromptNode)
    → Memᴰ n nodes
    → Decides (all_enabled (suc (length nodes)) nodes [] n)
all_enabled-Decides nodes n m =
    walk-Decides (suc (length nodes)) nodes [] n m (omega (arith, unseen-length [] nodes))
