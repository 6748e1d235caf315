-- ===== src/Tree/Descent.antt =====
-- The way down from a message to a leaf of the tree, in shirita-core/src/tree.rs.
use shirita.Prelude.{ℕ, zero, suc, ◌<◌, ◌≡◌, ◌≢◌, refl, some, List, arith, Option-cases, inl, inr}
use mathlib.Core.List.{Memᴰ}
use shirita.Text.{Text}
use shirita.Tree.{Message, newest_child, deepest_leaf}
use shirita.Tree.Newest.{NewestChild, newest_child-NewestChild, newest_child-none}

-- From the first id to the last, each time to the newest child, and the last has no child.
pub data Descent (messages : List Message) : Text → Text → Type 0 where
  leaf :
      (cur : Text)
      → ((m : Message) → Memᴰ m messages → m.parent_id ≢ some cur)
      → Descent messages cur cur
  down :
      (cur last : Text) (child : Message)
      → NewestChild messages cur child
      → Descent messages child.id last
      → Descent messages cur last

-- Messages lie strictly lower than their parents.
abbrev pub Falling : List Message → (Text → ℕ) → Type 0
Falling messages height =
    (m : Message) (p : Text) → Memᴰ m messages → m.parent_id ≡ some p → height m.id < height p

-- If a height falls from every message to each of its children, so that parents form no cycle, then with
-- fuel above the height of the message the loop ends, at a leaf that is reached by going from each
-- message to its newest child: one of the messages whose parent it is, created last of them, and of
-- those created at that time one with the greatest id.
pub deepest_leaf-Descent :
    (messages : List Message) (height : Text → ℕ) (fuel : ℕ) (from_id : Text)
    → Falling messages height
    → height from_id < fuel
    → (last : Text) × (deepest_leaf fuel messages from_id ≡ some last)
      × Descent messages from_id last
unfolding deepest_leaf
deepest_leaf-Descent messages height zero from_id f l = absurd (omega (arith, l))
deepest_leaf-Descent messages height (suc fuel) from_id f l =
    elim (Option-cases (newest_child messages from_id)) [
      | inl e ↦
          (from_id, rw (e, deepest_leaf) refl, leaf from_id (newest_child-none messages from_id e))
      | inr (child, e) ↦
          let n = newest_child-NewestChild messages from_id child e in
          let (last, r, d) =
            deepest_leaf-Descent messages height fuel child.id f
              (omega (arith, l, f child from_id n.there n.below)) in
          (last, rw (e, deepest_leaf) r, down from_id last child n d)
    ]
