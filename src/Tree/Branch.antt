-- ===== src/Tree/Branch.antt =====
-- The active path is the branch from a root to the active leaf.
use shirita.Prelude.{ℕ, zero, suc, ◌≤◌, ◌<◌, ◌≡◌, refl, Option, none, some, List, [], ◌∷◌, arith}
use shirita.Text.{Text}
use shirita.Assoc.{Assoc}
use shirita.Tree.{Message, by_id, parent, climb, active_leaf, active_path}

-- A path of messages from a root, one that has no parent in the map, down to `leaf`; each message
-- but the root stands behind its parent.
pub data Branch (m : Assoc Message) : Option Message → List Message → Option Message → Type 0 where
  root : {leaf : Option Message} → Branch m leaf [] leaf
  down :
      {x : Message} {above leaf : Option Message} {path : List Message}
      → parent m x ≡ above
      → Branch m (some x) path leaf
      → Branch m above (x ∷ path) leaf

-- Parents lie strictly lower than their children.
abbrev pub Acyclic : Assoc Message → (Message → ℕ) → Type 0
Acyclic m height = (x y : Message) → parent m x ≡ some y → height y < height x

abbrev pub height_of : (Message → ℕ) → Option Message → ℕ
height_of height none = 0
height_of height (some x) = suc (height x)

climb-Branch :
    (m : Assoc Message) (height : Message → ℕ) (fuel : ℕ) (at leaf : Option Message)
    (path : List Message)
    → Acyclic m height
    → height_of height at ≤ fuel
    → Branch m at path leaf
    → (whole : List Message) × (climb m fuel at path ≡ some whole) × Branch m none whole leaf
unfolding climb
climb-Branch m height fuel none leaf path a l b = (path, refl, b)
climb-Branch m height zero (some x) leaf path a l b = absurd (omega (arith, l))
climb-Branch m height (suc fuel) (some x) leaf path a l b =
    climb-Branch m height fuel (parent m x) leaf (x ∷ path) a (lower (parent m x) refl)
      (down refl b)
  where
    lower : (p : Option Message) → parent m x ≡ p → height_of height p ≤ fuel
    lower none e = omega arith
    lower (some y) e = omega (arith, l, a x y e)

-- If the messages are no cycle, as a height shows that falls from child to parent, then with fuel
-- for the height of the active leaf the loop ends, and its path is a branch from a root to that leaf.
pub active_path-Branch :
    (messages : List Message) (active_leaf_id : Option Text) (height : Message → ℕ) (fuel : ℕ)
    → Acyclic (by_id [] messages) height
    → height_of height (active_leaf messages active_leaf_id) ≤ fuel
    → (path : List Message) × (active_path fuel messages active_leaf_id ≡ some path)
      × Branch (by_id [] messages) none path (active_leaf messages active_leaf_id)
unfolding active_path
active_path-Branch messages active_leaf_id height fuel a l =
    climb-Branch (by_id [] messages) height fuel (active_leaf messages active_leaf_id)
      (active_leaf messages active_leaf_id) [] a l root
