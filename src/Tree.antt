-- ===== src/Tree.antt =====
-- shirita-core/src/tree.rs: the message tree of a session, as its branch up to the active leaf and the way down to a leaf. The
-- loops run on fuel; without enough of it, as on messages whose parents form a cycle, the result is
-- `none`, where the source does not end.
pub mod Branch
pub mod Newest
pub mod Descent
use shirita.Prelude.{
  keep, ℕ, zero, suc, Option, none, some, Bool, true, false, List, [], ◌∷◌, if◌then◌else◌,
}
use shirita.Text.{Text, text_eq}
use shirita.Json.{Value}
use shirita.Assoc.{Assoc, lookup, insert}
use shirita.Tools.{text_le}
use shirita.Model.{Role}

pub record Message : Type 0 where
  pub id : Text
  pub session_id : Text
  pub parent_id : Option Text
  pub role : Role
  pub raw_content : Text
  pub display_content : Option Text
  pub is_hidden : Bool
  pub is_anchor : Bool
  pub attachments : List Text
  pub snapshot_state : Value
  pub created_at : Text

-- The map of the messages by their ids: of two with one id, the later is in it.
unfoldable pub by_id : Assoc Message → List Message → Assoc Message
by_id m [] = m
by_id m (x ∷ xs) = by_id (insert x.id x m) xs

-- `a.created_at.cmp(&b.created_at).then(a.id.cmp(&b.id))` is not `Greater`.
unfoldable pub not_newer : Message → Message → Bool
not_newer a b =
    if text_eq a.created_at b.created_at
    then text_le a.id b.id
    else text_le a.created_at b.created_at

-- `max_by` over the messages, the newest so far first; of equals it takes the last.
unfoldable pub newest_from : Message → List Message → Message
newest_from best [] = best
newest_from best (x ∷ xs) = newest_from (if not_newer best x then x else best) xs

unfoldable pub newest : List Message → Option Message
newest [] = none
newest (x ∷ xs) = some (newest_from x xs)

abbrev find_leaf : Assoc Message → Option Text → Option Message
find_leaf m none = none
find_leaf m (some id) = lookup id m

abbrev or_newest : List Message → Option Message → Option Message
or_newest messages none = newest messages
or_newest messages (some x) = some x

-- `m.parent_id.as_deref().and_then(|p| by_id.get(p).copied())`
unfoldable pub parent : Assoc Message → Message → Option Message
parent m x = elim x.parent_id [ none ↦ none | some p ↦ lookup p m ]

-- The `while` loop. `path` is the vector of the source from its end, so that it needs no reversal.
unfoldable pub climb : Assoc Message → ℕ → Option Message → List Message → Option (List Message)
climb m fuel none path = some path
climb m zero (some x) path = none
climb m (suc fuel) (some x) path = climb m fuel (parent m x) (x ∷ path)

unfoldable pub active_leaf : List Message → Option Text → Option Message
active_leaf messages active_leaf_id =
    or_newest messages (find_leaf (by_id [] messages) active_leaf_id)

unfoldable pub active_path : ℕ → List Message → Option Text → Option (List Message)
active_path fuel messages active_leaf_id =
    climb (by_id [] messages) fuel (active_leaf messages active_leaf_id) []

-- `m.parent_id.as_deref() == Some(cur.as_str())`
abbrev pub is_child : Text → Message → Bool
is_child cur m = elim m.parent_id [ none ↦ false | some p ↦ text_eq p cur ]

-- The newest child of `cur`.
unfoldable pub newest_child : List Message → Text → Option Message
newest_child messages cur = newest (keep (is_child cur) messages)

unfoldable pub deepest_leaf : ℕ → List Message → Text → Option Text
deepest_leaf zero messages cur = none
deepest_leaf (suc fuel) messages cur = elim (newest_child messages cur) [
  | none ↦ some cur
  | some child ↦ deepest_leaf fuel messages child.id
]
