-- ===== src/Assembly/Activation.antt =====
-- shirita-core/src/assembly.rs: the entries that take part in a request.
pub mod Reasons
pub mod Offers
pub mod Recursion
pub mod Due
use shirita.Prelude.{
  ℕ, zero, suc, ◌+◌, ◌-◌, ◌≡◌, Option, none, some, Bool, true, false, ◌&&◌, ◌||◌, List, [], ◌∷◌,
  ◌++◌, ◌==◌, any, map, keep, find_by, drop, length, min, max, if◌then◌else◌,
}
use shirita.Text.{Text, codes, text_eq, join}
use shirita.Json.{Value, get, str_at, array_at, or_no_items, as_str, as_u64}
use shirita.Tools.{contains}
use shirita.Keyword.{Automaton, Keywords, build, scan}

pub data TriggerMode : Type 0 where
  constant keyword random : TriggerMode

pub record Trigger : Type 0 where
  pub mode : TriggerMode
  pub keys : List Text
  pub probability : ℕ

pub record Entry : Type 0 where
  pub id : Text
  pub trigger : Trigger
  pub content : Text
  pub scan_depth : ℕ
  pub recursive : Bool

unfoldable pub mode_of : Option Text → TriggerMode
mode_of none = constant
mode_of (some s) =
    if text_eq s (codes "keyword")
    then keyword
    else if text_eq s (codes "random")
    then random
    else constant

unfoldable pub texts_of : List Value → List Text
texts_of [] = []
texts_of (v ∷ vs) = let rest = texts_of vs in elim (as_str v) [ none ↦ rest | some s ↦ s ∷ rest ]

unfoldable pub u64_of : Option Value → Option ℕ
u64_of none = none
u64_of (some v) = as_u64 v

abbrev or_hundred : Option ℕ → ℕ
or_hundred none = 100
or_hundred (some n) = n

-- What the trigger of a definition says; without one, as if it were empty.
unfoldable pub trigger_of : Option Value → Trigger
trigger_of none = record { mode = constant; keys = []; probability = 100 }
trigger_of (some t) = record {
  mode = mode_of (str_at t (codes "mode"));
  keys = texts_of (or_no_items (array_at t (codes "keys")));
  probability = min (or_hundred (u64_of (get t (codes "probability")))) 100;
}

unfoldable pub parse_trigger : Value → Trigger
parse_trigger meta = trigger_of (get meta (codes "trigger"))

-- The draws: whether the draw of a number comes out below a percentage.
abbrev pub Draws : Type 0
Draws = ℕ → ℕ → Bool

-- `HashSet::insert`, with whether it is new.
unfoldable pub insert_active : Text → List Text → List Text
insert_active id active = if contains active id then active else id ∷ active

unfoldable pub insert_actives : List Text → List Text → List Text
insert_actives [] active = active
insert_actives (id ∷ ids) active = insert_actives ids (insert_active id active)

unfoldable pub first_choice : Draws → TriggerMode → ℕ → Entry → List Text → List Text
first_choice draws constant n e active = insert_active e.id active
first_choice draws random n e active =
    if draws n e.trigger.probability then insert_active e.id active else active
first_choice draws keyword n e active = active

unfoldable pub draws_one : TriggerMode → ℕ
draws_one random = 1
draws_one constant = 0
draws_one keyword = 0

-- The first loop; `n` draws were made before.
unfoldable pub first_pass : Draws → ℕ → List Entry → List Text → List Text
first_pass draws n [] active = active
first_pass draws n (e ∷ es) active =
    first_pass draws (n + draws_one e.trigger.mode) es
      (first_choice draws e.trigger.mode n e active)

unfoldable pub is_keyword : TriggerMode → Bool
is_keyword keyword = true
is_keyword constant = false
is_keyword random = false

abbrev pub Groups : Type 0
Groups = List (ℕ × Keywords)

abbrev pub keywords_of : Entry → Text × List Text
keywords_of e = (e.id, e.trigger.keys)

unfoldable pub push_group : ℕ → Text × List Text → Groups → Groups
push_group depth k [] = (depth, k ∷ []) ∷ []
push_group depth k ((d, ks) ∷ rest) =
    let others = push_group depth k rest in
    if d == depth then (d, ks ++ k ∷ []) ∷ rest else (d, ks) ∷ others

unfoldable pub group_entry : Entry → Groups → Groups
group_entry e groups =
    if is_keyword e.trigger.mode
    then push_group (max e.scan_depth 1) (keywords_of e) groups
    else groups

unfoldable pub by_depth : List Entry → Groups → Groups
by_depth [] groups = groups
by_depth (e ∷ es) groups = by_depth es (group_entry e groups)

unfoldable pub window : ℕ → List Text → Text
window depth recent = join (codes "\n") (drop (length recent - depth) recent)

unfoldable pub scan_groups : Automaton → List Text → Groups → List Text → List Text
scan_groups ac recent [] active = active
scan_groups ac recent ((depth, ks) ∷ rest) active =
    scan_groups ac recent rest (insert_actives (scan ac (build ac ks) (window depth recent)) active)

-- A round of the recursion: the active ids, the text to scan, and whether a new id came.
pub record Round : Type 0 where
  pub active : List Text
  pub scan_text : Text
  pub grew : Bool

abbrev with_line : Text → Option Entry → Text
with_line scan_text none = scan_text
with_line scan_text (some e) = scan_text ++ (codes "\n" ++ e.content)

unfoldable pub take_hit : List Entry → Text → Round → Round
take_hit entries id r = if contains r.active id then r else record {
  active = id ∷ r.active;
  scan_text = with_line r.scan_text (find_by (λ e. text_eq e.id id) entries);
  grew = true;
}

unfoldable pub take_hits : List Entry → List Text → Round → Round
take_hits entries [] r = r
take_hits entries (id ∷ ids) r = take_hits entries ids (take_hit entries id r)

unfoldable pub recursive_rounds : Automaton → List Entry → Keywords → ℕ → Round → Round
recursive_rounds ac entries ks zero r = r
recursive_rounds ac entries ks (suc n) r =
    let next = take_hits entries (scan ac (build ac ks) r.scan_text) (record r { grew = false }) in
    elim next.grew [ true ↦ recursive_rounds ac entries ks n next | false ↦ next ]

-- The contents of the active recursive entries, each behind a line feed.
unfoldable pub recursive_text : List Text → List Entry → Text
recursive_text active [] = []
recursive_text active (e ∷ es) =
    let rest = recursive_text active es in
    if e.recursive && contains active e.id then codes "\n" ++ (e.content ++ rest) else rest

unfoldable pub recursive_keywords : List Entry → Keywords
recursive_keywords entries =
    map keywords_of (keep (λ e. e.recursive && is_keyword e.trigger.mode) entries)

unfoldable pub recurse : Automaton → List Entry → List Text → List Text
recurse ac entries active =
    if any (λ e. e.recursive) entries
    then (recursive_rounds ac entries (recursive_keywords entries) 3 (record {
      active = active;
      scan_text = recursive_text active entries;
      grew = false;
    })).active
    else active

unfoldable pub activate : Automaton → Draws → List Entry → List Text → List Text
activate ac draws entries recent =
    recurse ac entries (scan_groups ac recent (by_depth entries []) (first_pass draws 0 entries []))
