-- ===== src/Variables/Updates.antt =====
-- shirita-core/src/state.rs: the application of updates to a state.
use shirita.Prelude.{
  ℕ, Option, none, some, Bool, true, false, not, List, [], ◌∷◌, ◌++◌, ltb, length, if◌then◌else◌,
  find_by,
}
use shirita.Text.{Text, codes, text_eq, to_ascii_lowercase, starts_with}
use shirita.Json.{
  Value, Number, null, bool, number, array, object, Serde, as_array, as_str, as_object, to_fields,
  to_items,
}
use shirita.Assoc.{Assoc, lookup, insert}
use shirita.Variables.{
  VarType, number_type, bool_type, string_type, list_type, VarDecl, Update, Action, set, add, sub,
  toggle, append, remove,
}

-- `f64`: reading one from a text and from a JSON number, its operations, and the number that is stored
-- for it: an integer, where it is whole and its absolute value below 1e15, or a float, which JSON has
-- for a finite value only.
pub record Arithmetic : Type 1 where
  pub F : Type 0
  pub zero_value : F
  pub parse : Text → Option F
  pub of_number : Number → F
  pub add_value : F → F → F
  pub sub_value : F → F → F
  pub is_finite : F → Bool
  pub is_small_whole : F → Bool
  pub to_integer : F → Number
  pub to_float : F → Option Number

abbrev pub max_list_len : ℕ
max_list_len = 1000

unfoldable pub num_option : Option Number → Value
num_option none = null
num_option (some n) = number n

abbrev pub or_empty_list : Option (List Value) → List Value
or_empty_list none = []
or_empty_list (some vs) = vs

-- The value of a key read as a list or a Boolean, with the source's default.
unfoldable pub list_at : Assoc Value → Text → List Value
list_at obj key = elim (lookup key obj) [ none ↦ [] | some v ↦ or_empty_list (as_array v) ]

unfoldable pub or_false_value : Option Value → Bool
or_false_value (some (bool b)) = b
or_false_value _ = false

-- `arr.remove(pos)` at the first element that is the text.
unfoldable pub is_text : Text → Value → Bool
is_text t v = elim (as_str v) [ none ↦ false | some s ↦ text_eq s t ]

unfoldable pub remove_first : Text → List Value → List Value
remove_first t [] = []
remove_first t (v ∷ vs) = let rest = remove_first t vs in if is_text t v then vs else v ∷ rest

unfoldable pub parse_bool : Text → Option Value
parse_bool low =
    if text_eq low (codes "true")
    then some (bool true)
    else if text_eq low (codes "false")
    then some (bool false)
    else none

-- `serde_json::from_str::<Vec<Value>>`, by what the text is as a value.
unfoldable pub list_value : Option Value → Option Value
list_value none = none
list_value (some v) = elim (as_array v) [ none ↦ none | some vs ↦ some (array (to_items vs)) ]

unfoldable pub insert_some : Text → Option Value → Assoc Value → Assoc Value
insert_some key none obj = obj
insert_some key (some v) obj = insert key v obj

unfoldable pub declared : List VarDecl → Text → Option VarDecl
declared schema key = find_by (λ d. text_eq d.name key) schema

unfoldable pub or_no_fields : Option (List (Text × Value)) → Assoc Value
or_no_fields none = []
or_no_fields (some o) = o

unfoldable pub append_to : List Value → Text → Option Value
append_to arr t =
    if ltb (length arr) max_list_len
    then some (array (to_items (arr ++ Value.text t ∷ [])))
    else none

unfoldable pub append_text : Assoc Value → Text → Option Text → Option Value
append_text obj key none = none
append_text obj key (some t) = append_to (list_at obj key) t

unfoldable pub remove_text : Assoc Value → Text → Option Text → Option Value
remove_text obj key none = none
remove_text obj key (some t) = some (array (to_items (remove_first t (list_at obj key))))

module _ (fl : Arithmetic) (serde : Serde) where
  unfoldable pub num_value : fl.F → Value
  num_value n = if fl.is_small_whole n then number (fl.to_integer n) else num_option (fl.to_float n)

  unfoldable pub finite : Option fl.F → Option fl.F
  finite none = none
  finite (some n) = if fl.is_finite n then some n else none

  unfoldable pub parse_finite : Text → Option fl.F
  parse_finite s = finite (fl.parse s)

  unfoldable pub number_of : Option fl.F → Option Value
  number_of none = none
  number_of (some n) = some (num_value n)

  unfoldable pub coerce_text : Text → VarType → Option Value
  coerce_text s number_type = number_of (parse_finite s)
  coerce_text s bool_type = parse_bool (to_ascii_lowercase s)
  coerce_text s string_type = some (Value.text s)
  coerce_text s list_type = list_value (serde.from_str s)

  unfoldable pub coerce : Option Text → VarType → Option Value
  coerce none vt = none
  coerce (some s) vt = coerce_text s vt

  unfoldable pub float_of : Option Value → fl.F
  float_of (some (number n)) = fl.of_number n
  float_of _ = fl.zero_value

  unfoldable pub finite_number : fl.F → Option Value
  finite_number next = if fl.is_finite next then some (num_value next) else none

  -- The sum or difference, if the value is finite and the result is.
  unfoldable pub combine : (fl.F → fl.F → fl.F) → fl.F → Option fl.F → Option Value
  combine op cur none = none
  combine op cur (some n) = finite_number (op cur n)

  unfoldable pub read_value : Option Text → Option fl.F
  read_value none = none
  read_value (some s) = parse_finite s

  -- The value that an update stores under its key, if it stores one.
  unfoldable pub outcome : Assoc Value → Text → Option Text → Action → VarType → Option Value
  outcome obj key value set vt = coerce value vt
  outcome obj key value add number_type =
      combine fl.add_value (float_of (lookup key obj)) (read_value value)
  outcome obj key value sub number_type =
      combine fl.sub_value (float_of (lookup key obj)) (read_value value)
  outcome obj key value toggle bool_type = some (bool (not (or_false_value (lookup key obj))))
  outcome obj key value append list_type = append_text obj key value
  outcome obj key value remove list_type = remove_text obj key value
  outcome obj key value _ _ = none

  unfoldable pub update_declared : Assoc Value → Update → Option VarDecl → Assoc Value
  update_declared obj u none = obj
  update_declared obj u (some d) =
      insert_some u.key (outcome obj u.key u.value u.action d.var_type) obj

  unfoldable pub apply_update : List VarDecl → Assoc Value → Update → Assoc Value
  apply_update schema obj u =
      if starts_with (codes "$") u.key then obj else update_declared obj u (declared schema u.key)

  unfoldable pub apply_all : List VarDecl → Assoc Value → List Update → Assoc Value
  apply_all schema obj [] = obj
  apply_all schema obj (u ∷ us) = apply_all schema (apply_update schema obj u) us

  unfoldable pub apply_updates : Value → List VarDecl → List Update → Value
  apply_updates state schema updates =
      object (to_fields (apply_all schema (or_no_fields (as_object state)) updates))
