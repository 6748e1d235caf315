-- ===== src/Json.antt =====
-- `serde_json::Value`. A float is its IEEE 754 bit pattern; what computes with one takes the
-- arithmetic as a parameter. An object keeps its fields in the order of its map.
use shirita.Prelude.{
  ℕ, ◌≡◌, refl, Bool, true, false, List, [], ◌∷◌, Option, none, some, if◌then◌else◌,
}
use shirita.Text.{Text, codes, text_eq}

-- `neg_int n` is -(n + 1).
pub data Number : Type 0 where
  pos_int : ℕ → Number
  neg_int : ℕ → Number
  float : ℕ → Number

mutual
  pub data Value : Type 0 where
    null : Value
    bool : Bool → Value
    number : Number → Value
    text : Text → Value
    array : Items → Value
    object : Fields → Value

  pub data Items : Type 0 where
    nil : Items
    cons : Value → Items → Items

  pub data Fields : Type 0 where
    end : Fields
    field : Text → Value → Fields → Fields

abbrev pub items : Items → List Value
items nil = []
items (cons v vs) = v ∷ items vs

abbrev pub to_items : List Value → Items
to_items [] = nil
to_items (v ∷ vs) = cons v (to_items vs)

abbrev pub fields : Fields → List (Text × Value)
fields end = []
fields (field k v fs) = (k, v) ∷ fields fs

unfoldable pub get_field : Text → Fields → Option Value
get_field k end = none
get_field k (field j v fs) = if text_eq j k then some v else get_field k fs

-- `Value::get` with a string key: none unless the value is an object with that field.
unfoldable pub get : Value → Text → Option Value
unfolding get_field
get (object fs) k = get_field k fs
get _ k = none

abbrev pub as_str : Value → Option Text
as_str (text s) = some s
as_str _ = none

abbrev pub as_bool : Value → Option Bool
as_bool (bool b) = some b
as_bool _ = none

abbrev pub as_u64 : Value → Option ℕ
as_u64 (number (pos_int n)) = some n
as_u64 _ = none

abbrev pub as_array : Value → Option (List Value)
as_array (array vs) = some (items vs)
as_array _ = none

abbrev pub as_object : Value → Option (List (Text × Value))
as_object (object fs) = some (fields fs)
as_object _ = none

abbrev pub to_fields : List (Text × Value) → Fields
to_fields [] = end
to_fields ((k, v) ∷ fs) = field k v (to_fields fs)

-- `get(k).and_then(Value::as_str)`, and the like.
abbrev pub or_nothing : Option Text → Text
or_nothing none = []
or_nothing (some s) = s

unfoldable pub str_at : Value → Text → Option Text
str_at v k = elim (get v k) [ none ↦ none | some w ↦ as_str w ]

unfoldable pub array_at : Value → Text → Option (List Value)
array_at v k = elim (get v k) [ none ↦ none | some w ↦ as_array w ]

unfoldable pub bool_at : Value → Text → Option Bool
bool_at v k = elim (get v k) [ none ↦ none | some w ↦ as_bool w ]

abbrev pub or_false : Option Bool → Bool
or_false none = false
or_false (some b) = b

abbrev pub or_no_items : Option (List Value) → List Value
or_no_items none = []
or_no_items (some vs) = vs

abbrev pub or_true : Option Bool → Bool
or_true none = true
or_true (some b) = b

-- What the program takes from serde_json: printing and reading a value.
pub record Serde : Type 0 where
  pub to_string : Value → Option Text
  pub from_str : Text → Option Value

get_second :
    get (object (field (codes "a") null (field (codes "b") (bool true) end))) (codes "b")
    ≡ some (bool true)
unfolding get text_eq
get_second = refl
