-- ===== src/Variables.antt =====
-- shirita-core/src/state.rs: declared variables, the state that a message is written in, and the
-- updates that a reply asks for.
pub mod Schema
pub mod Precedence
pub mod Updates
pub mod Reserved
pub mod Typed
use shirita.Prelude.{
  ℕ, Option, none, some, Bool, true, false, not, ◌&&◌, ◌||◌, List, [], ◌∷◌, ◌++◌, map, keep,
  is_empty, if◌then◌else◌, find_by,
}
use shirita.Text.{Text, codes, text_eq, to_ascii_lowercase, join, trim}
use shirita.Json.{Value, object, Fields, Serde, get, as_object, to_fields, or_nothing}
use shirita.Assoc.{Assoc, insert, insert_all}

pub data VarType : Type 0 where
  number_type bool_type string_type list_type : VarType

pub record VarDecl : Type 0 where
  pub name : Text
  pub var_type : VarType
  pub initial : Value
  pub scope : Option Text

abbrev system_variable : Text → VarDecl
system_variable name = record {
  name = name;
  var_type = string_type;
  initial = Value.text [];
  scope = some (codes "system");
}

abbrev pub system_variables : List VarDecl
system_variables =
    system_variable (codes "$avatar")
    ∷ system_variable (codes "$background")
    ∷ system_variable (codes "$assistant_name")
    ∷ system_variable (codes "$assistant_avatar")
    ∷ system_variable (codes "$user_name")
    ∷ system_variable (codes "$user_avatar")
    ∷ []

-- `collect` into a map: of two declarations of a name the later one counts.
unfoldable pub collect_initials : List VarDecl → Assoc Value → Assoc Value
collect_initials [] m = m
collect_initials (d ∷ ds) m = collect_initials ds (insert d.name d.initial m)

unfoldable pub schema_initials : List VarDecl → Assoc Value
schema_initials schema = collect_initials schema []

unfoldable pub is_system : VarDecl → Bool
is_system d = elim d.scope [ none ↦ false | some s ↦ text_eq s (codes "system") ]

unfoldable pub type_name : VarType → Text
type_name number_type = codes "number"
type_name bool_type = codes "bool"
type_name string_type = codes "string"
type_name list_type = codes "list"

unfoldable pub or_initial : VarDecl → Option Value → Value
or_initial d none = d.initial
or_initial d (some v) = v

unfoldable pub variable_line : Serde → Value → VarDecl → Text
variable_line serde state d =
    codes "- "
    ++ (d.name
        ++ (codes " ("
            ++ (type_name d.var_type
                ++ (codes ") = "
                    ++ or_nothing (serde.to_string (or_initial d (get state d.name)))))))

unfoldable pub variables_block : Serde → List VarDecl → Value → Option Text
variables_block serde schema state =
    let shown = map (variable_line serde state) (keep (λ d. not (is_system d)) schema) in
    if is_empty shown then none else some (codes "Current variables:\n" ++ join (codes "\n") shown)

-- The loop over the fields of a value, which has none where it is no object.
unfoldable pub insert_object : Option (List (Text × Value)) → Assoc Value → Assoc Value
insert_object none out = out
insert_object (some o) out = insert_all o out

unfoldable pub effective_state : List VarDecl → Value → Value → Value
effective_state schema seed leaf_snapshot = object (
    to_fields (
      insert_object (as_object leaf_snapshot)
        (insert_object (as_object seed) (schema_initials schema))))

pub data Action : Type 0 where
  set add sub toggle append remove : Action

-- `Action::parse`; to ASCII lower case here, which identifies the same texts.
unfoldable pub parse_action : Text → Option Action
parse_action s =
    let low = to_ascii_lowercase s in
    if text_eq low (codes "set")
    then some set
    else if text_eq low (codes "add")
    then some add
    else if text_eq low (codes "sub")
    then some sub
    else if text_eq low (codes "toggle")
    then some toggle
    else if text_eq low (codes "append")
    then some append
    else if text_eq low (codes "remove")
    then some remove
    else none

pub record Update : Type 0 where
  pub action : Action
  pub key : Text
  pub value : Option Text

-- What the regular expressions of the tags yield: the first group of each match of a tag in a text,
-- the two groups of each match of an attribute in it, and the text without its tags.
pub record TagPatterns : Type 0 where
  pub tags : Text → List Text
  pub attributes : Text → List (Text × Text)
  pub without_tags : Text → Text

-- The attributes of a tag, the last of each name.
pub record Attributes : Type 0 where
  pub action : Option Action
  pub key : Option Text
  pub value : Option Text

unfoldable pub read_attribute : Attributes → Text × Text → Attributes
read_attribute a (name, v) =
    let low = to_ascii_lowercase name in
    if text_eq low (codes "action")
    then record a { action = parse_action v }
    else if text_eq low (codes "key")
    then record a { key = some v }
    else if text_eq low (codes "value")
    then record a { value = some v }
    else a

unfoldable pub read_attributes : Attributes → List (Text × Text) → Attributes
read_attributes a [] = a
read_attributes a (g ∷ rest) = read_attributes (read_attribute a g) rest

unfoldable pub update_of : Option Action → Option Text → Option Text → List Update
update_of (some action) (some key) value = record { action = action; key = key; value = value } ∷ []
update_of none key value = []
update_of (some action) none value = []

unfoldable pub tag_update : Attributes → List Update
tag_update a = update_of a.action a.key a.value

unfoldable pub updates_of : TagPatterns → List Text → List Update
updates_of re [] = []
updates_of re (t ∷ ts) =
    tag_update
      (read_attributes (record { action = none; key = none; value = none }) (re.attributes t))
    ++ updates_of re ts

unfoldable pub parse_state_updates : TagPatterns → Text → List Update
parse_state_updates re text = updates_of re (re.tags text)

unfoldable pub strip_state_tags : TagPatterns → Text → Text
strip_state_tags re text = trim (re.without_tags text)
