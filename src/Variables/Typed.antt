-- ===== src/Variables/Typed.antt =====
-- The types of the values that updates of shirita-core/src/state.rs store, and the length of lists.
use shirita.Prelude.{
  ◌≡◌, sym, ◌∙◌, Option, none, some, true, List, [], ◌∷◌, inl, inr, arith, Bool-cases, Option-cases,
  subst, length, ltb,
}
use shirita.Text.{Text, codes, text_eq, text_eq_iff, starts_with}
use shirita.Json.{Value, Number, object, Serde, null, bool, number, array, text, get}
use shirita.Assoc.{Assoc, lookup, lookup-insert}
use shirita.Variables.{
  VarType, number_type, bool_type, string_type, list_type, VarDecl, Update, Action, set, add, sub,
  toggle, append, remove,
}
use shirita.Variables.Updates.{
  Arithmetic, insert_some, outcome, update_declared, declared, apply_update, apply_all,
  apply_updates, num_value, num_option, number_of, finite, parse_finite, coerce, coerce_text,
  parse_bool, list_value, combine, finite_number, append_text, append_to, remove_text, list_at,
  max_list_len,
}
use shirita.Variables.Reserved.{get-to_fields, get-or_no_fields}

abbrev pub HasType : VarType → Value → Type 0
HasType number_type (number n) = Unit
HasType bool_type (bool b) = Unit
HasType string_type (text t) = Unit
HasType list_type (array vs) = Unit
HasType _ _ = ⊥

abbrev Stores : VarType → Option Value → Type 0
Stores vt none = Unit
Stores vt (some v) = HasType vt v

parse_bool-Stores : (low : Text) → Stores bool_type (parse_bool low)
unfolding parse_bool
parse_bool-Stores low = elim (Bool-cases (text_eq low (codes "true"))) [
  | inl e ↦ rw e tt
  | inr e ↦ elim (Bool-cases (text_eq low (codes "false"))) [
    | inl d ↦ rw (e, d) tt
    | inr d ↦ rw (e, d) tt
  ]
]

list_value-Stores : (o : Option Value) → Stores list_type (list_value o)
unfolding list_value
list_value-Stores none = tt
list_value-Stores (some (array vs)) = tt
list_value-Stores (some (object fs)) = tt
list_value-Stores (some null) = tt
list_value-Stores (some (bool b)) = tt
list_value-Stores (some (number n)) = tt
list_value-Stores (some (text t)) = tt

-- The law on `f64`: JSON has a number for each finite value.
abbrev pub FiniteHasNumber : Arithmetic → Type 0
FiniteHasNumber fl = (n : fl.F) → fl.is_finite n ≡ true → (m : Number) × (fl.to_float n ≡ some m)

-- Each declared variable that has a value has one of its type.
abbrev pub Typed : List VarDecl → Value → Type 0
Typed schema state =
    (k : Text) (d : VarDecl) (v : Value)
    → declared schema k ≡ some d
    → get state k ≡ some v
    → HasType d.var_type v

module _ (fl : Arithmetic) (serde : Serde) (law : FiniteHasNumber fl) where
  num_value-number : (n : fl.F) → fl.is_finite n ≡ true → HasType number_type (num_value fl serde n)
  unfolding num_value num_option
  num_value-number n f = elim (Bool-cases (fl.is_small_whole n)) [
    | inl e ↦ rw e tt
    | inr e ↦ let (m, q) = law n f in rw (e, q) tt
  ]

  number_of-Stores : (o : Option fl.F) → Stores number_type (number_of fl serde (finite fl serde o))
  unfolding number_of finite
  number_of-Stores none = tt
  number_of-Stores (some n) = elim (Bool-cases (fl.is_finite n)) [
    | inl e ↦ rw (e, number_of) (num_value-number n e)
    | inr e ↦ rw (e, number_of) tt
  ]

  coerce-Stores : (o : Option Text) (vt : VarType) → Stores vt (coerce fl serde o vt)
  unfolding coerce coerce_text parse_finite
  coerce-Stores none vt = tt
  coerce-Stores (some s) number_type = number_of-Stores (fl.parse s)
  coerce-Stores (some s) bool_type = parse_bool-Stores _
  coerce-Stores (some s) string_type = tt
  coerce-Stores (some s) list_type = list_value-Stores _

  combine-Stores :
      (op : fl.F → fl.F → fl.F) (cur : fl.F) (o : Option fl.F)
      → Stores number_type (combine fl serde op cur o)
  unfolding combine finite_number
  combine-Stores op cur none = tt
  combine-Stores op cur (some n) = elim (Bool-cases (fl.is_finite (op cur n))) [
    | inl e ↦ rw e (num_value-number _ e)
    | inr e ↦ rw e tt
  ]

  append_text-Stores :
      (obj : Assoc Value) (key : Text) (o : Option Text) → Stores list_type (append_text obj key o)
  unfolding append_text append_to
  append_text-Stores obj key none = tt
  append_text-Stores obj key (some t) =
      elim (Bool-cases (ltb (length (list_at obj key)) max_list_len)) [
        | inl e ↦ rw e tt
        | inr e ↦ rw e tt
      ]

  remove_text-Stores :
      (obj : Assoc Value) (key : Text) (o : Option Text) → Stores list_type (remove_text obj key o)
  unfolding remove_text
  remove_text-Stores obj key none = tt
  remove_text-Stores obj key (some t) = tt

  -- Whatever an action stores has the type of its variable.
  outcome-Stores :
      (obj : Assoc Value) (key : Text) (value : Option Text) (action : Action) (vt : VarType)
      → Stores vt (outcome fl serde obj key value action vt)
  unfolding outcome
  outcome-Stores obj key value set vt = coerce-Stores value vt
  outcome-Stores obj key value add number_type = combine-Stores _ _ _
  outcome-Stores obj key value add bool_type = tt
  outcome-Stores obj key value add string_type = tt
  outcome-Stores obj key value add list_type = tt
  outcome-Stores obj key value sub number_type = combine-Stores _ _ _
  outcome-Stores obj key value sub bool_type = tt
  outcome-Stores obj key value sub string_type = tt
  outcome-Stores obj key value sub list_type = tt
  outcome-Stores obj key value toggle bool_type = tt
  outcome-Stores obj key value toggle number_type = tt
  outcome-Stores obj key value toggle string_type = tt
  outcome-Stores obj key value toggle list_type = tt
  outcome-Stores obj key value append list_type = append_text-Stores obj key value
  outcome-Stores obj key value append number_type = tt
  outcome-Stores obj key value append bool_type = tt
  outcome-Stores obj key value append string_type = tt
  outcome-Stores obj key value remove list_type = remove_text-Stores obj key value
  outcome-Stores obj key value remove number_type = tt
  outcome-Stores obj key value remove bool_type = tt
  outcome-Stores obj key value remove string_type = tt

  abbrev TypedMap : List VarDecl → Assoc Value → Type 0
  TypedMap schema obj =
      (k : Text) (d : VarDecl) (v : Value)
      → declared schema k ≡ some d
      → lookup k obj ≡ some v
      → HasType d.var_type v

  insert_some-Typed :
      (schema : List VarDecl) (obj : Assoc Value) (key : Text) (d : VarDecl) (o : Option Value)
      → declared schema key ≡ some d
      → Stores d.var_type o
      → TypedMap schema obj
      → TypedMap schema (insert_some key o obj)
  unfolding insert_some
  insert_some-Typed schema obj key d none e s t = t
  insert_some-Typed schema obj key d (some w) e s t = λ k c v g h.
      let i = lookup-insert key k w obj in
      elim (Bool-cases (text_eq key k)) [
        | inl q ↦
            let named = (text_eq_iff key k).0 q in
            let there : declared schema k ≡ some d =
              subst (λ x. declared schema x ≡ some d) named e in
            let same : d ≡ c = ground arith in
            let stored : w ≡ v = ground arith in
            subst (λ x. HasType c.var_type x) stored (subst (λ x. HasType x.var_type w) same s)
        | inr q ↦ t k c v g (ground arith)
      ]

  apply_update-Typed :
      (schema : List VarDecl) (obj : Assoc Value) (u : Update)
      → TypedMap schema obj
      → TypedMap schema (apply_update fl serde schema obj u)
  unfolding apply_update update_declared
  apply_update-Typed schema obj u t = elim (Bool-cases (starts_with (codes "$") u.key)) [
    | inl e ↦ rw (e, TypedMap) t
    | inr e ↦ elim (Option-cases (declared schema u.key)) [
      | inl d ↦ rw (e, d, TypedMap) t
      | inr (d, q) ↦
          rw (e, q, TypedMap)
            (insert_some-Typed schema obj u.key d _ q
              (outcome-Stores obj u.key u.value u.action d.var_type) t)
    ]
  ]

  apply_all-Typed :
      (schema : List VarDecl) (obj : Assoc Value) (us : List Update)
      → TypedMap schema obj
      → TypedMap schema (apply_all fl serde schema obj us)
  unfolding apply_all
  apply_all-Typed schema obj [] t = t
  apply_all-Typed schema obj (u ∷ us) t =
      apply_all-Typed schema (apply_update fl serde schema obj u) us
        (apply_update-Typed schema obj u t)

  -- Updates keep a state in which the value of every declared variable has its type, if JSON has a
  -- number for each finite value.
  pub apply_updates-Typed :
      (state : Value) (schema : List VarDecl) (us : List Update)
      → Typed schema state
      → Typed schema (apply_updates fl serde state schema us)
  unfolding apply_updates
  apply_updates-Typed state schema us t = λ k d v g h.
      apply_all-Typed schema _ us (λ j c w p q. t j c w p (get-or_no_fields j state ∙ q)) k d v g
        (sym (get-to_fields k _) ∙ h)
