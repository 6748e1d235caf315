-- ===== src/Variables/Reserved.antt =====
-- What updates of shirita-core/src/state.rs never touch.
use shirita.Prelude.{
  ◌≡◌, refl, sym, ap, ◌∙◌, Option, none, some, true, false, List, [], ◌∷◌, ◌⊎◌, inl, inr,
  Bool-cases, subst,
}
use shirita.Text.{Text, codes, text_eq, text_eq_iff, starts_with}
use shirita.Json.{
  Value, object, Fields, end, field, get, get_field, fields, to_fields, as_object, Serde, null,
  bool, number, array, text,
}
use shirita.Assoc.{Assoc, lookup, lookup-insert}
use shirita.Variables.{VarDecl, Update}
use shirita.Variables.Updates.{
  Arithmetic, insert_some, update_declared, declared, apply_update, apply_all, or_no_fields,
  apply_updates,
}

get_field-fields : (k : Text) (fs : Fields) → get_field k fs ≡ lookup k (fields fs)
unfolding get_field lookup
get_field-fields k end = refl
get_field-fields k (field j v fs) = rw (get_field-fields k fs) refl

pub get-to_fields : (k : Text) (m : Assoc Value) → get (object (to_fields m)) k ≡ lookup k m
unfolding get get_field lookup
get-to_fields k [] = refl
get-to_fields k ((j, v) ∷ m) = rw (sym (get-to_fields k m)) refl

pub get-or_no_fields : (k : Text) (v : Value) → get v k ≡ lookup k (or_no_fields (as_object v))
unfolding get or_no_fields lookup
get-or_no_fields k (object fs) = get_field-fields k fs
get-or_no_fields k null = refl
get-or_no_fields k (bool b) = refl
get-or_no_fields k (number n) = refl
get-or_no_fields k (text t) = refl
get-or_no_fields k (array vs) = refl

-- A key of the system, or one that no declaration has.
abbrev pub Protected : List VarDecl → Text → Type 0
Protected schema k = (starts_with (codes "$") k ≡ true) ⊎ (declared schema k ≡ none)

lookup-insert_some :
    (j k : Text) (o : Option Value) (obj : Assoc Value)
    → text_eq j k ≡ false
    → lookup k (insert_some j o obj) ≡ lookup k obj
unfolding insert_some
lookup-insert_some j k none obj n = refl
lookup-insert_some j k (some v) obj n = lookup-insert j k v obj ∙ rw n refl

module _ (fl : Arithmetic) (serde : Serde) where
  lookup-update_declared :
      (u : Update) (k : Text) (o : Option VarDecl) (obj : Assoc Value)
      → text_eq u.key k ≡ false
      → lookup k (update_declared fl serde obj u o) ≡ lookup k obj
  unfolding update_declared
  lookup-update_declared u k none obj n = refl
  lookup-update_declared u k (some d) obj n = lookup-insert_some u.key k _ obj n

  -- An update of another key changes nothing under this one.
  pub lookup-apply_update :
      (schema : List VarDecl) (obj : Assoc Value) (u : Update) (k : Text)
      → text_eq u.key k ≡ false
      → lookup k (apply_update fl serde schema obj u) ≡ lookup k obj
  unfolding apply_update
  lookup-apply_update schema obj u k n = elim (Bool-cases (starts_with (codes "$") u.key)) [
    | inl e ↦ rw e refl
    | inr e ↦ rw e (lookup-update_declared u k (declared schema u.key) obj n)
  ]

  apply_update-Protected :
      (schema : List VarDecl) (obj : Assoc Value) (u : Update)
      → Protected schema u.key
      → apply_update fl serde schema obj u ≡ obj
  unfolding apply_update update_declared
  apply_update-Protected schema obj u (inl e) = rw e refl
  apply_update-Protected schema obj u (inr e) = elim (Bool-cases (starts_with (codes "$") u.key)) [
    | inl d ↦ rw d refl
    | inr d ↦ rw (d, e) refl
  ]

  lookup-apply_all :
      (schema : List VarDecl) (obj : Assoc Value) (us : List Update) (k : Text)
      → Protected schema k
      → lookup k (apply_all fl serde schema obj us) ≡ lookup k obj
  unfolding apply_all
  lookup-apply_all schema obj [] k p = refl
  lookup-apply_all schema obj (u ∷ us) k p =
      lookup-apply_all schema (apply_update fl serde schema obj u) us k p
      ∙ (elim (Bool-cases (text_eq u.key k)) [
        | inl e ↦
            let same = (text_eq_iff u.key k).0 e in
            ap (lookup k)
              (apply_update-Protected schema obj u (subst (λ x. Protected schema x) (sym same) p))
        | inr e ↦ lookup-apply_update schema obj u k e
      ])

  -- No updates change the value of a key that begins with `$`, nor of one that is not declared.
  pub apply_updates-Protected :
      (state : Value) (schema : List VarDecl) (us : List Update) (k : Text)
      → Protected schema k
      → get (apply_updates fl serde state schema us) k ≡ get state k
  unfolding apply_updates
  apply_updates-Protected state schema us k p =
      get-to_fields k _ ∙ (lookup-apply_all schema _ us k p ∙ sym (get-or_no_fields k state))
