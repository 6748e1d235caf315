-- ===== src/Authorization/Redaction.antt =====
-- No value under a sensitive key reaches a preview.
use shirita.Prelude.{
  ℕ, ◌≤◌, ◌≡◌, refl, inl, inr, Bool, true, false, arith, Bool-cases, length, length-append, take,
  ltb, [], ◌∷◌, zero, suc, if◌then◌else◌,
}
use shirita.Text.{Text, codes}
use shirita.Json.{
  Value, Items, Fields, null, bool, number, array, object, nil, cons, end, field, Serde,
}
use shirita.Authorization.{
  redact, redact_items, redact_fields, redacted, is_sensitive_key, preview_max_chars,
  bounded_redacted_preview, or_braces, cut_short,
}

-- At every depth, the value of each field with a sensitive key is the mask.
unfoldable mutual
  pub Masked : Value → Type 0
  Masked (object fs) = MaskedFields fs
  Masked (array vs) = MaskedItems vs
  Masked null = Unit
  Masked (bool b) = Unit
  Masked (number n) = Unit
  Masked (Value.text t) = Unit

  pub MaskedItems : Items → Type 0
  MaskedItems nil = Unit
  MaskedItems (cons v vs) = Masked v × MaskedItems vs

  pub MaskedFields : Fields → Type 0
  MaskedFields end = Unit
  MaskedFields (field k v fs) =
      ((is_sensitive_key k ≡ true) → v ≡ redacted) × Masked v × MaskedFields fs

redacted_if-Masked :
    (b : Bool) (v : Value) → Masked (redact v) → Masked (if b then redacted else redact v)
unfolding Masked
redacted_if-Masked true v m = tt
redacted_if-Masked false v m = m

mutual
  unfolding redact Masked

  redact-Masked : (v : Value) → Masked (redact v)
  redact-Masked (object fs) = redact_fields-Masked fs
  redact-Masked (array vs) = redact_items-Masked vs
  redact-Masked null = tt
  redact-Masked (bool b) = tt
  redact-Masked (number n) = tt
  redact-Masked (Value.text t) = tt

  redact_items-Masked : (vs : Items) → MaskedItems (redact_items vs)
  redact_items-Masked nil = tt
  redact_items-Masked (cons v vs) = (redact-Masked v, redact_items-Masked vs)

  redact_fields-Masked : (fs : Fields) → MaskedFields (redact_fields fs)
  redact_fields-Masked end = tt
  redact_fields-Masked (field k v fs) = (
    (λ e. rw e refl),
    redacted_if-Masked (is_sensitive_key k) v (redact-Masked v),
    redact_fields-Masked fs,
  )

length-take_le : (n : ℕ) (s : Text) → length (take n s) ≤ n
length-take_le zero s = omega arith
length-take_le (suc n) [] = omega arith
length-take_le (suc n) (c ∷ s) = omega (arith, length-take_le n s)

cut_short-length : (s : Text) → length (cut_short s) ≤ 513
unfolding cut_short
cut_short-length s =
    let l = length-take_le preview_max_chars s in
    let m = length-append (take preview_max_chars s) (codes "…") in
    elim (Bool-cases (ltb (length (take preview_max_chars s)) (length s))) [
      | inl e ↦ rw e (omega (arith, l, m))
      | inr e ↦ rw e (omega (arith, l))
    ]

-- The preview of the arguments is the text of a value in which the mask stands for the value of
-- every sensitive key, at every depth, cut to at most 513 characters.
pub preview-Masked :
    (serde : Serde) (arguments : Value)
    → (shown : Value) × Masked shown
      × (bounded_redacted_preview serde arguments ≡ cut_short (or_braces (serde.to_string shown)))
      × (length (bounded_redacted_preview serde arguments) ≤ 513)
unfolding bounded_redacted_preview
preview-Masked serde arguments = (
  redact arguments,
  redact-Masked arguments,
  refl,
  cut_short-length (or_braces (serde.to_string (redact arguments))),
)
