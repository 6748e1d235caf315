-- ===== src/Assoc.antt =====
-- Rust's `HashMap` with string keys, as an association list. The program never relies on the order
-- in which a map is walked.
use shirita.Prelude.{
  ◌≡◌, refl, Option, none, some, Bool, false, List, [], ◌∷◌, arith, if◌then◌else◌, Bool-cases, inl,
  inr, ◌∙◌,
}
use shirita.Text.{Text, text_eq, text_eq_iff}

abbrev pub Assoc {ℓ} : Type ℓ → Type ℓ
Assoc V = List (Text × V)

module _ {ℓ} {V : Type ℓ} where
  unfoldable pub lookup : Text → Assoc V → Option V
  lookup k [] = none
  lookup k ((j, v) ∷ m) = if text_eq j k then some v else lookup k m

  -- `HashMap::remove`
  unfoldable pub remove : Text → Assoc V → Assoc V
  remove k [] = []
  remove k ((j, v) ∷ m) = let rest = remove k m in if text_eq j k then rest else (j, v) ∷ rest

  -- `HashMap::insert`, which replaces the value of a key that is there.
  unfoldable pub insert : Text → V → Assoc V → Assoc V
  unfolding remove
  insert k v m = (k, v) ∷ remove k m

  -- `HashMap::contains_key`
  unfoldable pub contains_key : Text → Assoc V → Bool
  contains_key k [] = false
  contains_key k ((j, v) ∷ m) = if text_eq j k then Bool.true else contains_key k m

  pub lookup-remove :
      (k j : Text) (m : Assoc V)
      → lookup j (remove k m) ≡ (if text_eq k j then none else lookup j m)
  unfolding lookup remove
  lookup-remove k j [] = ground arith
  lookup-remove k j ((i, v) ∷ m) =
      ground (arith, lookup-remove k j m, text_eq_iff i k, text_eq_iff i j, text_eq_iff k j)

  pub lookup-insert :
      (k j : Text) (v : V) (m : Assoc V)
      → lookup j (insert k v m) ≡ (if text_eq k j then some v else lookup j m)
  unfolding lookup insert
  lookup-insert k j v m = ground (arith, lookup-remove k j m)

  pub lookup-contains_key : (k : Text) (m : Assoc V) → contains_key k m ≡ false → lookup k m ≡ none
  unfolding lookup contains_key
  lookup-contains_key k [] h = refl
  lookup-contains_key k ((j, v) ∷ m) h = ground (arith, lookup-contains_key k m)

  -- A loop that inserts each entry of another map. A map has each name once, so that the order of the
  -- loop is free.
  unfoldable pub insert_all : Assoc V → Assoc V → Assoc V
  insert_all [] m = m
  insert_all ((k, v) ∷ rest) m = insert k v (insert_all rest m)

  -- `Option::or`
  abbrev pub first_of : Option V → Option V → Option V
  first_of none d = d
  first_of (some a) d = some a

  pub lookup-insert_all :
      (j : Text) (more m : Assoc V)
      → lookup j (insert_all more m) ≡ first_of (lookup j more) (lookup j m)
  unfolding insert_all lookup
  lookup-insert_all j [] m = refl
  lookup-insert_all j ((k, v) ∷ rest) m =
      lookup-insert k j v (insert_all rest m) ∙ (elim (Bool-cases (text_eq k j)) [
        | inl e ↦ rw e
        | inr e ↦ rw (e, lookup-insert_all j rest m)
      ])
