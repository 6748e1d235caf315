-- ===== src/Keyword/Laws.antt =====
-- What shirita-core/src/keyword.rs relies on of the automaton and of sets, and what a hit of the index
-- then says.
use shirita.Prelude.{
  ℕ, zero, suc, ◌≡◌, refl, sym, subst, false, List, [], ◌∷◌, ◌++◌, is_empty, All, All-append,
  Bool-cases, inl, inr,
}
use mathlib.Core.List.{Memᴰ}
use shirita.Text.{Text, trim}
use shirita.Keyword.{
  Automaton, KeywordIndex, Keywords, add_key, add_keys, build, owner_at, owners_of, scan,
}

-- A pattern stands somewhere in a text.
abbrev pub Occurs : Text → Text → Type 0
Occurs p body = (before after : Text) × (body ≡ before ++ (p ++ after))

-- The number is that of a pattern, and the pattern stands in the text.
abbrev pub IsMatch : List Text → Text → ℕ → Type 0
IsMatch [] body i = ⊥
IsMatch (p ∷ ps) body zero = Occurs p body
IsMatch (p ∷ ps) body (suc i) = IsMatch ps body i

-- The automaton reports matches only, and a set that is gone through yields its ids only.
pub record Lawful (ac : Automaton) : Type 0 where
  pub find_iter-IsMatch :
      (patterns : List Text) (body : Text)
      → All (λ i. IsMatch patterns body i) (ac.find_iter patterns body)
  pub set_order-Mem : (ids : List Text) (id : Text) → Memᴰ id (ac.set_order ids) → Memᴰ id ids

-- A key that is not blank stands in a text, up to case and white space at its ends.
abbrev pub Hits : Automaton → Text → Text → Type 0
Hits ac body key =
    (is_empty (ac.to_lowercase (trim key)) ≡ false)
    × Occurs (ac.to_lowercase (trim key)) (ac.to_lowercase body)

All-Mem : (P : Text → Type 0) (ids : List Text) → ((id : Text) → Memᴰ id ids → P id) → All P ids
All-Mem P [] f = tt
All-Mem P (id ∷ ids) f = (f id (Memᴰ.head refl), All-Mem P ids (λ x m. f x (Memᴰ.tail m)))

Mem-All : (P : Text → Type 0) (ids : List Text) → All P ids → (id : Text) → Memᴰ id ids → P id
Mem-All P [] a id m = elim m [ ]
Mem-All P (x ∷ ids) a id (Memᴰ.head e) = subst P (sym e) a.0
Mem-All P (x ∷ ids) a id (Memᴰ.tail m) = Mem-All P ids a.1 id m

module _ (ac : Automaton) (P : Text → Type 0) (body : Text) where
  -- An id of which a key hits the text is as wanted.
  abbrev pub Offers : Text × List Text → Type 0
  Offers k = (key : Text) → Memᴰ key k.1 → Hits ac body key → P k.0

  -- The patterns stand beside their owners, each of which is as wanted if its pattern occurs.
  abbrev Paired : List Text → List Text → Type 0
  Paired [] [] = Unit
  Paired (p ∷ ps) (o ∷ os) = (Occurs p (ac.to_lowercase body) → P o) × Paired ps os
  Paired _ _ = ⊥

  add_keys-Paired :
      (id : Text) (keys : List Text) (index : KeywordIndex)
      → Offers (id, keys)
      → Paired index.patterns index.owners
      → Paired (add_keys ac id keys index).patterns (add_keys ac id keys index).owners
  unfolding add_keys add_key
  add_keys-Paired id [] index o a = a
  add_keys-Paired id (k ∷ ks) index o a =
      let rest = add_keys-Paired id ks index (λ key m. o key (Memᴰ.tail m)) a in
      elim (Bool-cases (is_empty (ac.to_lowercase (trim k)))) [
        | inl e ↦ rw e rest
        | inr e ↦ rw e (λ h. o k (Memᴰ.head refl) (e, h), rest)
      ]

  build-Paired :
      (ks : Keywords) → All Offers ks → Paired (build ac ks).patterns (build ac ks).owners
  unfolding build
  build-Paired [] o = tt
  build-Paired ((id, keys) ∷ rest) o =
      add_keys-Paired id keys (build ac rest) o.0 (build-Paired rest o.1)

  owner_at-All :
      (i : ℕ) (patterns owners : List Text)
      → Paired patterns owners
      → IsMatch patterns (ac.to_lowercase body) i
      → All P (owner_at i owners)
  unfolding owner_at
  owner_at-All i [] owners a m = absurd m
  owner_at-All i (p ∷ ps) [] a m = absurd a
  owner_at-All zero (p ∷ ps) (o ∷ os) a m = (a.0 m, tt)
  owner_at-All (suc i) (p ∷ ps) (o ∷ os) a m = owner_at-All i ps os a.1 m

  owners_of-All :
      (patterns owners : List Text) (is : List ℕ)
      → Paired patterns owners
      → All (λ i. IsMatch patterns (ac.to_lowercase body) i) is
      → All P (owners_of owners is)
  unfolding owners_of
  owners_of-All patterns owners [] a m = tt
  owners_of-All patterns owners (i ∷ is) a m =
      All-append P (owner_at i owners) (owners_of owners is) (owner_at-All i patterns owners a m.0)
        (owners_of-All patterns owners is a m.1)

  pub scan-All : Lawful ac → (ks : Keywords) → All Offers ks → All P (scan ac (build ac ks) body)
  unfolding scan
  scan-All laws ks o = elim (Bool-cases (is_empty (build ac ks).patterns)) [
    | inl e ↦ rw e tt
    | inr e ↦ rw e (
        All-Mem P _ (λ id m.
          Mem-All P _
            (owners_of-All (build ac ks).patterns (build ac ks).owners _ (build-Paired ks o)
              (laws.find_iter-IsMatch (build ac ks).patterns (ac.to_lowercase body)))
            id (laws.set_order-Mem _ id m)))
  ]
