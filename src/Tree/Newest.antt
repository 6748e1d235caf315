-- ===== src/Tree/Newest.antt =====
-- The newest child of a message, in shirita-core/src/tree.rs.
use shirita.Prelude.{
  ℕ, ◌<◌, ◌≡◌, ◌≢◌, refl, sym, ap, ◌∙◌, subst, none, some, Bool, true, false, List, [], ◌∷◌, arith,
  keep, keep-true, keep-false, ◌⊎◌, inl, inr, Bool-cases, Option-cases, ◌↔◌, if◌then◌else◌,
}
use mathlib.Core.List.{Memᴰ}
use shirita.Text.{Text, text_eq, text_eq_iff}
use shirita.Tools.{text_le}
use shirita.Tree.{Message, not_newer, newest_from, newest, is_child, newest_child}

-- The order of strings: at the first place where they differ the smaller character, or the end.
abbrev pub Before : Text → Text → Type 0
Before s [] = ⊥
Before [] (b ∷ t) = Unit
Before (a ∷ s) (b ∷ t) = (a < b) ⊎ ((a ≡ b) × Before s t)

-- Not newer: created before, or at the same time with an id that is not greater.
abbrev pub NoNewer : Message → Message → Type 0
NoNewer a b =
    Before a.created_at b.created_at
    ⊎ ((a.created_at ≡ b.created_at) × (Before a.id b.id ⊎ (a.id ≡ b.id)))

-- A child of the message with an id, and no child of it is newer.
pub record NewestChild (messages : List Message) (cur : Text) (child : Message) : Type 0 where
  pub there : Memᴰ child messages
  pub below : child.parent_id ≡ some cur
  pub last : (m : Message) → Memᴰ m messages → m.parent_id ≡ some cur → NoNewer m child

order : (a b : ℕ) → (a < b) ⊎ ((a ≡ b) ⊎ (b < a))
order a b = ground arith

text_le-true : (s t : Text) → text_le s t ≡ true → Before s t ⊎ (s ≡ t)
unfolding text_le
text_le-true [] [] h = inr refl
text_le-true [] (b ∷ t) h = inl tt
text_le-true (a ∷ s) [] h = absurd (ground arith)
text_le-true (a ∷ s) (b ∷ t) h = elim (order a b) [
  | inl l ↦ inl (inl l)
  | inr (inl e) ↦ elim (text_le-true s t (ground arith)) [
    | inl x ↦ inl (inr (e, x))
    | inr x ↦ inr (ap (λ c. c ∷ s) e ∙ ap (λ r. b ∷ r) x)
  ]
  | inr (inr g) ↦ absurd (ground arith)
]

text_le-false : (s t : Text) → text_le s t ≡ false → Before t s
unfolding text_le
text_le-false [] t h = absurd (ground arith)
text_le-false (a ∷ s) [] h = tt
text_le-false (a ∷ s) (b ∷ t) h = elim (order a b) [
  | inl l ↦ absurd (ground arith)
  | inr (inl e) ↦ inr (sym e, text_le-false s t (ground arith))
  | inr (inr g) ↦ inl g
]

Before-trans : (s t u : Text) → Before s t → Before t u → Before s u
Before-trans s t [] p q = absurd q
Before-trans s [] (c ∷ u) p q = absurd p
Before-trans [] (b ∷ t) (c ∷ u) p q = tt
Before-trans (a ∷ s) (b ∷ t) (c ∷ u) (inl p) (inl q) = inl (omega (arith, p, q))
Before-trans (a ∷ s) (b ∷ t) (c ∷ u) (inl p) (inr (e, q)) = inl (omega (arith, p, e))
Before-trans (a ∷ s) (b ∷ t) (c ∷ u) (inr (d, p)) (inl q) = inl (omega (arith, d, q))
Before-trans (a ∷ s) (b ∷ t) (c ∷ u) (inr (d, p)) (inr (e, q)) = inr (d ∙ e, Before-trans s t u p q)

-- An order of strings, or that they are equal.
abbrev AtMost : Text → Text → Type 0
AtMost s t = Before s t ⊎ (s ≡ t)

AtMost-trans : (s t u : Text) → AtMost s t → AtMost t u → AtMost s u
AtMost-trans s t u (inl p) (inl q) = inl (Before-trans s t u p q)
AtMost-trans s t u (inl p) (inr e) = inl (subst (λ x. Before s x) e p)
AtMost-trans s t u (inr d) q = subst (λ x. AtMost x u) (sym d) q

NoNewer-trans : (a b c : Message) → NoNewer a b → NoNewer b c → NoNewer a c
NoNewer-trans a b c (inl p) (inl q) = inl (Before-trans a.created_at b.created_at c.created_at p q)
NoNewer-trans a b c (inl p) (inr (e, q)) = inl (subst (λ x. Before a.created_at x) e p)
NoNewer-trans a b c (inr (d, p)) (inl q) = inl (subst (λ x. Before x c.created_at) (sym d) q)
NoNewer-trans a b c (inr (d, p)) (inr (e, q)) = inr (d ∙ e, AtMost-trans a.id b.id c.id p q)

not_newer-true : (a b : Message) → not_newer a b ≡ true → NoNewer a b
unfolding not_newer
not_newer-true a b h = elim (Bool-cases (text_eq a.created_at b.created_at)) [
  | inl e ↦ inr ((text_eq_iff a.created_at b.created_at).0 e, text_le-true a.id b.id (ground arith))
  | inr e ↦ elim (text_le-true a.created_at b.created_at (ground arith)) [
    | inl l ↦ inl l
    | inr q ↦ let r = (text_eq_iff a.created_at b.created_at).1 q in absurd (ground arith)
  ]
]

not_newer-false : (a b : Message) → not_newer a b ≡ false → NoNewer b a
unfolding not_newer
not_newer-false a b h = elim (Bool-cases (text_eq a.created_at b.created_at)) [
  | inl e ↦ inr (
    sym ((text_eq_iff a.created_at b.created_at).0 e),
    inl (text_le-false a.id b.id (ground arith)),
  )
  | inr e ↦ inl (text_le-false a.created_at b.created_at (ground arith))
]

-- The message that is found is one of the list, and no other is newer.
abbrev IsNewest : Message → List Message → Type 0
IsNewest x ms = Memᴰ x ms × ((m : Message) → Memᴰ m ms → NoNewer m x)

NoNewer-refl : (a : Message) → NoNewer a a
NoNewer-refl a = inr (refl, inr refl)

-- A message that is not newer than a member may join the list.
IsNewest-join :
    (r x y : Message) (ms : List Message)
    → IsNewest r ms
    → Memᴰ x ms
    → NoNewer y x
    → IsNewest r (y ∷ ms)
IsNewest-join r x y ms (here, most) i l = (Memᴰ.tail here, go)
  where
    go : (m : Message) → Memᴰ m (y ∷ ms) → NoNewer m r
    go m (Memᴰ.head e) = subst (λ z. NoNewer z r) (sym e) (NoNewer-trans y x r l (most x i))
    go m (Memᴰ.tail j) = most m j

IsNewest-swap :
    (r x y : Message) (ms : List Message) → IsNewest r (x ∷ y ∷ ms) → IsNewest r (y ∷ x ∷ ms)
IsNewest-swap r x y ms (here, most) = (swapped r x y here, λ m i. most m (swapped m y x i))
  where
    swapped : (m a b : Message) → Memᴰ m (a ∷ b ∷ ms) → Memᴰ m (b ∷ a ∷ ms)
    swapped m a b (Memᴰ.head e) = Memᴰ.tail (Memᴰ.head e)
    swapped m a b (Memᴰ.tail (Memᴰ.head e)) = Memᴰ.head e
    swapped m a b (Memᴰ.tail (Memᴰ.tail i)) = Memᴰ.tail (Memᴰ.tail i)

newest_from-IsNewest :
    (best : Message) (ms : List Message) → IsNewest (newest_from best ms) (best ∷ ms)
unfolding newest_from
newest_from-IsNewest best [] = (Memᴰ.head refl, go)
  where
    go : (m : Message) → Memᴰ m (best ∷ []) → NoNewer m best
    go m (Memᴰ.head e) = subst (λ x. NoNewer x best) (sym e) (NoNewer-refl best)
    go m (Memᴰ.tail j) = elim j [ ]
newest_from-IsNewest best (x ∷ ms) =
    go (not_newer best x) refl (newest_from-IsNewest x ms) (newest_from-IsNewest best ms)
  where
    go :
        (b : Bool)
        → not_newer best x ≡ b
        → IsNewest (newest_from x ms) (x ∷ ms)
        → IsNewest (newest_from best ms) (best ∷ ms)
        → IsNewest (newest_from (if b then x else best) ms) (best ∷ x ∷ ms)
    go true h q r =
        IsNewest-join (newest_from x ms) x best (x ∷ ms) q (Memᴰ.head refl)
          (not_newer-true best x h)
    go false h q r = IsNewest-swap (newest_from best ms) x best ms (
        IsNewest-join (newest_from best ms) best x (best ∷ ms) r (Memᴰ.head refl)
          (not_newer-false best x h))

newest-none : (ms : List Message) → newest ms ≡ none → (m : Message) → Memᴰ m ms → ⊥
unfolding newest
newest-none [] h m i = elim i [ ]
newest-none (x ∷ ms) h m i = absurd (ground arith)

newest-some : (ms : List Message) (c : Message) → newest ms ≡ some c → IsNewest c ms
unfolding newest
newest-some [] c h = absurd (ground arith)
newest-some (x ∷ ms) c h =
    let same : newest_from x ms ≡ c = ground arith in
    subst (λ y. IsNewest y (x ∷ ms)) same (newest_from-IsNewest x ms)

is_child_iff : (cur : Text) (m : Message) → (is_child cur m ≡ true) ↔ (m.parent_id ≡ some cur)
is_child_iff cur m = elim (Option-cases m.parent_id) [
  | inl e ↦ (λ h. absurd (ground arith), λ h. absurd (ground arith))
  | inr (p, e) ↦ (
    λ h. rw e (ap some ((text_eq_iff p cur).0 (ground arith))),
    λ h. let q : p ≡ cur = ground arith in rw e ((text_eq_iff p cur).1 q),
  )
]

keep-Mem :
    (p : Message → Bool) (ms : List Message) (m : Message)
    → Memᴰ m (keep p ms)
    → Memᴰ m ms × (p m ≡ true)
keep-Mem p [] m i = elim i [ ]
keep-Mem p (x ∷ ms) m i = go (p x) refl (keep-Mem p ms m) i
  where
    go :
        (b : Bool)
        → p x ≡ b
        → (Memᴰ m (keep p ms) → Memᴰ m ms × (p m ≡ true))
        → Memᴰ m (elim b [ true ↦ x ∷ keep p ms | false ↦ keep p ms ])
        → Memᴰ m (x ∷ ms) × (p m ≡ true)
    go true h r (Memᴰ.head e) = (Memᴰ.head e, ap p e ∙ h)
    go true h r (Memᴰ.tail j) = (Memᴰ.tail (r j).0, (r j).1)
    go false h r j = (Memᴰ.tail (r j).0, (r j).1)

Mem-keep :
    (p : Message → Bool) (ms : List Message) (m : Message)
    → Memᴰ m ms
    → p m ≡ true
    → Memᴰ m (keep p ms)
Mem-keep p [] m i h = elim i [ ]
Mem-keep p (x ∷ ms) m (Memᴰ.head e) h = rw (keep-true p x ms (ap p (sym e) ∙ h)) (Memᴰ.head e)
Mem-keep p (x ∷ ms) m (Memᴰ.tail j) h = elim (Bool-cases (p x)) [
  | inl q ↦ rw (keep-true p x ms q) (Memᴰ.tail (Mem-keep p ms m j h))
  | inr q ↦ rw (keep-false p x ms q) (Mem-keep p ms m j h)
]

-- The newest child that is found is one.
pub newest_child-NewestChild :
    (messages : List Message) (cur : Text) (child : Message)
    → newest_child messages cur ≡ some child
    → NewestChild messages cur child
unfolding newest_child
newest_child-NewestChild messages cur child h =
    let (i, most) = newest-some (keep (is_child cur) messages) child h in
    let (there, b) = keep-Mem (is_child cur) messages child i in
    record {
      there = there;
      below = (is_child_iff cur child).0 b;
      last = λ m j e. most m (Mem-keep (is_child cur) messages m j ((is_child_iff cur m).1 e));
    }

pub newest_child-none :
    (messages : List Message) (cur : Text)
    → newest_child messages cur ≡ none
    → (m : Message) → Memᴰ m messages
    → m.parent_id ≢ some cur
unfolding newest_child
newest_child-none messages cur h m i e =
    newest-none (keep (is_child cur) messages) h m
      (Mem-keep (is_child cur) messages m i ((is_child_iff cur m).1 e))
