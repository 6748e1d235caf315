-- ===== src/Generations/History.antt =====
-- The registry of shirita-web/src/generations.rs as a refinement of the history of its calls.
use shirita.Prelude.{
  ◌≡◌, refl, ap, ◌∙◌, ℕ, suc, ◌%◌, ◌^◌, Option, none, some, List, [], ◌∷◌, ◌&&◌, if◌then◌else◌,
  arith, Bool-cases, inl, inr,
}
use shirita.Text.{Text, text_eq, text_eq_iff, text_eq_refl}
use shirita.Assoc.{lookup, lookup-insert, lookup-remove}
use shirita.Generations.{
  Slot, Generations, new, cut_off, replace, is_current, finish, remove, stop, stop_slot,
}

pub data Call : Type 0 where
  replaced : Text → ℕ → ℕ → Call
  finished : Text → ℕ → Call
  removed stopped : Text → Call

abbrev pub perform : Call → Generations → Generations
perform (replaced k h t) g = (replace g k h t).1
perform (finished k i) g = finish g k i
perform (removed k) g = remove g k
perform (stopped k) g = (stop g k).1

-- The registry after a history, whose newest call comes first.
abbrev pub after : List Call → Generations
after [] = new
after (c ∷ cs) = perform c (after cs)

abbrev pub starts : List Call → ℕ
starts [] = 0
starts (replaced k h t ∷ cs) = suc (starts cs)
starts (finished k i ∷ cs) = starts cs
starts (removed k ∷ cs) = starts cs
starts (stopped k ∷ cs) = starts cs

abbrev pub slot_of : ℕ → ℕ → ℕ → Slot
slot_of i h t = record { gen_id = i % 2 ^ 64; handle = h; stop = t }

-- What a session's own calls say of it: the generation that was started last, until it finishes or
-- the session is removed.
abbrev pub in_flight : Text → List Call → Option Slot
in_flight k [] = none
in_flight k (replaced j h t ∷ cs) =
    if text_eq j k then some (slot_of (starts cs) h t) else in_flight k cs
in_flight k (finished j i ∷ cs) =
    let earlier = in_flight k cs in if text_eq j k && is_current earlier i then none else earlier
in_flight k (removed j ∷ cs) = if text_eq j k then none else in_flight k cs
in_flight k (stopped j ∷ cs) = in_flight k cs

cut_off-slots : (o : Option Slot) (g : Generations) → (cut_off o g).slots ≡ g.slots
unfolding cut_off
cut_off-slots none g = refl
cut_off-slots (some s) g = refl

cut_off-next_gen : (o : Option Slot) (g : Generations) → (cut_off o g).next_gen ≡ g.next_gen
unfolding cut_off
cut_off-next_gen none g = refl
cut_off-next_gen (some s) g = refl

stop_slot-slots : (o : Option Slot) (g : Generations) → (stop_slot o g).1.slots ≡ g.slots
unfolding stop_slot
stop_slot-slots none g = refl
stop_slot-slots (some s) g = refl

stop_slot-next_gen : (o : Option Slot) (g : Generations) → (stop_slot o g).1.next_gen ≡ g.next_gen
unfolding stop_slot
stop_slot-next_gen none g = refl
stop_slot-next_gen (some s) g = refl

finish-next_gen : (g : Generations) (k : Text) (i : ℕ) → (finish g k i).next_gen ≡ g.next_gen
unfolding finish
finish-next_gen g k i = ground arith

pub next_gen-after : (cs : List Call) → (after cs).next_gen ≡ starts cs % 2 ^ 64
unfolding new replace remove stop
next_gen-after [] = refl
next_gen-after (replaced k h t ∷ cs) =
    cut_off-next_gen _ _ ∙ (rw (next_gen-after cs) (ground arith))
next_gen-after (finished k i ∷ cs) = finish-next_gen _ k i ∙ next_gen-after cs
next_gen-after (removed k ∷ cs) = cut_off-next_gen _ _ ∙ next_gen-after cs
next_gen-after (stopped k ∷ cs) = stop_slot-next_gen _ _ ∙ next_gen-after cs

pub lookup-finish :
    (g : Generations) (j k : Text) (i : ℕ)
    → lookup k (finish g j i).slots
      ≡ (if text_eq j k && is_current (lookup j g.slots) i then none else lookup k g.slots)
unfolding finish
lookup-finish g j k i = ground (arith, lookup-remove j k g.slots)

lookup-new : (k : Text) → lookup k new.slots ≡ none
unfolding lookup new
lookup-new k = refl

-- After any history of calls each session's slot is the one that the session's own calls leave, with
-- ids counted modulo 2^64.
pub lookup-after : (cs : List Call) (k : Text) → lookup k (after cs).slots ≡ in_flight k cs
unfolding replace remove stop
lookup-after [] k = lookup-new k
lookup-after (replaced j h t ∷ cs) k =
    ap (lookup k) (cut_off-slots _ _)
    ∙ (lookup-insert j k _ _ ∙ rw (lookup-after cs k, next_gen-after cs) refl)
lookup-after (finished j i ∷ cs) k =
    lookup-finish (after cs) j k i
    ∙ (rw (lookup-after cs k, lookup-after cs j)
        (elim (Bool-cases (text_eq j k)) [
          | inl e ↦ rw ((text_eq_iff j k).0 e, text_eq_refl k)
          | inr e ↦ rw e
        ]))
lookup-after (removed j ∷ cs) k =
    ap (lookup k) (cut_off-slots _ _) ∙ (lookup-remove j k _ ∙ rw (lookup-after cs k) refl)
lookup-after (stopped j ∷ cs) k = ap (lookup k) (stop_slot-slots _ _) ∙ lookup-after cs k
