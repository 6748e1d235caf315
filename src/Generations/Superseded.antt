-- ===== src/Generations/Superseded.antt =====
-- What becomes of a generation of shirita-web/src/generations.rs while others start and end.
use shirita.Prelude.{
  ◌≡◌, refl, ◌∙◌, ℕ, suc, ◌%◌, ◌^◌, ◌<◌, ◌≤◌, Option, none, some, Bool, true, false, List, [], ◌∷◌,
  ◌++◌, ◌&&◌, ◌||◌, ◌==◌, arith, Bool-cases, inl, inr,
}
use mathlib.Core.List.{Memᴰ}
use shirita.Text.{Text, text_eq, text_eq_iff, text_eq_refl}
use shirita.Assoc.{lookup}
use shirita.Generations.{
  Slot, Generations, cut_off, replace, is_current, finish, remove, stop, stop_slot,
}
use shirita.Generations.History.{
  Call, replaced, finished, removed, stopped, after, starts, slot_of, in_flight, lookup-after,
}

-- A call that takes the slot of a session from whoever holds it.
abbrev pub takes : Text → Call → Bool
takes k (replaced j h t) = text_eq j k
takes k (finished j i) = false
takes k (removed j) = text_eq j k
takes k (stopped j) = false

-- The call by which a generation says that it has ended.
abbrev pub ends : Text → ℕ → Call → Bool
ends k i (replaced j h t) = false
ends k i (finished j n) = text_eq j k && (i == n)
ends k i (removed j) = false
ends k i (stopped j) = false

abbrev taken : Text → List Call → Bool
taken k [] = false
taken k (c ∷ cs) = taken k cs || takes k c

abbrev ended : Text → ℕ → List Call → Bool
ended k i [] = false
ended k i (c ∷ cs) = ended k i cs || ends k i c

abbrev pub CutOff : ℕ → ℕ → Generations → Type 0
CutOff h t g = Memᴰ h g.aborted × Memᴰ t g.stopped

cut_off-keeps :
    (h t : ℕ) (o : Option Slot) (g : Generations) → CutOff h t g → CutOff h t (cut_off o g)
unfolding cut_off
cut_off-keeps h t none g c = c
cut_off-keeps h t (some s) g c = (Memᴰ.tail c.0, Memᴰ.tail c.1)

stop_slot-keeps :
    (h t : ℕ) (o : Option Slot) (g : Generations) → CutOff h t g → CutOff h t (stop_slot o g).1
unfolding stop_slot
stop_slot-keeps h t none g c = c
stop_slot-keeps h t (some s) g c = (c.0, Memᴰ.tail c.1)

finish-keeps :
    (h t : ℕ) (g : Generations) (k : Text) (i : ℕ) → CutOff h t g → CutOff h t (finish g k i)
unfolding finish
finish-keeps h t g k i c = elim (Bool-cases (is_current (lookup k g.slots) i)) [
  | inl e ↦ rw e c
  | inr e ↦ rw e c
]

-- A call keeps what was aborted and stopped.
perform-keeps :
    (h t : ℕ) (c : Call) (cs : List Call) → CutOff h t (after cs) → CutOff h t (after (c ∷ cs))
unfolding replace remove stop
perform-keeps h t (replaced k a b) cs c = cut_off-keeps h t _ _ c
perform-keeps h t (finished k i) cs c = finish-keeps h t _ k i c
perform-keeps h t (removed k) cs c = cut_off-keeps h t _ _ c
perform-keeps h t (stopped k) cs c = stop_slot-keeps h t _ _ c

-- The slot of a session is cut off by a call that takes it.
takes-CutOff :
    (k : Text) (i h t : ℕ) (c : Call) (cs : List Call)
    → in_flight k cs ≡ some (slot_of i h t)
    → takes k c ≡ true
    → CutOff h t (after (c ∷ cs))
unfolding replace remove cut_off
takes-CutOff k i h t (replaced j a b) cs e s =
    rw ((text_eq_iff j k).0 s, lookup-after cs k, e) (Memᴰ.head refl, Memᴰ.head refl)
takes-CutOff k i h t (removed j) cs e s =
    rw ((text_eq_iff j k).0 s, lookup-after cs k, e) (Memᴰ.head refl, Memᴰ.head refl)
takes-CutOff k i h t (finished j n) cs e s = ground arith
takes-CutOff k i h t (stopped j) cs e s = ground arith

-- Every other call but its own end leaves it there.
stays-in_flight :
    (k : Text) (i h t : ℕ) (c : Call) (cs : List Call)
    → in_flight k cs ≡ some (slot_of i h t)
    → takes k c ≡ false
    → ends k (i % 2 ^ 64) c ≡ false
    → in_flight k (c ∷ cs) ≡ some (slot_of i h t)
unfolding is_current
stays-in_flight k i h t (replaced j a b) cs e s n = rw s e
stays-in_flight k i h t (finished j m) cs e s n = rw (e, n) refl
stays-in_flight k i h t (removed j) cs e s n = rw s e
stays-in_flight k i h t (stopped j) cs e s n = e

-- By whether its slot was taken: what the registry, or the history, says of a generation.
abbrev pub Settled : Text → ℕ → ℕ → ℕ → Bool → Generations → Type 0
Settled k i h t true g = CutOff h t g
Settled k i h t false g = lookup k g.slots ≡ some (slot_of i h t)

abbrev Standing : Text → ℕ → ℕ → ℕ → Bool → List Call → Type 0
Standing k i h t true cs = CutOff h t (after cs)
Standing k i h t false cs = in_flight k cs ≡ some (slot_of i h t)

Standing-step :
    (k : Text) (i h t : ℕ) (b : Bool) (c : Call) (cs : List Call)
    → Standing k i h t b cs
    → ends k (i % 2 ^ 64) c ≡ false
    → Standing k i h t (b || takes k c) (c ∷ cs)
Standing-step k i h t true c cs p n = perform-keeps h t c cs p
Standing-step k i h t false c cs p n = elim (Bool-cases (takes k c)) [
  | inl e ↦ rw e (takes-CutOff k i h t c cs p e)
  | inr e ↦ rw e (stays-in_flight k i h t c cs p e n)
]

after-Standing :
    (later earlier : List Call) (k : Text) (h t : ℕ)
    → ended k (starts earlier % 2 ^ 64) later ≡ false
    → Standing k (starts earlier) h t (taken k later) (later ++ (replaced k h t ∷ earlier))
after-Standing [] earlier k h t n = rw (text_eq_refl k) refl
after-Standing (c ∷ later) earlier k h t n =
    Standing-step k _ h t (taken k later) c _ (after-Standing later earlier k h t (ground arith))
      (ground arith)

Standing-Settled :
    (k : Text) (i h t : ℕ) (b : Bool) (cs : List Call)
    → Standing k i h t b cs
    → Settled k i h t b (after cs)
Standing-Settled k i h t true cs p = p
Standing-Settled k i h t false cs p = lookup-after cs k ∙ p

-- A generation that has not said that it has ended is the one registered for its session, as long as
-- no newer one was started and the session was not removed; from then on it is aborted and stopped.
pub after-Settled :
    (later earlier : List Call) (k : Text) (h t : ℕ)
    → ended k (starts earlier % 2 ^ 64) later ≡ false
    → Settled k (starts earlier) h t (taken k later) (after (later ++ (replaced k h t ∷ earlier)))
after-Settled later earlier k h t n =
    Standing-Settled k _ h t (taken k later) _ (after-Standing later earlier k h t n)

-- A slot is held, if at all, by a generation whose number lies between two bounds.
abbrev Between : ℕ → ℕ → Option Slot → Type 0
Between i b none = Unit
Between i b (some s) = (n : ℕ) × (s.gen_id ≡ n % 2 ^ 64) × (i < n) × (n < b)

Between-suc : (i b : ℕ) (o : Option Slot) → Between i b o → Between i (suc b) o
Between-suc i b none p = tt
Between-suc i b (some s) (n, e, l, m) = (n, e, l, omega (arith, m))

Between-is_current :
    (i b : ℕ) (o : Option Slot) → (b ≤ 2 ^ 64) → Between i b o → is_current o (i % 2 ^ 64) ≡ false
unfolding is_current
Between-is_current i b none l p = refl
Between-is_current i b (some s) l (n, e, m, u) = ground arith

starts-append :
    (mid earlier : List Call) (k : Text) (h t : ℕ)
    → starts earlier < starts (mid ++ (replaced k h t ∷ earlier))
starts-append [] earlier k h t = omega arith
starts-append (replaced j a b ∷ mid) earlier k h t = omega (arith, starts-append mid earlier k h t)
starts-append (finished j i ∷ mid) earlier k h t = starts-append mid earlier k h t
starts-append (removed j ∷ mid) earlier k h t = starts-append mid earlier k h t
starts-append (stopped j ∷ mid) earlier k h t = starts-append mid earlier k h t

-- The slot after a step, by whether the step takes it.
Between-step :
    (i : ℕ) (k : Text) (c : Call) (cs : List Call) (b : Bool)
    → i < starts cs
    → (b ≡ true → Between i (starts cs) (in_flight k cs))
    → (b || takes k c) ≡ true
    → Between i (starts (c ∷ cs)) (in_flight k (c ∷ cs))
Between-step i k (replaced j a d) cs b l p e = elim (Bool-cases (text_eq j k)) [
  | inl f ↦ rw f (starts cs, refl, l, omega arith)
  | inr f ↦ rw f (Between-suc i _ _ (p (ground arith)))
]
Between-step i k (finished j n) cs b l p e =
    elim (Bool-cases (text_eq j k && is_current (in_flight k cs) n)) [
      | inl f ↦ rw f tt
      | inr f ↦ rw f (p (ground arith))
    ]
Between-step i k (removed j) cs b l p e = elim (Bool-cases (text_eq j k)) [
  | inl f ↦ rw f tt
  | inr f ↦ rw f (p (ground arith))
]
Between-step i k (stopped j) cs b l p e = p (ground arith)

in_flight-Between :
    (mid earlier : List Call) (k : Text) (h t : ℕ)
    → taken k mid ≡ true
    → Between
        (starts earlier)
        (starts (mid ++ (replaced k h t ∷ earlier)))
        (in_flight k (mid ++ (replaced k h t ∷ earlier)))
in_flight-Between [] earlier k h t e = ground arith
in_flight-Between (c ∷ mid) earlier k h t e =
    Between-step (starts earlier) k c _ (taken k mid) (starts-append mid earlier k h t)
      (in_flight-Between mid earlier k h t) e

finish-other :
    (g : Generations) (k : Text) (i : ℕ) (o : Option Slot)
    → lookup k g.slots ≡ o
    → is_current o i ≡ false
    → finish g k i ≡ g
unfolding finish
finish-other g k i o e n = rw (e, n) refl

-- As long as fewer than 2^64 generations were started, a generation whose slot was taken changes
-- nothing when it says that it has ended: it never evicts the newer one.
pub finish-taken :
    (later earlier : List Call) (k : Text) (h t : ℕ)
    → taken k later ≡ true
    → starts (later ++ (replaced k h t ∷ earlier)) ≤ 2 ^ 64
    → finish (after (later ++ (replaced k h t ∷ earlier))) k (starts earlier % 2 ^ 64)
      ≡ after (later ++ (replaced k h t ∷ earlier))
finish-taken later earlier k h t e l =
    finish-other _ k _ _ (lookup-after _ k)
      (Between-is_current _ _ _ l (in_flight-Between later earlier k h t e))
