-- ===== src/Text/Search.antt =====
-- What the searches of a text find: `match_indices` against the offsets at which a pattern stands.
use shirita.Prelude.{
  ℕ, zero, suc, ◌+◌, ◌-◌, ◌≤◌, ◌<◌, ◌≡◌, refl, ap, inl, inr, Bool, true, false, List, [], ◌∷◌, ◌++◌,
  sym, ◌∙◌, arith, Bool-cases, length, take, drop, take-append-drop,
}
use native.Mathlib.Decide.{dec_lt}
use shirita.Text.{Text, starts_with, matches_from, match_indices}

-- The pattern stands at offset `i`.
abbrev pub Stands : Text → Text → ℕ → Type 0
Stands p s i = starts_with p (drop i s) ≡ true

abbrev pub Absent : Text → Text → ℕ → Type 0
Absent p s i = starts_with p (drop i s) ≡ false

pub record IsFirst (p s : Text) (i : ℕ) : Type 0 where
  pub inside : i ≤ length s
  pub stands : Stands p s i
  pub before : (m : ℕ) → m < i → Absent p s m

-- The one match: nothing before it, and nothing from its end on.
pub record IsOnly (p s : Text) (i : ℕ) : Type 0 where
  pub first : IsFirst p s i
  pub after : (m : ℕ) → i + length p ≤ m → m ≤ length s → Absent p s m

matches_from-none :
    (p : Text) (i skip : ℕ) (s : Text)
    → matches_from p i skip s ≡ []
    → (m : ℕ) → skip ≤ m
    → m ≤ length s
    → Absent p s m
unfolding matches_from
matches_from-none [] i skip [] h m l u = cc
matches_from-none (q ∷ qs) i skip [] h zero l u = refl
matches_from-none (q ∷ qs) i skip [] h (suc m) l u = absurd (omega arith)
matches_from-none p i (suc skip) (c ∷ s) h zero l u = absurd (omega arith)
matches_from-none p i (suc skip) (c ∷ s) h (suc m) l u =
    matches_from-none p (i + 1) skip s h m (omega arith) (omega arith)
matches_from-none p i zero (c ∷ s) h zero l u = ground arith
matches_from-none p i zero (c ∷ s) h (suc m) l u = elim (Bool-cases (starts_with p (c ∷ s))) [
  | inl hit ↦ cc
  | inr miss ↦ matches_from-none p (i + 1) 0 s (rw miss at h) m (omega arith) (omega arith)
]

-- No match: the pattern stands nowhere.
pub match_indices-none :
    (p s : Text) → match_indices p s ≡ [] → (m : ℕ) → m ≤ length s → Absent p s m
unfolding match_indices
match_indices-none p s h m u = matches_from-none p 0 0 s h m (omega arith) u

abbrev Later : Text → Text → ℕ → Type 0
Later p s lo = (m : ℕ) × (lo ≤ m) × (m ≤ length s) × Stands p s m

-- What the head of a list of matches says, the offsets counted from where the scan stands.
record Head (p : Text) (i skip : ℕ) (s : Text) (j : ℕ) (rest : List ℕ) (k : ℕ) : Type 0 where
  at : j ≡ i + k
  inside : k ≤ length s
  stands : Stands p s k
  before : (m : ℕ) → skip ≤ m → m < k → Absent p s m
  reach : 0 < length p → skip ≤ k
  again : 0 < length p → (j' : ℕ) (r' : List ℕ) → rest ≡ j' ∷ r' → Later p s (k + length p)
  after : 0 < length p → rest ≡ [] → (m : ℕ) → k + length p ≤ m → m ≤ length s → Absent p s m

Head-suc :
    (p : Text) (i skip skip' : ℕ) (c : ℕ) (s : Text) (j : ℕ) (rest : List ℕ) (k : ℕ)
    → skip' ≡ skip - 1
    → (skip ≡ 0 → starts_with p (c ∷ s) ≡ false)
    → Head p (i + 1) skip' s j rest k
    → Head p i skip (c ∷ s) j rest (suc k)
Head-suc p i skip skip' c s j rest k e miss h = record {
  at = omega (arith, h.at);
  inside = omega (arith, h.inside);
  stands = h.stands;
  before = elim [
    | zero ↦ λ l u. miss (omega arith)
    | suc m ↦ λ l u. h.before m (omega arith) (omega arith)
  ];
  reach = λ ne. omega (arith, h.reach ne);
  again =
      λ ne j' r' f. let (m, l, u, st) = h.again ne j' r' f in (suc m, omega arith, omega arith, st);
  after = λ ne f. elim [
    | zero ↦ λ l u. absurd (omega arith)
    | suc m ↦ λ l u. h.after ne f m (omega arith) (omega arith)
  ];
}

starts_with-nil : (p : Text) → starts_with p [] ≡ true → p ≡ []
unfolding starts_with
starts_with-nil [] h = refl
starts_with-nil (q ∷ qs) h = cc

matches_from-Head :
    (p : Text) (i skip : ℕ) (s : Text) (j : ℕ) (rest : List ℕ)
    → matches_from p i skip s ≡ j ∷ rest
    → (k : ℕ) × Head p i skip s j rest k
unfolding matches_from
matches_from-Head [] i skip [] j rest h = (
  0,
  record {
    at = ground arith;
    inside = omega arith;
    stands = refl;
    before = λ m l u. absurd (omega arith);
    reach = λ ne. absurd (omega arith);
    again = λ ne j' r' f. absurd (omega arith);
    after = λ ne f m l u. absurd (omega arith);
  },
)
matches_from-Head (q ∷ qs) i skip [] j rest h = cc
matches_from-Head p i (suc skip) (c ∷ s) j rest h =
    let (k, hd) = matches_from-Head p (i + 1) skip s j rest h in
    (suc k, Head-suc p i (suc skip) skip c s j rest k (omega arith) (λ e. absurd (omega arith)) hd)
matches_from-Head p i zero (c ∷ s) j rest h = elim (Bool-cases (starts_with p (c ∷ s))) [
  | inl hit ↦ (
    0,
    record {
      at = ground arith;
      inside = omega arith;
      stands = hit;
      before = λ m l u. absurd (omega arith);
      reach = λ ne. omega arith;
      again = λ ne j' r' f.
          let (k, hd) = matches_from-Head p (i + 1) (length p - 1) s j' r' (ground arith) in
          (suc k, omega (arith, hd.reach ne), omega (arith, hd.inside), hd.stands);
      after = λ ne f. elim [
        | zero ↦ λ l u. absurd (omega arith)
        | suc m ↦ λ l u.
            matches_from-none p (i + 1) (length p - 1) s (ground arith) m (omega arith)
              (omega arith)
      ];
    },
  )
  | inr miss ↦
      let (k, hd) = matches_from-Head p (i + 1) 0 s j rest (rw miss at h) in
      (suc k, Head-suc p i 0 0 c s j rest k (omega arith) (λ e. miss) hd)
]

-- The first match that is listed is the leftmost place at which the pattern stands.
pub match_indices-IsFirst :
    (p s : Text) (i : ℕ) (rest : List ℕ) → match_indices p s ≡ i ∷ rest → IsFirst p s i
unfolding match_indices
match_indices-IsFirst p s i rest h =
    let (k, hd) = matches_from-Head p 0 0 s i rest h in
    let e : i ≡ k = omega (arith, hd.at) in
    rw e (record {
      inside = hd.inside;
      stands = hd.stands;
      before = λ m u. hd.before m (omega arith) u;
    })

-- A single match of a pattern that is not empty.
pub match_indices-IsOnly :
    (p s : Text) (i : ℕ) → 0 < length p → match_indices p s ≡ i ∷ [] → IsOnly p s i
match_indices-IsOnly p s i ne h = record {
  first = match_indices-IsFirst p s i [] h;
  after =
      let (k, hd) = matches_from-Head p 0 0 s i [] (unfold match_indices in h) in
      let e : i ≡ k = omega (arith, hd.at) in rw e (hd.after ne refl);
}

true-ne-false : {b : Bool} → b ≡ true → b ≡ false → ⊥
true-ne-false p q = cc

IsFirst-unique : (p s : Text) (i j : ℕ) → IsFirst p s i → IsFirst p s j → i ≡ j
IsFirst-unique p s i j a b = elim (dec_lt i j) [
  | yes l ↦ absurd (true-ne-false a.stands (b.before i l))
  | no n ↦ elim (dec_lt j i) [
    | yes l ↦ absurd (true-ne-false b.stands (a.before j l))
    | no m ↦ omega arith
  ]
]

-- A pattern that stands at one place only is found there, and nowhere else.
pub match_indices-single :
    (p s : Text) (i : ℕ) → 0 < length p → IsOnly p s i → match_indices p s ≡ i ∷ []
match_indices-single p s i ne o = go (match_indices p s) refl
  where
    go : (l : List ℕ) → match_indices p s ≡ l → match_indices p s ≡ i ∷ []
    go [] e = absurd (true-ne-false o.first.stands (match_indices-none p s e i o.first.inside))
    go (j ∷ []) e =
        e
        ∙ ap (λ (x : ℕ). x ∷ []) (IsFirst-unique p s j i (match_indices-IsFirst p s j [] e) o.first)
    go (j ∷ k ∷ r) e =
        let (x, hd) = matches_from-Head p 0 0 s j (k ∷ r) (unfold match_indices in e) in
        let (m, l, u, st) = hd.again ne k r refl in
        let ji : j ≡ i = IsFirst-unique p s j i (match_indices-IsFirst p s j (k ∷ r) e) o.first in
        absurd (true-ne-false st (o.after m (omega (arith, hd.at)) u))

starts_with-drop : (p s : Text) → starts_with p s ≡ true → s ≡ p ++ drop (length p) s
unfolding starts_with
starts_with-drop [] s h = refl
starts_with-drop (q ∷ qs) [] h = cc
starts_with-drop (q ∷ qs) (c ∷ s) h = ground (arith, starts_with-drop qs s)

length-starts_with : (p s : Text) → starts_with p s ≡ true → length p ≤ length s
unfolding starts_with
length-starts_with [] s h = omega arith
length-starts_with (q ∷ qs) [] h = cc
length-starts_with (q ∷ qs) (c ∷ s) h = ground (arith, length-starts_with qs s)

starts_with-append : (p s : Text) → starts_with p (p ++ s) ≡ true
unfolding starts_with
starts_with-append [] s = refl
starts_with-append (q ∷ qs) s = ground (arith, starts_with-append qs s)

drop-nil : (n : ℕ) → drop {A = ℕ} n [] ≡ []
drop-nil zero = refl
drop-nil (suc n) = refl

drop-add : (i n : ℕ) (s : Text) → drop n (drop i s) ≡ drop (i + n) s
drop-add zero n s = ap (λ (k : ℕ). drop k s) {x = n} {y = 0 + n} (omega arith)
drop-add (suc i) n [] = rw (drop-nil n, drop-nil (suc i + n))
drop-add (suc i) n (c ∷ s) =
    drop-add i n s ∙ ap (λ (k : ℕ). drop k (c ∷ s)) {x = suc (i + n)} {y = suc i + n} (omega arith)

-- A text at which the pattern stands is cut in three there.
pub Stands-split :
    (p s : Text) (i : ℕ) → Stands p s i → s ≡ take i s ++ (p ++ drop (i + length p) s)
Stands-split p s i h =
    sym (take-append-drop i s)
    ∙ ap (λ t. take i s ++ t)
        (starts_with-drop p (drop i s) h ∙ ap (λ t. p ++ t) (drop-add i (length p) s))
