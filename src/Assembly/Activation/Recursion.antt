-- ===== src/Assembly/Activation/Recursion.antt =====
-- What the recursion of `activate` of shirita-core/src/assembly.rs takes in: entries whose keys stand in
-- the contents of entries that take part.
use shirita.Prelude.{
  ℕ, zero, suc, ◌≡◌, refl, sym, subst, some, true, false, ◌&&◌, List, [], ◌∷◌, ◌++◌, append_assoc,
  append-nil, any, map, keep, find_by, All, Bool-cases, Option-cases, inl, inr, arith,
}
use mathlib.Core.List.{Memᴰ}
use shirita.Text.{Text, codes, text_eq, text_eq_iff}
use shirita.Tools.{contains}
use shirita.Keyword.{Automaton, Keywords, build, scan}
use shirita.Keyword.Laws.{Lawful, Offers, scan-All}
use shirita.Assembly.Activation.{
  Entry, Draws, Round, take_hit, take_hits, recursive_rounds, recursive_text, is_keyword,
  recursive_keywords, recurse, TriggerMode, constant, keyword, random,
}
use shirita.Assembly.Activation.Reasons.{Due, Told, in_contents, nothing, also}

-- A member of a list that ids are looked up in.
pub contains-All :
    (P : Text → Type 0) (ids : List Text) (id : Text) → All P ids → contains ids id ≡ true → P id
unfolding contains
contains-All P [] id a h = absurd (ground arith)
contains-All P (x ∷ ids) id a h = elim (Bool-cases (text_eq x id)) [
  | inl e ↦ subst P ((text_eq_iff x id).0 e) a.0
  | inr e ↦ contains-All P ids id a.1 (ground arith)
]

find_by-some :
    (id : Text) (es : List Entry) (e : Entry)
    → find_by (λ x. text_eq x.id id) es ≡ some e
    → Memᴰ e es × (e.id ≡ id)
find_by-some id [] e h = absurd (ground arith)
find_by-some id (x ∷ es) e h = elim (Bool-cases (text_eq x.id id)) [
  | inl q ↦
      let same : x ≡ e = ground arith in
      (Memᴰ.head (sym same), subst (λ y. y.id ≡ id) same ((text_eq_iff x.id id).0 q))
  | inr q ↦ let (m, i) = find_by-some id es e (ground arith) in (Memᴰ.tail m, i)
]

pub keyword_mode : (mode : TriggerMode) → is_keyword mode ≡ true → mode ≡ keyword
unfolding is_keyword
keyword_mode keyword h = refl
keyword_mode constant h = absurd (ground arith)
keyword_mode random h = absurd (ground arith)

module _ (ac : Automaton) (laws : Lawful ac) (draws : Draws) (entries : List Entry)
    (recent : List Text) where
  abbrev Takes : Text → Type 0
  Takes id = Due ac draws entries recent id

  abbrev Says : Text → Type 0
  Says body = Told ac draws entries recent body

  -- A round in which only entries that take part are active, and whose text is their contents.
  abbrev Sound : Round → Type 0
  Sound r = All Takes r.active × Says r.scan_text

  Told-append : (s t : Text) → Says s → Says t → Says (s ++ t)
  Told-append s t p nothing = subst Says (sym (append-nil s)) p
  Told-append s t p (also body e q m d) =
      subst Says (append_assoc s body (codes "\n" ++ e.content))
        (also (s ++ body) e (Told-append s body p q) m d)

  recursive_text-Told :
      (active : List Text) (es : List Entry)
      → All (λ e. Memᴰ e entries) es
      → All Takes active
      → Says (recursive_text active es)
  unfolding recursive_text
  recursive_text-Told active [] w a = nothing
  recursive_text-Told active (e ∷ es) w a =
      elim (Bool-cases (e.recursive && contains active e.id)) [
        | inl b ↦ rw b (
            Told-append (codes "\n" ++ e.content) (recursive_text active es)
              (also [] e nothing w.0 (contains-All Takes active e.id a (ground arith)))
              (recursive_text-Told active es w.1 a))
        | inr b ↦ rw b (recursive_text-Told active es w.1 a)
      ]

  recursive_keywords-Offers :
      (body : Text)
      → Says body
      → (es : List Entry) → All (λ e. Memᴰ e entries) es
      → All (Offers ac Takes body) (recursive_keywords es)
  unfolding recursive_keywords
  recursive_keywords-Offers body t [] w = tt
  recursive_keywords-Offers body t (e ∷ es) w = elim (Bool-cases e.recursive) [
    | inl r ↦ elim (Bool-cases (is_keyword e.trigger.mode)) [
      | inl k ↦
          rw (r, k, keep, map)
            (
              λ key there hits.
                  in_contents e key body w.0 (keyword_mode e.trigger.mode k) r there t hits,
              recursive_keywords-Offers body t es w.1,
            )
      | inr k ↦ rw (r, k, keep, map) (recursive_keywords-Offers body t es w.1)
    ]
    | inr r ↦ rw (r, keep, map) (recursive_keywords-Offers body t es w.1)
  ]

  take_hit-Sound : (id : Text) (r : Round) → Takes id → Sound r → Sound (take_hit entries id r)
  unfolding take_hit
  take_hit-Sound id r p s = elim (Bool-cases (contains r.active id)) [
    | inl e ↦ rw e s
    | inr e ↦ elim (Option-cases (find_by (λ x. text_eq x.id id) entries)) [
      | inl f ↦ rw (e, f) ((p, s.0), s.1)
      | inr (x, f) ↦
          let (m, i) = find_by-some id entries x f in
          rw (e, f) ((p, s.0), also r.scan_text x s.1 m (subst Takes (sym i) p))
    ]
  ]

  take_hits-Sound :
      (ids : List Text) (r : Round) → All Takes ids → Sound r → Sound (take_hits entries ids r)
  unfolding take_hits
  take_hits-Sound [] r p s = s
  take_hits-Sound (id ∷ ids) r p s =
      take_hits-Sound ids (take_hit entries id r) p.1 (take_hit-Sound id r p.0 s)

  recursive_rounds-Sound :
      (ks : Keywords) (n : ℕ) (r : Round)
      → ((body : Text) → Says body → All (Offers ac Takes body) ks)
      → Sound r
      → Sound (recursive_rounds ac entries ks n r)
  unfolding recursive_rounds
  recursive_rounds-Sound ks zero r o s = s
  recursive_rounds-Sound ks (suc n) r o s =
      let next =
        take_hits entries (scan ac (build ac ks) r.scan_text) (record r { grew = false }) in
      let there =
        take_hits-Sound (scan ac (build ac ks) r.scan_text) (record r { grew = false })
          (scan-All ac Takes r.scan_text laws ks (o r.scan_text s.1)) s in
      elim (Bool-cases next.grew) [
        | inl e ↦ rw (e, recursive_rounds) (recursive_rounds-Sound ks n next o there)
        | inr e ↦ rw (e, recursive_rounds) there
      ]

  pub recurse-Due :
      (active : List Text)
      → All (λ e. Memᴰ e entries) entries
      → All (λ id. Due ac draws entries recent id) active
      → All (λ id. Due ac draws entries recent id) (recurse ac entries active)
  unfolding recurse
  recurse-Due active w a = elim (Bool-cases (any (λ e. e.recursive) entries)) [
    | inl e ↦
        rw e
          (recursive_rounds-Sound (recursive_keywords entries) 3 _
            (λ body t. recursive_keywords-Offers body t entries w)
            (a, recursive_text-Told active entries w a)).0
    | inr e ↦ rw e a
  ]
