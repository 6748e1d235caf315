-- ===== src/XmlTools/Round.antt =====
-- The parser of a round of tool calls comes to an end, and its calls have different ids.
use shirita.Prelude.{
  ℕ, zero, suc, ◌+◌, ◌≤◌, ◌<◌, ◌≡◌, ◌≢◌, refl, ap, inl, inr, some, Bool, false, List, [], ◌∷◌, ◌++◌,
  arith, length, take, drop, any, length-append, Bool-cases, Option-cases, List-cases, ltb,
}
use shirita.Text.{Text, codes, text_eq, text_eq_iff, find, match_indices, byte_len, trim}
use shirita.Text.Search.{match_indices-IsFirst, Stands-split}
use shirita.Json.{Serde}
use shirita.Tools.{ToolCall}
use shirita.XmlTools.{
  XmlResult, XmlStep, parsed, failed, out_of_fuel, stop, no_more, one, xml_body, xml_call, xml_step,
  xml_finish, xml_loop, parse_xml_tool_round, open_tag, close_tag, max_xml_round_bytes, attr,
}

-- No two calls have one id.
abbrev pub Distinct : List ToolCall → Type 0
Distinct [] = Unit
Distinct (c ∷ cs) = (any (λ d. text_eq d.id c.id) cs ≡ false) × Distinct cs

any-append_one :
    (p : ToolCall → Bool) (cs : List ToolCall) (d : ToolCall)
    → any p cs ≡ false
    → p d ≡ false
    → any p (cs ++ d ∷ []) ≡ false
any-append_one p [] d a b = ground arith
any-append_one p (c ∷ cs) d a b = let r = any-append_one p cs d (ground arith) b in ground arith

Distinct-append_one :
    (cs : List ToolCall) (d : ToolCall)
    → Distinct cs
    → any (λ c. text_eq c.id d.id) cs ≡ false
    → Distinct (cs ++ d ∷ [])
Distinct-append_one [] d k n = (refl, tt)
Distinct-append_one (c ∷ cs) d k n = (
  any-append_one (λ e. text_eq e.id c.id) cs d k.0
      (ground (arith, text_eq_iff c.id d.id, text_eq_iff d.id c.id)),
  Distinct-append_one cs d k.1 (ground arith),
)

-- What is behind a text that was found is shorter by that text.
length-behind :
    (p s : Text) (n : ℕ) → find p s ≡ some n → length (drop (n + length p) s) + length p ≤ length s
unfolding find
length-behind p s n h = elim (List-cases (match_indices p s)) [
  | inl e ↦ absurd (ground arith)
  | inr (i, rest, e) ↦
      let f : i ≡ n = ground arith in
      let split = Stands-split p s i (match_indices-IsFirst p s i rest e).stands in
      omega (
        arith,
        f,
        ap length split,
        length-append (take i s) (p ++ drop (i + length p) s),
        length-append p (drop (i + length p) s),
        ap (λ (k : ℕ). length (drop (k + length p) s)) f,
      )
]

length-drop_le : (n : ℕ) (s : Text) → length (drop n s) ≤ length s
length-drop_le zero s = omega arith
length-drop_le (suc n) [] = omega arith
length-drop_le (suc n) (c ∷ s) = omega (arith, length-drop_le n s)

-- A step that takes a call leaves less text, and the call has a new id.
Takes : List ToolCall → Text → XmlStep → Type 0
Takes calls rest (stop e) = e ≢ out_of_fuel
Takes calls rest no_more = Unit
Takes calls rest (one call before rest') =
    (any (λ c. text_eq c.id call.id) calls ≡ false) × (length rest' < length rest)

xml_body-Takes :
    (serde : Serde) (calls : List ToolCall) (before body rest : Text) (n : ℕ) (name id : Text)
    → find close_tag body ≡ some n
    → length body ≤ length rest
    → Takes calls rest (xml_body serde calls before body n name id)
unfolding Takes xml_body
xml_body-Takes serde calls before body rest n name id f l =
    elim (Bool-cases (any (λ c. text_eq c.id id) calls)) [
      | inl e ↦ rw (e, Takes) (λ q. ground arith)
      | inr e ↦
          rw (e, Takes)
            (elim (Option-cases (serde.from_str (trim (take n body)))) [
              | inl g ↦ rw (g, Takes) (λ q. ground arith)
              | inr (arguments, g) ↦
                  let b = length-behind close_tag body n f in rw (g, Takes) (e, omega (arith, b, l))
            ])
    ]

xml_call-Takes :
    (serde : Serde) (calls : List ToolCall) (before attrs body rest : Text)
    → length body ≤ length rest
    → Takes calls rest (xml_call serde calls before attrs body)
unfolding Takes xml_call
xml_call-Takes serde calls before attrs body rest l = elim (Option-cases (find close_tag body)) [
  | inl e ↦ rw (e, Takes) (λ q. ground arith)
  | inr (n, e) ↦
      rw (e, Takes)
        (elim (Option-cases (attr attrs (codes "name"))) [
          | inl f ↦ rw (f, Takes) (λ q. ground arith)
          | inr (name, f) ↦ rw (f, Takes) (xml_body-Takes serde calls before body rest n name _ e l)
        ])
]

xml_step-Takes :
    (serde : Serde) (calls : List ToolCall) (rest : Text)
    → Takes calls rest (xml_step serde calls rest)
unfolding Takes xml_step
xml_step-Takes serde calls rest = elim (Option-cases (find open_tag rest)) [
  | inl e ↦ rw (e, Takes) tt
  | inr (start, e) ↦
      rw (e, Takes)
        (elim (Option-cases (find (codes ">") (drop start rest))) [
          | inl f ↦ rw (f, Takes) (λ q. ground arith)
          | inr (open_end, f) ↦
              let a = length-drop_le start rest in
              let b = length-drop_le (open_end + 1) (drop start rest) in
              rw (f, Takes) (xml_call-Takes serde calls _ _ _ rest (omega (arith, a, b)))
        ])
]

-- A result that did not run out of fuel, whose calls have different ids.
pub Sound : XmlResult → Type 0
Sound (parsed round) = Distinct round.calls
Sound (failed e) = e ≢ out_of_fuel

xml_finish-Sound :
    (calls : List ToolCall) (working rest : Text)
    → Distinct calls
    → Sound (xml_finish calls working rest)
unfolding Sound xml_finish
xml_finish-Sound calls working rest k = elim (Option-cases (find open_tag rest)) [
  | inr (n, e) ↦ rw (e, Sound) (λ q. ground arith)
  | inl e ↦
      rw (e, Sound)
        (elim (Option-cases (find close_tag rest)) [
          | inr (n, f) ↦ rw (f, Sound) (λ q. ground arith)
          | inl f ↦ rw (f, Sound) k
        ])
]

xml_loop-Sound :
    (serde : Serde) (fuel : ℕ) (calls : List ToolCall) (working rest : Text)
    → length rest < fuel
    → Distinct calls
    → Sound (xml_loop serde fuel calls working rest)
unfolding xml_loop Takes Sound
xml_loop-Sound serde zero calls working rest l k = absurd (omega (arith, l))
xml_loop-Sound serde (suc fuel) calls working rest l k =
    go (xml_step serde calls rest) (xml_step-Takes serde calls rest)
      (λ cs w r m d. xml_loop-Sound serde fuel cs w r m d)
  where
    go :
        (s : XmlStep)
        → Takes calls rest s
        → ((cs : List ToolCall) (w r : Text)
            → length r < fuel
            → Distinct cs
            → Sound (xml_loop serde fuel cs w r))
        → Sound (elim s as (λ _. XmlResult) [
          | stop e ↦ failed e
          | no_more ↦ xml_finish calls working rest
          | one call before rest' ↦
              xml_loop serde fuel (calls ++ call ∷ []) (working ++ before) rest'
        ])
    go (stop e) t again = t
    go no_more t again = xml_finish-Sound calls working rest k
    go (one call before rest') t again =
        again (calls ++ call ∷ []) (working ++ before) rest' (omega (arith, l, t.1))
          (Distinct-append_one calls call k t.0)

-- The parser gives a result for every text, since its fuel is never used up, and the calls of a round
-- that it reads have different ids.
pub parse_xml_tool_round-Sound : (serde : Serde) (s : Text) → Sound (parse_xml_tool_round serde s)
unfolding parse_xml_tool_round
parse_xml_tool_round-Sound serde s = elim (Bool-cases (ltb max_xml_round_bytes (byte_len s))) [
  | inl e ↦ rw e (unfold Sound in λ q. ground arith)
  | inr e ↦ rw e (xml_loop-Sound serde (suc (length s)) [] [] s (omega arith) tt)
]
