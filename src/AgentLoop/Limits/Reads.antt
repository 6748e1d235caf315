-- ===== src/AgentLoop/Limits/Reads.antt =====
-- How many calls a round can be read to hold: no more than its stream has items, or its text
-- characters.
use shirita.Prelude.{
  ℕ, zero, suc, ◌+◌, ◌≤◌, ◌<◌, ◌≡◌, refl, inl, inr, List, [], ◌∷◌, ◌++◌, arith, Bool-cases,
  Option-cases, ltb, length, length-append, ◌^◌, subst,
}
use shirita.Text.{Text, byte_len, find}
use shirita.Json.{Serde}
use shirita.Tools.{ToolCall, ToolCallTransport, native, xml}
use shirita.XmlTools.{
  XmlResult, XmlStep, parsed, failed, stop, no_more, one, xml_step, xml_finish, xml_loop,
  parse_xml_tool_round, max_xml_round_bytes, open_tag, close_tag, unterminated_tool_call,
}
use shirita.Model.{text_delta, reasoning_delta, tool_call, end_of_turn, ModelEvent}
use shirita.Agent.{GenerationRun}
use shirita.AgentLoop.{StreamItem, cancelled, item, error, Traced}
use shirita.AgentLoop.Calls.{emit}
use shirita.AgentLoop.Rounds.{
  Drained, broken_off, drained, drain, Read, unreadable, readable, read_round, read_xml, takes_text,
}
use shirita.AgentLoop.Limits.{starts}

-- At most `n` calls have been read.
abbrev pub Holds : ℕ → Drained → Type 0
Holds n broken_off = Unit
Holds n (drained working calls) = length calls ≤ n

DrainHolds : ℕ → Traced Drained → Type 0
DrainHolds n t = (starts t.0 ≡ 0) × Holds n t.1

Holds-more : (n m : ℕ) (d : Drained) → n ≤ m → Holds n d → Holds m d
Holds-more n m broken_off l q = tt
Holds-more n m (drained working calls) l q = omega (arith, l, q)

DrainHolds-more : (n m : ℕ) (t : Traced Drained) → n ≤ m → DrainHolds n t → DrainHolds m t
unfolding DrainHolds
DrainHolds-more n m (es, d) l q = (q.0, Holds-more n m d l q.1)

usage-Holds :
    (a b n : ℕ) (t : Traced Drained)
    → DrainHolds n t
    → DrainHolds n (emit (shirita.AgentLoop.usage a b) t)
unfolding DrainHolds
usage-Holds a b n (es, d) q = q

drain-Holds :
    (transport : ToolCallTransport) (run : GenerationRun) (working : Text) (calls : List ToolCall)
    (parts : List StreamItem)
    → DrainHolds (length calls + length parts) (drain transport run working calls parts)
unfolding drain
drain-Holds transport run working calls [] = unfold DrainHolds in (refl, omega arith)
drain-Holds transport run working calls (cancelled ∷ rest) = unfold DrainHolds in (refl, tt)
drain-Holds transport run working calls (error e ∷ rest) = unfold DrainHolds in (refl, tt)
drain-Holds transport run working calls (item (text_delta t) ∷ rest) =
    elim (Bool-cases (takes_text transport working t)) [
      | inl e ↦ rw e (
          DrainHolds-more _ _ _ (omega arith) (drain-Holds transport run (working ++ t) calls rest))
      | inr e ↦ rw e (unfold DrainHolds in (refl, tt))
    ]
drain-Holds transport run working calls (item (reasoning_delta t) ∷ rest) =
    elim (Bool-cases (takes_text transport working t)) [
      | inl e ↦ rw e (
          DrainHolds-more _ _ _ (omega arith) (drain-Holds transport run (working ++ t) calls rest))
      | inr e ↦ rw e (unfold DrainHolds in (refl, tt))
    ]
drain-Holds transport run working calls (item (tool_call call) ∷ rest) =
    DrainHolds-more (length (calls ++ call ∷ []) + length rest) _ _
      (omega (arith, length-append calls (call ∷ [])))
      (drain-Holds transport run working (calls ++ call ∷ []) rest)
drain-Holds transport run working calls (item (ModelEvent.usage a b) ∷ rest) =
    DrainHolds-more (length calls + length rest) _ _ (omega arith)
      (usage-Holds a b _ _ (drain-Holds transport run working calls rest))
drain-Holds transport run working calls (item (end_of_turn reason) ∷ rest) =
    DrainHolds-more _ _ _ (omega arith) (drain-Holds transport run working calls rest)

-- A stream of items starts no call, and holds at most one call for each item.
pub drain-calls :
    (transport : ToolCallTransport) (run : GenerationRun) (parts : List StreamItem)
    → (starts (drain transport run [] [] parts).0 ≡ 0)
      × Holds (length parts) (drain transport run [] [] parts).1
unfolding DrainHolds
drain-calls transport run parts =
    let d = drain-Holds transport run [] [] parts in
    (d.0, Holds-more _ (length parts) (drain transport run [] [] parts).1 (omega arith) d.1)

abbrev CallsAtMost : ℕ → XmlResult → Type 0
CallsAtMost n (parsed round) = length round.calls ≤ n
CallsAtMost n (failed e) = Unit

Most : ℕ → XmlResult → Type 0
Most n r = CallsAtMost n r

xml_finish-Most :
    (n : ℕ) (calls : List ToolCall) (working rest : Text)
    → length calls ≤ n
    → Most n (xml_finish calls working rest)
unfolding Most xml_finish
xml_finish-Most n calls working rest l = elim (Option-cases (find open_tag rest)) [
  | inr (k, e) ↦ rw (e, CallsAtMost) tt
  | inl e ↦
      rw (e, CallsAtMost)
        (elim (Option-cases (find close_tag rest)) [
          | inr (k, f) ↦ rw (f, CallsAtMost) tt
          | inl f ↦ rw (f, CallsAtMost) l
        ])
]

xml_loop-Most :
    (serde : Serde) (fuel : ℕ) (calls : List ToolCall) (working rest : Text)
    → Most (length calls + fuel) (xml_loop serde fuel calls working rest)
unfolding xml_loop
xml_loop-Most serde zero calls working rest = unfold Most in tt
xml_loop-Most serde (suc fuel) calls working rest =
    go (xml_step serde calls rest) (λ cs w r. xml_loop-Most serde fuel cs w r)
  where
    go :
        (s : XmlStep)
        → ((cs : List ToolCall) (w r : Text) → Most (length cs + fuel) (xml_loop serde fuel cs w r))
        → Most (length calls + suc fuel) (elim s as (λ _. XmlResult) [
          | stop e ↦ failed e
          | no_more ↦ xml_finish calls working rest
          | one call before rest' ↦
              xml_loop serde fuel (calls ++ call ∷ []) (working ++ before) rest'
        ])
    go (stop e) f = unfold Most in tt
    go no_more f = xml_finish-Most _ calls working rest (omega arith)
    go (one call before rest') f =
        let n : length (calls ++ call ∷ []) + fuel ≡ length calls + suc fuel =
          omega (arith, length-append calls (call ∷ [])) in
        subst (λ m. Most m (xml_loop serde fuel (calls ++ call ∷ []) (working ++ before) rest')) n
          (f (calls ++ call ∷ []) (working ++ before) rest')

length-byte_len : (s : Text) → length s ≤ byte_len s
unfolding byte_len
length-byte_len [] = omega arith
length-byte_len (c ∷ s) = ground (arith, length-byte_len s)

-- Fewer calls than a counter of 32 bits counts.
abbrev pub FewRead : Read → Type 0
FewRead (unreadable e) = Unit
FewRead (readable working calls) = length calls < 2 ^ 32

FewXml :
    (working : Text) (r : XmlResult)
    → Most (max_xml_round_bytes + 1) r
    → FewRead (read_xml working r)
unfolding Most
FewXml working (parsed round) q = omega (arith, q)
FewXml working (failed unterminated_tool_call) q = omega arith
FewXml working (failed e) q = tt

Most-more : (n m : ℕ) (r : XmlResult) → n ≤ m → Most n r → Most m r
unfolding Most
Most-more n m (parsed round) l q = omega (arith, l, q)
Most-more n m (failed e) l q = tt

parse_xml_tool_round-Most :
    (serde : Serde) (s : Text) → Most (max_xml_round_bytes + 1) (parse_xml_tool_round serde s)
unfolding parse_xml_tool_round
parse_xml_tool_round-Most serde s = elim (Bool-cases (ltb max_xml_round_bytes (byte_len s))) [
  | inl e ↦ rw e (unfold Most in tt)
  | inr e ↦
      let b = length-byte_len s in
      let c : byte_len s ≤ max_xml_round_bytes = ground arith in
      rw e (
        Most-more (0 + suc (length s)) _ _ (omega (arith, b, c))
          (xml_loop-Most serde (suc (length s)) [] [] s))
]

-- What is read of a round holds few calls, if its stream does.
pub read_round-FewRead :
    (serde : Serde) (transport : ToolCallTransport) (working : Text) (calls : List ToolCall)
    → length calls < 2 ^ 32
    → FewRead (read_round serde transport working calls)
read_round-FewRead serde native working calls l = l
read_round-FewRead serde xml working calls l =
    FewXml working (parse_xml_tool_round serde working) (parse_xml_tool_round-Most serde working)
