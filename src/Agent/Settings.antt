-- ===== src/Agent/Settings.antt =====
-- Settings that went through `sanitized` pass `validate`.
use shirita.Prelude.{
  ℕ, ◌≤◌, ◌≡◌, refl, inl, inr, none, true, false, List, [], ◌∷◌, arith, keep, keep-true, keep-false,
  is_empty, ltb, Bool-cases,
}
use shirita.Text.{Text, text_eq, byte_len, trim}
use shirita.Tools.{contains, text_le}
use shirita.Agent.{
  AgentSettings, clamp, onto, default_system_prompt, default_unfinished_prompt, hard_max_rounds,
  hard_max_tool_calls, hard_max_tool_timeout_ms, max_agent_prompt_bytes, insert_text, sort_texts,
  dedup, prompt_ok, or_default, sanitized, validate, first_unknown,
}

abbrev Known : List Text → List Text → Type 0
Known registered [] = Unit
Known registered (n ∷ ns) = (contains registered n ≡ true) × Known registered ns

module _ (registered : List Text) where
  Known-keep : (ns : List Text) → Known registered (keep (λ n. contains registered n) ns)
  Known-keep [] = tt
  Known-keep (n ∷ ns) = elim (Bool-cases (contains registered n)) [
    | inl h ↦ rw (keep-true (contains registered) n ns h) (h, Known-keep ns)
    | inr h ↦ rw (keep-false (contains registered) n ns h) (Known-keep ns)
  ]

  Known-insert_text :
      (x : Text) (ns : List Text)
      → contains registered x ≡ true
      → Known registered ns
      → Known registered (insert_text x ns)
  unfolding insert_text
  Known-insert_text x [] h k = (h, tt)
  Known-insert_text x (y ∷ ys) h k = elim (Bool-cases (text_le x y)) [
    | inl l ↦ rw l (h, k)
    | inr l ↦ rw l (k.0, Known-insert_text x ys h k.1)
  ]

  Known-sort_texts : (ns : List Text) → Known registered ns → Known registered (sort_texts ns)
  unfolding sort_texts
  Known-sort_texts [] k = tt
  Known-sort_texts (x ∷ xs) k = Known-insert_text x (sort_texts xs) k.0 (Known-sort_texts xs k.1)

  Known-onto :
      (x : Text) (ns : List Text)
      → contains registered x ≡ true
      → Known registered ns
      → Known registered (onto x ns)
  Known-onto x [] h k = (h, tt)
  Known-onto x (y ∷ ys) h k = elim (Bool-cases (text_eq x y)) [
    | inl e ↦ rw e k
    | inr e ↦ rw e (h, k)
  ]

  Known-dedup : (ns : List Text) → Known registered ns → Known registered (dedup ns)
  unfolding dedup
  Known-dedup [] k = tt
  Known-dedup (x ∷ xs) k = Known-onto x (dedup xs) k.0 (Known-dedup xs k.1)

  Known-first_unknown : (ns : List Text) → Known registered ns → first_unknown registered ns ≡ none
  unfolding first_unknown
  Known-first_unknown [] k = refl
  Known-first_unknown (n ∷ ns) k = ground (arith, Known-first_unknown ns k.1)

default_prompts_ok :
    (prompt_ok default_system_prompt ≡ true) × (prompt_ok default_unfinished_prompt ≡ true)
unfolding prompt_ok default_system_prompt default_unfinished_prompt trim byte_len
default_prompts_ok = (refl, refl)

or_default_ok : (s d : Text) → prompt_ok d ≡ true → prompt_ok (or_default s d) ≡ true
or_default_ok s d h = elim (Bool-cases (prompt_ok s)) [ inl e ↦ rw e e | inr e ↦ rw e h ]

prompt_tests :
    (s : Text)
    → prompt_ok s ≡ true
    → (is_empty (trim s) ≡ false) × (ltb max_agent_prompt_bytes (byte_len s) ≡ false)
unfolding prompt_ok
prompt_tests s h = ground arith

record InRange (lo hi n : ℕ) : Type 0 where
  above : lo ≤ n
  below : n ≤ hi

clamp-InRange : (lo hi n : ℕ) → lo ≤ hi → InRange lo hi (clamp lo hi n)
unfolding clamp
clamp-InRange lo hi n h = ground arith

validate-none :
    (t : AgentSettings) (registered : List Text)
    → InRange 1 hard_max_rounds t.max_rounds
    → InRange 1 hard_max_tool_calls t.max_tool_calls
    → InRange 1 hard_max_tool_timeout_ms t.tool_timeout_ms
    → InRange 1 t.max_rounds t.max_identical_call_rounds
    → prompt_ok t.system_prompt ≡ true
    → prompt_ok t.unfinished_prompt ≡ true
    → first_unknown registered t.enabled_tools ≡ none
    → validate t registered ≡ none
unfolding validate
validate-none t registered rounds calls time identical system unfinished known =
    ground (arith, prompt_tests t.system_prompt system, prompt_tests t.unfinished_prompt unfinished)

-- Whatever the settings were, once sanitized against the registered tools they pass validation
-- against the same tools.
pub validate-sanitized :
    (s : AgentSettings) (registered : List Text)
    → validate (sanitized s registered) registered ≡ none
unfolding sanitized
validate-sanitized s registered =
    let rounds = clamp-InRange 1 hard_max_rounds s.max_rounds (omega arith) in
    validate-none (sanitized s registered) registered rounds
      (clamp-InRange 1 hard_max_tool_calls s.max_tool_calls (omega arith))
      (clamp-InRange 1 hard_max_tool_timeout_ms s.tool_timeout_ms (omega arith))
      (clamp-InRange 1 _ s.max_identical_call_rounds rounds.above)
      (or_default_ok s.system_prompt _ default_prompts_ok.0)
      (or_default_ok s.unfinished_prompt _ default_prompts_ok.1)
      (Known-first_unknown registered _ (
        Known-dedup registered _
          (Known-sort_texts registered _ (Known-keep registered s.enabled_tools))))
