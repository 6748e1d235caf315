-- ===== src/Assembly/Activation/Due.antt =====
-- The entries that `activate` of shirita-core/src/assembly.rs makes take part.
use shirita.Prelude.{
  ◌+◌, ◌≡◌, refl, sym, ◌∙◌, subst, true, List, [], ◌∷◌, ◌++◌, append_assoc, max, All, Bool-cases,
  inl, inr, arith,
}
use mathlib.Core.List.{Memᴰ}
use shirita.Text.{Text}
use shirita.Keyword.{Automaton}
use shirita.Keyword.Laws.{Lawful, Offers}
use shirita.Assembly.Activation.{
  TriggerMode, constant, keyword, random, Entry, Draws, first_choice, draws_one, first_pass,
  is_keyword, Groups, keywords_of, group_entry, by_depth, activate, window,
}
use shirita.Assembly.Activation.Reasons.{Due, steady, drawn, in_messages, one_if_random, randoms}
use shirita.Assembly.Activation.Offers.{
  insert_active-All, OfferGroups, push_group-Offers, scan_groups-All, window-Latest,
}
use shirita.Assembly.Activation.Recursion.{keyword_mode, recurse-Due}

draws_one-random : (mode : TriggerMode) → draws_one mode ≡ one_if_random mode
unfolding draws_one
draws_one-random constant = refl
draws_one-random keyword = refl
draws_one-random random = refl

randoms-snoc :
    (es : List Entry) (e : Entry) → randoms (es ++ e ∷ []) ≡ randoms es + draws_one e.trigger.mode
randoms-snoc [] e = omega (arith, draws_one-random e.trigger.mode)
randoms-snoc (x ∷ es) e = omega (arith, randoms-snoc es e)

module _ (ac : Automaton) (draws : Draws) (entries : List Entry) (recent : List Text) where
  abbrev Takes : Text → Type 0
  Takes id = Due ac draws entries recent id

  -- A part of the entries.
  abbrev Within : List Entry → Type 0
  Within es = All (λ e. Memᴰ e entries) es

  first_choice-Due :
      (before after : List Entry) (e : Entry) (active : List Text)
      → entries ≡ before ++ e ∷ after
      → Memᴰ e entries
      → All Takes active
      → All Takes (first_choice draws e.trigger.mode (randoms before) e active)
  unfolding first_choice
  first_choice-Due before after e active s m a = go e.trigger.mode refl
    where
      go :
          (mode : TriggerMode)
          → e.trigger.mode ≡ mode
          → All Takes (first_choice draws mode (randoms before) e active)
      go constant q = insert_active-All ac Takes e.id active (steady e m q) a
      go keyword q = a
      go random q = elim (Bool-cases (draws (randoms before) e.trigger.probability)) [
        | inl d ↦ rw d (insert_active-All ac Takes e.id active (drawn e before after s q d) a)
        | inr d ↦ rw d a
      ]

  first_pass-Due :
      (before es : List Entry) (active : List Text)
      → entries ≡ before ++ es
      → Within es
      → All Takes active
      → All Takes (first_pass draws (randoms before) es active)
  unfolding first_pass
  first_pass-Due before [] active s w a = a
  first_pass-Due before (e ∷ es) active s w a =
      subst
        (λ n.
          All Takes
            (first_pass draws n es (first_choice draws e.trigger.mode (randoms before) e active)))
        (randoms-snoc before e)
        (first_pass-Due (before ++ e ∷ []) es _ (s ∙ sym (append_assoc before (e ∷ []) es)) w.1
          (first_choice-Due before es e active s w.0 a))

  keywords_of-Offers :
      (e : Entry)
      → Memᴰ e entries
      → is_keyword e.trigger.mode ≡ true
      → Offers ac Takes (window (max e.scan_depth 1) recent) (keywords_of e)
  unfolding window
  keywords_of-Offers e m k = λ key there hits.
      in_messages e key _ m (keyword_mode e.trigger.mode k) there
        (window-Latest (max e.scan_depth 1) recent) hits

  by_depth-Offers :
      (es : List Entry) (groups : Groups)
      → Within es
      → OfferGroups ac Takes recent groups
      → OfferGroups ac Takes recent (by_depth es groups)
  unfolding by_depth group_entry
  by_depth-Offers [] groups w o = o
  by_depth-Offers (e ∷ es) groups w o =
      by_depth-Offers es (group_entry e groups) w.1 (elim (Bool-cases (is_keyword e.trigger.mode)) [
        | inl k ↦ rw k (
            push_group-Offers ac Takes recent _ (keywords_of e) groups (keywords_of-Offers e w.0 k)
              o)
        | inr k ↦ rw k o
      ])

  activate-Takes : Lawful ac → Within entries → All Takes (activate ac draws entries recent)
  unfolding activate
  activate-Takes laws w = recurse-Due ac laws draws entries recent _ w (
      scan_groups-All ac Takes laws recent (by_depth entries []) (first_pass draws 0 entries [])
        (by_depth-Offers entries [] w tt) (first_pass-Due [] entries [] refl w tt))

All-tail :
    (e : Entry) (all es : List Entry) → All (λ x. Memᴰ x all) es → All (λ x. Memᴰ x (e ∷ all)) es
All-tail e all [] w = tt
All-tail e all (x ∷ es) w = (Memᴰ.tail w.0, All-tail e all es w.1)

All-Within : (es : List Entry) → All (λ x. Memᴰ x es) es
All-Within [] = tt
All-Within (e ∷ es) = (Memᴰ.head refl, All-tail e es es (All-Within es))

-- If the automaton reports only patterns that stand in the text, and a set yields only its ids, then
-- every id that becomes active is that of an entry with a reason for it: it is constant; or it is
-- random and its own draw, whose number is that of the random entries before it, came out below its
-- probability; or it is one of keywords, and a key of it that is not blank stands, up to case and
-- white space at its ends, in as many of the latest messages as its depth says, one at least, or, if
-- the entry is recursive, in the contents of entries that take part for such a reason themselves.
pub activate-Due :
    (ac : Automaton) (draws : Draws) (entries : List Entry) (recent : List Text)
    → Lawful ac
    → All (λ id. Due ac draws entries recent id) (activate ac draws entries recent)
activate-Due ac draws entries recent laws =
    activate-Takes ac draws entries recent laws (All-Within entries)
