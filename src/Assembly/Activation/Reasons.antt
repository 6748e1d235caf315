-- ===== src/Assembly/Activation/Reasons.antt =====
-- Why an entry of shirita-core/src/assembly.rs takes part in a request.
use shirita.Prelude.{ℕ, ◌+◌, ◌≡◌, true, List, [], ◌∷◌, ◌++◌, length, min, max}
use mathlib.Core.List.{Memᴰ}
use shirita.Text.{Text, codes, join}
use shirita.Keyword.{Automaton}
use shirita.Keyword.Laws.{Hits}
use shirita.Assembly.Activation.{TriggerMode, constant, keyword, random, Entry, Draws}

-- How many entries of a list draw a number.
abbrev pub one_if_random : TriggerMode → ℕ
one_if_random random = 1
one_if_random constant = 0
one_if_random keyword = 0

abbrev pub randoms : List Entry → ℕ
randoms [] = 0
randoms (e ∷ es) = one_if_random e.trigger.mode + randoms es

-- The last messages of a chat, as many as asked for if there are so many.
abbrev pub Latest : ℕ → List Text → List Text → Type 0
Latest n recent latest =
    (older : List Text) × (recent ≡ older ++ latest) × (length latest ≡ min n (length recent))

mutual
  -- The entry is constant; or its own draw came out below its probability; or one of its keys stands
  -- in as many of the latest messages as it scans, one at least; or the entry is recursive and one of
  -- its keys stands in the contents of entries that take part.
  pub data Due (ac : Automaton) (draws : Draws) (entries : List Entry) (recent : List Text)
      : Text → Type 0 where
    steady :
        (e : Entry) → Memᴰ e entries → e.trigger.mode ≡ constant → Due ac draws entries recent e.id
    drawn :
        (e : Entry) (before after : List Entry)
        → entries ≡ before ++ e ∷ after
        → e.trigger.mode ≡ random
        → draws (randoms before) e.trigger.probability ≡ true
        → Due ac draws entries recent e.id
    in_messages :
        (e : Entry) (key : Text) (latest : List Text)
        → Memᴰ e entries
        → e.trigger.mode ≡ keyword
        → Memᴰ key e.trigger.keys
        → Latest (max e.scan_depth 1) recent latest
        → Hits ac (join (codes "\n") latest) key
        → Due ac draws entries recent e.id
    in_contents :
        (e : Entry) (key body : Text)
        → Memᴰ e entries
        → e.trigger.mode ≡ keyword
        → e.recursive ≡ true
        → Memᴰ key e.trigger.keys
        → Told ac draws entries recent body
        → Hits ac body key
        → Due ac draws entries recent e.id

  -- The contents of entries that take part, each behind a line feed.
  pub data Told (ac : Automaton) (draws : Draws) (entries : List Entry) (recent : List Text)
      : Text → Type 0 where
    nothing : Told ac draws entries recent []
    also :
        (body : Text) (e : Entry)
        → Told ac draws entries recent body
        → Memᴰ e entries
        → Due ac draws entries recent e.id
        → Told ac draws entries recent (body ++ (codes "\n" ++ e.content))
