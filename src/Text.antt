-- ===== src/Text.antt =====
-- Rust strings as the code walks them: a text is its list of Unicode scalar values.
-- `str::len` counts bytes of UTF-8, so it is `byte_len`; the searches of `str` return byte offsets
-- that are only used to cut the same text again, so offsets are counted in scalar values here.
pub mod Lines
pub mod Search
use Prim.Native.Char.{code}
use shirita.Prelude.{
  ℕ, zero, suc, ◌+◌, ◌-◌, ◌/◌, ◌%◌, ◌≡◌, refl, ◌↔◌, Bool, true, false, ◌&&◌, ◌||◌, List, [], ◌∷◌,
  ◌++◌, String, Option, none, some, arith, ltb, leb, ◌==◌, if◌then◌else◌, length, take, drop,
}

abbrev pub Text : Type 0
Text = List ℕ

-- The text of a string literal.
abbrev pub codes : String → Text
codes String.[] = []
codes (String.◌∷◌ c s) = code c ∷ codes s

unfoldable pub text_eq : Text → Text → Bool
text_eq [] [] = true
text_eq (a ∷ s) (b ∷ t) = a == b && text_eq s t
text_eq _ _ = false

-- The bytes that UTF-8 takes for a scalar value.
abbrev pub utf8_len : ℕ → ℕ
utf8_len c = if ltb c 0x80 then 1 else if ltb c 0x800 then 2 else if ltb c 0x10000 then 3 else 4

-- `str::len`
unfoldable pub byte_len : Text → ℕ
byte_len [] = 0
byte_len (c ∷ s) = utf8_len c + byte_len s

-- `char::is_whitespace`: the Unicode property White_Space.
abbrev pub is_whitespace : ℕ → Bool
is_whitespace c =
    (leb 9 c && leb c 13)
    || c == 0x20
    || c == 0x85
    || c == 0xa0
    || c == 0x1680
    || (leb 0x2000 c && leb c 0x200a)
    || c == 0x2028
    || c == 0x2029
    || c == 0x202f
    || c == 0x205f
    || c == 0x3000

unfoldable pub trim_start : Text → Text
trim_start [] = []
trim_start (c ∷ s) = elim (is_whitespace c) [ true ↦ trim_start s | false ↦ c ∷ s ]

-- A text of white space only becomes empty; otherwise only the end is cut.
unfoldable pub trim_end : Text → Text
trim_end [] = []
trim_end (c ∷ s) =
    let rest = trim_end s in
    elim rest [ [] ↦ if is_whitespace c then [] else c ∷ [] | d ∷ r ↦ c ∷ d ∷ r ]

unfoldable pub trim : Text → Text
unfolding trim_start trim_end
trim s = trim_start (trim_end s)

-- `str::starts_with`, the pattern first.
unfoldable pub starts_with : Text → Text → Bool
starts_with [] s = true
starts_with (p ∷ ps) [] = false
starts_with (p ∷ ps) (c ∷ s) = p == c && starts_with ps s

-- `char::to_ascii_lowercase` over a text.
abbrev pub ascii_lower : ℕ → ℕ
ascii_lower c = if leb b'A' c && leb c b'Z' then c + 32 else c

unfoldable pub to_ascii_lowercase : Text → Text
to_ascii_lowercase [] = []
to_ascii_lowercase (c ∷ s) = ascii_lower c ∷ to_ascii_lowercase s

-- `str::match_indices`: the offsets of the matches that do not overlap, from the left. `skip` counts
-- the rest of the match that was last found. An empty pattern matches at every offset.
unfoldable pub matches_from : Text → ℕ → ℕ → Text → List ℕ
unfolding starts_with
matches_from p i skip [] = elim p [ [] ↦ i ∷ [] | q ∷ qs ↦ [] ]
matches_from p i (suc skip) (c ∷ s) = matches_from p (i + 1) skip s
matches_from p i zero (c ∷ s) =
    let hit = starts_with p (c ∷ s) in
    let rest = matches_from p (i + 1) (if hit then length p - 1 else 0) s in
    if hit then i ∷ rest else rest

unfoldable pub match_indices : Text → Text → List ℕ
unfolding matches_from
match_indices p s = matches_from p 0 0 s

-- `str::find`, the pattern first.
unfoldable pub find : Text → Text → Option ℕ
unfolding match_indices
find p s = elim (match_indices p s) [ [] ↦ none | i ∷ _ ↦ some i ]

-- `String::replace_range(at .. at + n, r)`
abbrev pub replace_range : ℕ → ℕ → Text → Text → Text
replace_range at n r s = take at s ++ (r ++ drop (at + n) s)

pub text_eq_iff : (s t : Text) → (text_eq s t ≡ true) ↔ (s ≡ t)
unfolding text_eq
text_eq_iff [] [] = ground arith
text_eq_iff (a ∷ s) [] = ground arith
text_eq_iff [] (b ∷ t) = ground arith
text_eq_iff (a ∷ s) (b ∷ t) = ground (arith, text_eq_iff s t)

pub text_eq_refl : (s : Text) → text_eq s s ≡ true
text_eq_refl s = (text_eq_iff s s).1 refl

matches_overlap : match_indices (codes "aa") (codes "aaaba") ≡ 0 ∷ []
unfolding match_indices
matches_overlap = refl

trim_both : trim (codes " a b ") ≡ codes "a b"
unfolding trim
trim_both = refl

-- `str::replace(p, r)` for a pattern that is not empty; `skip` as in `matches_from`.
unfoldable pub replace_from : Text → Text → ℕ → Text → Text
unfolding starts_with
replace_from p r skip [] = []
replace_from p r (suc skip) (c ∷ s) = replace_from p r skip s
replace_from p r zero (c ∷ s) =
    let hit = starts_with p (c ∷ s) in
    let rest = replace_from p r (if hit then length p - 1 else 0) s in
    if hit then r ++ rest else c ∷ rest

unfoldable pub replace_all : Text → Text → Text → Text
unfolding replace_from
replace_all p r s = replace_from p r 0 s

-- The decimal digits of a number, as `format!` prints it: 20 of them are enough for a u64.
unfoldable pub decimal_from : ℕ → ℕ → Text
decimal_from zero n = []
decimal_from (suc fuel) n =
    let rest = decimal_from fuel (n / 10) in
    if ltb n 10 then (48 + n) ∷ [] else rest ++ (48 + n % 10) ∷ []

unfoldable pub decimal : ℕ → Text
unfolding decimal_from
decimal n = decimal_from 20 n

-- `[Text]::join(sep)`
unfoldable pub join : Text → List Text → Text
join sep [] = []
join sep (s ∷ ss) = elim ss [ [] ↦ s | _ ∷ _ ↦ s ++ (sep ++ join sep ss) ]
