-- ===== src/HtmlPatch.antt =====
-- shirita-core/src/html_patch.rs: the SEARCH/REPLACE blocks of a reply, and the card that they edit.
pub mod Blocks
pub mod Card
use shirita.Prelude.{
  ℕ, ◌+◌, ◌||◌, ◌&&◌, Option, none, some, Bool, true, false, List, [], ◌∷◌, ◌++◌, length, take,
  drop, any, all, is_empty, leb, if◌then◌else◌,
}
use shirita.Text.{
  Text, codes, text_eq, trim, trim_start, trim_end, starts_with, find, to_ascii_lowercase, join,
  match_indices, replace_range,
}
use shirita.Text.Lines.{lines}

pub record HtmlPatch : Type 0 where
  pub find : Text
  pub replace : Text

-- `char::is_ascii_alphanumeric`
abbrev pub is_ascii_alphanumeric : ℕ → Bool
is_ascii_alphanumeric c =
    (leb b'0' c && leb c b'9') || ((leb b'A' c && leb c b'Z') || (leb b'a' c && leb c b'z'))

-- `s.strip_prefix(p)`
abbrev pub strip_prefix : Text → Text → Option Text
strip_prefix p s = if starts_with p s then some (drop (length p) s) else none

unfoldable pub strip_leading_fence : Text → Text
strip_leading_fence s = elim (strip_prefix (codes "```") s) [
  | none ↦ s
  | some rest ↦ elim (find (codes "\n") rest) [
    | none ↦ s
    | some nl ↦ if all is_ascii_alphanumeric (trim (take nl rest)) then drop (nl + 1) rest else s
  ]
]

unfoldable pub is_html_document : Text → Bool
is_html_document text =
    let s = to_ascii_lowercase (trim_start (strip_leading_fence (trim_start text))) in
    starts_with (codes "<!doctype html") s || starts_with (codes "<html") s

abbrev pub search_marker : Text
search_marker = codes "<<<<<<< SEARCH"

abbrev pub sep_marker : Text
sep_marker = codes "======="

abbrev pub replace_marker : Text
replace_marker = codes ">>>>>>> REPLACE"

-- `lines[i].trim_end() == marker`
unfoldable pub is_marker : Text → Text → Bool
is_marker marker line = text_eq (trim_end line) marker

unfoldable pub has_patch_blocks : Text → Bool
has_patch_blocks text = any (is_marker search_marker) (lines text)

-- Where the loops of `parse_patches` stand: between blocks, in the text to find, or in the text to
-- put in its place.
pub data Place : Type 0 where
  between : Place
  in_find : List Text → Place
  in_replace : List Text → List Text → Place

abbrev pub patch_of : List Text → List Text → HtmlPatch
patch_of find replace = record {
  find = join (codes "\n") find;
  replace = join (codes "\n") replace;
}

unfoldable pub parse_lines : Place → List Text → List HtmlPatch
parse_lines place [] = []
parse_lines between (line ∷ rest) = elim (is_marker search_marker line) [
  | true ↦ parse_lines (in_find []) rest
  | false ↦ parse_lines between rest
]
parse_lines (in_find found) (line ∷ rest) = elim (is_marker sep_marker line) [
  | true ↦ parse_lines (in_replace found []) rest
  | false ↦ parse_lines (in_find (found ++ line ∷ [])) rest
]
parse_lines (in_replace found put) (line ∷ rest) = elim (is_marker replace_marker line) [
  | true ↦ patch_of found put ∷ parse_lines between rest
  | false ↦ parse_lines (in_replace found (put ++ line ∷ [])) rest
]

unfoldable pub parse_patches : Text → List HtmlPatch
parse_patches text = parse_lines between (lines text)

-- The unique match, or the return of `None`.
abbrev pub edit_at : Text → HtmlPatch → List ℕ → Option Text
edit_at doc p [] = none
edit_at doc p (at ∷ []) = some (replace_range at (length p.find) p.replace doc)
edit_at doc p (at ∷ _ ∷ _) = none

-- The body of `for p in patches`.
unfoldable pub apply_one : Text → HtmlPatch → Option Text
apply_one doc p = if is_empty p.find then none else edit_at doc p (match_indices p.find doc)

unfoldable pub apply_all : Text → List HtmlPatch → Option Text
apply_all doc [] = some doc
apply_all doc (p ∷ ps) = elim (apply_one doc p) [ none ↦ none | some next ↦ apply_all next ps ]

unfoldable pub apply_patches : Text → List HtmlPatch → Option Text
apply_patches base patches = if is_empty patches then none else apply_all base patches

unfoldable pub reconstruct : Option Text → Text → Option Text
reconstruct base reply =
    let patches = parse_patches reply in
    if is_empty patches then none else elim base [ none ↦ none | some b ↦ apply_patches b patches ]
