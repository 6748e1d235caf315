-- ===== src/Assembly/Content.antt =====
-- shirita-core/src/assembly.rs: the content of a definition where it is used: its comments, its
-- variables and its tag.
pub mod Comments
pub mod Tags
use shirita.Prelude.{
  ℕ, zero, suc, ◌+◌, ◌-◌, ◌≡◌, refl, Option, none, some, Bool, true, false, not, ◌&&◌, ◌||◌, List,
  [], ◌∷◌, ◌++◌, ◌==◌, is_empty, max, take, drop, length, leb, if◌then◌else◌,
}
use shirita.Text.{
  Text, codes, text_eq, trim, is_whitespace, find, starts_with, trim_start, trim_end, match_indices,
}
use shirita.Json.{or_true, Value, get, str_at, bool_at, object, field, end, as_u64, as_bool, as_str}
use shirita.Nodes.{Definition, PromptNode}
use shirita.Assembly.Activation.{Trigger, parse_trigger, u64_of}

-- The rendering of `{{var}}` by a regular expression, and the Unicode property Alphabetic.
pub record Rendering : Type 0 where
  pub render_vars : Text → Value → Text
  pub is_alphabetic : ℕ → Bool

-- What stands behind a comment whose inside is read at a depth; nothing, if it is not closed. An
-- iteration takes two braces, or one character.
unfoldable pub after_close : ℕ → Text → Text
after_close depth [] = []
after_close depth (a ∷ []) = []
after_close depth (a ∷ b ∷ s) = elim (a == b'{' && b == b'{') [
  | true ↦ after_close (suc depth) s
  | false ↦ elim (a == b'}' && b == b'}') [
    | true ↦ elim (leb depth 1) [ true ↦ s | false ↦ after_close (depth - 1) s ]
    | false ↦ after_close depth (b ∷ s)
  ]
]

-- The text behind the last line feed, and the text up to there.
unfoldable pub split_line : Text → Text × Text
split_line [] = ([], [])
split_line (c ∷ s) =
    let (before, line) = split_line s in
    if c == b'\n' && is_empty before
    then (c ∷ [], line)
    else if is_empty before
    then ([], c ∷ line)
    else (c ∷ before, line)

unfoldable pub trim_blanks : Text → Text
trim_blanks [] = []
trim_blanks (c ∷ s) = let rest = trim_blanks s in if c == b' ' || c == b'\t' then rest else c ∷ s

unfoldable pub strip_newline : Text → Text
strip_newline [] = []
strip_newline (c ∷ s) = if c == b'\n' then s else c ∷ s

-- What is emitted after a comment, and what is left to read.
unfoldable pub drop_comment : Text → Text → Text × Text
drop_comment out after =
    let (before, line) = split_line out in
    if is_empty (trim line) then (before, strip_newline (trim_blanks after)) else (out, after)

-- What an iteration starts with: what is emitted and what is left behind the comment at `start`.
unfoldable pub next_step : Text → Text → ℕ → Text × Text
next_step out rest start =
    drop_comment (out ++ take start rest) (after_close 1 (drop (start + 2) rest))

-- The loop; its fuel counts the comments that it may still find.
unfoldable pub strip_loop : ℕ → Text → Text → Option Text
strip_loop zero out rest = elim (find (codes "{{//") rest) [
  | none ↦ some (out ++ rest)
  | some start ↦ none
]
strip_loop (suc n) out rest = elim (find (codes "{{//") rest) [
  | none ↦ some (out ++ rest)
  | some start ↦ strip_loop n (next_step out rest start).0 (next_step out rest start).1
]

abbrev or_unchanged : Text → Option Text → Text
or_unchanged input none = input
or_unchanged input (some s) = s

-- Each iteration leaves at least two characters less to read.
unfoldable pub strip_comments : Text → Text
strip_comments input = or_unchanged input (strip_loop (length input) [] input)

unfoldable pub override_of : Value → Definition → Text → Option Value
override_of overrides def key = elim (get overrides def.id) [ none ↦ none | some o ↦ get o key ]

-- `effective_trigger`
unfoldable pub effective_trigger : Definition → Value → Trigger
effective_trigger def overrides = elim (override_of overrides def (codes "trigger")) [
  | none ↦ parse_trigger def.meta
  | some t ↦ parse_trigger (object (field (codes "trigger") t end))
]

abbrev or_four : Option ℕ → ℕ
or_four none = 4
or_four (some n) = n

unfoldable pub scan_of : Option Value → ℕ × Bool
scan_of none = (4, true)
scan_of (some v) =
    (max (or_four (u64_of (get v (codes "depth")))) 1, or_true (bool_at v (codes "recursive")))

-- `effective_scan`, with the defaults of four messages and taking part in the recursion.
unfoldable pub effective_scan : Definition → Value → ℕ × Bool
effective_scan def overrides = elim (override_of overrides def (codes "scan")) [
  | none ↦ scan_of (get def.meta (codes "scan"))
  | some v ↦ scan_of (some v)
]

unfoldable pub text_of : Option Value → Option Text
text_of none = none
text_of (some v) = as_str v

abbrev or_content : Definition → Option Text → Text
or_content def none = def.content
or_content def (some s) = s

unfoldable pub effective_def_content : Definition → Value → Text
effective_def_content def overrides =
    or_content def (text_of (override_of overrides def (codes "content")))

-- The text as it is rendered: without comments, with its variables.
unfoldable pub body_of : Rendering → Definition → Value → Value → Text
body_of re def overrides state =
    re.render_vars (strip_comments (effective_def_content def overrides)) state

unfoldable pub is_forbidden : ℕ → Bool
is_forbidden c = c == b'<' || c == b'>' || c == b'&' || c == 34 || c == 39 || c == b'/'

-- `pending` is set behind white space, `out` is what was kept so far.
unfoldable pub keep_chars : Text → Bool → Text → Text
keep_chars out pending [] = out
keep_chars out pending (c ∷ s) = elim (is_whitespace c) [
  | true ↦ keep_chars out (if is_empty out then pending else true) s
  | false ↦ elim (is_forbidden c) [
    | true ↦ keep_chars out pending s
    | false ↦ keep_chars (if pending then out ++ b'_' ∷ c ∷ [] else out ++ c ∷ []) false s
  ]
]

unfoldable pub start_tag : Rendering → Text → Text
start_tag re [] = []
start_tag re (c ∷ s) = if re.is_alphabetic c || c == b'_' then c ∷ s else codes "tag_" ++ (c ∷ s)

unfoldable pub sanitize_tag : Rendering → Text → Text
sanitize_tag re name = start_tag re (keep_chars [] false (trim name))

abbrev or_flag : Option Bool → Bool → Bool
or_flag none d = d
or_flag (some b) d = b

abbrev pub wrapped : Text → Text → Text
wrapped tag body =
    codes "<" ++ (tag ++ (codes ">\n" ++ (body ++ (codes "\n</" ++ (tag ++ codes ">")))))

unfoldable pub tag_or : Text → Text → Text
tag_or tag other = if is_empty tag then other else tag

unfoldable pub maybe_wrap : Rendering → Definition → PromptNode → Text → Text
maybe_wrap re def node body =
    let on =
      or_flag (bool_at node.meta (codes "wrap_in_tag"))
        (or_flag (bool_at def.meta (codes "wrap_in_tag")) false) in
    if not on || is_empty (trim body)
    then body
    else wrapped (tag_or (sanitize_tag re def.name) def.def_type) body

without_comment : strip_comments (codes "a\n  {{// x {{y}} }}\nb {{//c}} d") ≡ codes "a\nb  d"
unfolding strip_comments strip_loop next_step drop_comment after_close split_line trim_blanks
    strip_newline find trim trim_start trim_end match_indices
without_comment = refl

tag_of_name :
    (re : Rendering)
    → re.is_alphabetic b'D' ≡ true
    → sanitize_tag re (codes " Dark  <Lord>/x ") ≡ codes "Dark_Lordx"
unfolding sanitize_tag start_tag keep_chars is_forbidden trim trim_start trim_end
tag_of_name re h = rw h refl
