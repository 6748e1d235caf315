-- ===== src/Text/Lines.antt =====
-- `str::lines`, and the lines of a text that is joined from lines.
use shirita.Prelude.{
  ◌≡◌, refl, ap, ◌∙◌, List, [], ◌∷◌, ◌++◌, false, any, is_empty, ◌==◌, if◌then◌else◌, arith, All,
  append_assoc, append-nil,
}
use shirita.Text.{Text, codes, join}

-- The line without the `'\r'` before its line feed.
unfoldable pub strip_cr : Text → Text
strip_cr [] = []
strip_cr (c ∷ s) = elim s [ [] ↦ if c == b'\r' then [] else c ∷ [] | _ ∷ _ ↦ c ∷ strip_cr s ]

-- `line` holds what is read of the current line.
unfoldable pub lines_from : Text → Text → List Text
unfolding strip_cr
lines_from line [] = if is_empty line then [] else line ∷ []
lines_from line (c ∷ s) =
    let after = lines_from [] s in
    let within = lines_from (line ++ c ∷ []) s in
    if c == b'\n' then strip_cr line ∷ after else within

unfoldable pub lines : Text → List Text
unfolding lines_from
lines s = lines_from [] s

two_lines : lines (codes "a\r\n\nb") ≡ codes "a" ∷ [] ∷ codes "b" ∷ []
unfolding lines
two_lines = refl

-- One line as it stands in a text: without a line feed, and no `'\r'` at its end.
pub record IsLine (l : Text) : Type 0 where
  pub whole : any (λ c. c == b'\n') l ≡ false
  pub bare : strip_cr l ≡ l

lines_from-last :
    (line l : Text)
    → any (λ c. c == b'\n') l ≡ false
    → lines_from line l ≡ (if is_empty (line ++ l) then [] else (line ++ l) ∷ [])
unfolding lines_from
lines_from-last line [] h = rw (append-nil line) refl
lines_from-last line (c ∷ l) h =
    let rest = lines_from-last (line ++ c ∷ []) l (ground arith) in
    let e : (c == b'\n') ≡ false = ground arith in
    rw e (rest ∙ ap (λ t. if is_empty t then [] else t ∷ []) (append_assoc line (c ∷ []) l))

lines_from-line :
    (line l s : Text)
    → any (λ c. c == b'\n') l ≡ false
    → lines_from line (l ++ (b'\n' ∷ s)) ≡ strip_cr (line ++ l) ∷ lines_from [] s
unfolding lines_from
lines_from-line line [] s h = rw (append-nil line) refl
lines_from-line line (c ∷ l) s h =
    let rest = lines_from-line (line ++ c ∷ []) l s (ground arith) in
    let e : (c == b'\n') ≡ false = ground arith in
    rw e (rest ∙ ap (λ t. strip_cr t ∷ lines_from [] s) (append_assoc line (c ∷ []) l))

lines-newline : (l s : Text) → IsLine l → lines (l ++ (b'\n' ∷ s)) ≡ l ∷ lines s
unfolding lines
lines-newline l s w = lines_from-line [] l s w.whole ∙ ap (λ t. t ∷ lines_from [] s) w.bare

-- The last of the lines is there and not empty.
abbrev pub EndsFull : List Text → Type 0
EndsFull [] = ⊥
EndsFull (l ∷ []) = is_empty l ≡ false
EndsFull (l ∷ m ∷ ls) = EndsFull (m ∷ ls)

one_line : (last : Text) → IsLine last → is_empty last ≡ false → lines last ≡ last ∷ []
unfolding lines
one_line last l n = lines_from-last [] last l.whole ∙ rw n refl

-- Lines that are joined are read back, if the last of them is not empty.
pub lines-join : (ls : List Text) → All IsLine ls → EndsFull ls → lines (join (codes "\n") ls) ≡ ls
unfolding join
lines-join [] a n = absurd n
lines-join (l ∷ []) a n = one_line l a.0 n
lines-join (l ∷ m ∷ ls) a n =
    lines-newline l (join (codes "\n") (m ∷ ls)) a.0 ∙ ap (λ t. l ∷ t) (lines-join (m ∷ ls) a.1 n)
