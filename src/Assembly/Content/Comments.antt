-- ===== src/Assembly/Content/Comments.antt =====
-- The loop of `strip_comments` in shirita-core/src/assembly.rs comes to an end.
use shirita.Prelude.{
  ℕ, zero, suc, ◌+◌, ◌-◌, ◌≤◌, ◌≡◌, refl, Option, none, some, ◌&&◌, [], ◌∷◌, ◌++◌, ◌==◌, is_empty,
  take, drop, length, leb, arith, Bool-cases, Option-cases, inl, inr,
}
use shirita.Text.{Text, codes, trim, find, match_indices}
use shirita.Assembly.Content.{
  after_close, split_line, trim_blanks, strip_newline, drop_comment, next_step, strip_loop,
}

length-after_close : (depth : ℕ) (s : Text) → length (after_close depth s) ≤ length s
unfolding after_close
length-after_close depth [] = omega arith
length-after_close depth (a ∷ []) = omega arith
length-after_close depth (a ∷ b ∷ s) = elim (Bool-cases (a == b'{' && b == b'{')) [
  | inl e ↦ rw (e, after_close) (let h = length-after_close (suc depth) s in omega (arith, h))
  | inr e ↦ elim (Bool-cases (a == b'}' && b == b'}')) [
    | inl f ↦ elim (Bool-cases (leb depth 1)) [
      | inl g ↦ rw (e, f, g, after_close) (omega arith)
      | inr g ↦
          rw (e, f, g, after_close) (let h = length-after_close (depth - 1) s in omega (arith, h))
    ]
    | inr f ↦ rw (e, f, after_close) (let h = length-after_close depth (b ∷ s) in omega (arith, h))
  ]
]

length-drop : (n : ℕ) (s : Text) → length (drop n s) ≡ length s - n
length-drop zero s = omega arith
length-drop (suc n) [] = omega arith
length-drop (suc n) (c ∷ s) = omega (arith, length-drop n s)

length-trim_blanks : (s : Text) → length (trim_blanks s) ≤ length s
unfolding trim_blanks
length-trim_blanks [] = omega arith
length-trim_blanks (c ∷ s) = ground (arith, length-trim_blanks s)

length-strip_newline : (s : Text) → length (strip_newline s) ≤ length s
unfolding strip_newline
length-strip_newline [] = omega arith
length-strip_newline (c ∷ s) = ground arith

length-drop_comment : (out rest : Text) → length (drop_comment out rest).1 ≤ length rest
unfolding drop_comment
length-drop_comment out rest = elim (Bool-cases (is_empty (trim (split_line out).1))) [
  | inl e ↦ rw e (omega (arith, length-strip_newline (trim_blanks rest), length-trim_blanks rest))
  | inr e ↦ rw e (omega arith)
]

length-next_step :
    (out rest : Text) (start : ℕ) → length (next_step out rest start).1 ≤ length rest - (start + 2)
unfolding next_step
length-next_step out rest start = omega (
  arith,
  length-drop_comment (out ++ take start rest) (after_close 1 (drop (start + 2) rest)),
  length-after_close 1 (drop (start + 2) rest),
  length-drop (start + 2) rest,
)

find-nil : find (codes "{{//") [] ≡ none
unfolding find match_indices
find-nil = refl

abbrev pub Ends : Option Text → Type 0
Ends none = ⊥
Ends (some s) = Unit

-- As many iterations as there are characters are enough, whatever was emitted before: the loop of
-- `strip_comments` ends with a text.
pub strip_loop-Ends : (n : ℕ) (out rest : Text) → length rest ≤ n → Ends (strip_loop n out rest)
unfolding strip_loop
strip_loop-Ends zero out [] l = rw (find-nil, Ends) tt
strip_loop-Ends zero out (c ∷ rest) l = absurd (omega (arith, l))
strip_loop-Ends (suc n) out rest l = elim (Option-cases (find (codes "{{//") rest)) [
  | inl e ↦ rw (e, strip_loop) tt
  | inr (start, e) ↦
      rw (e, strip_loop)
        (strip_loop-Ends n (next_step out rest start).0 (next_step out rest start).1
          (omega (arith, l, length-next_step out rest start)))
]
