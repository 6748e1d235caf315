-- ===== src/HtmlPatch/Card.antt =====
-- When a reply edits the card, and what the card becomes.
use shirita.Prelude.{
  ℕ, ◌+◌, ◌<◌, ◌≡◌, refl, sym, ap, ◌↔◌, inl, inr, some, false, List, [], ◌∷◌, ◌++◌, All, map, arith,
  length, take, drop, is_empty, Option-cases, List-cases,
}
use shirita.Text.{Text, codes, match_indices, replace_range, join}
use shirita.Text.Search.{IsOnly, match_indices-IsOnly, match_indices-single, Stands-split}
use shirita.Text.Lines.{IsLine, EndsFull}
use shirita.HtmlPatch.{
  HtmlPatch, edit_at, apply_one, apply_all, apply_patches, reconstruct, search_marker,
  parse_patches,
}
use shirita.HtmlPatch.Blocks.{Block, IsBlock, Plain, block_lines, block_patch, parse_patches-join}

-- `next` is `doc` with the one place of `p.find` replaced.
pub record Rewrite (p : HtmlPatch) (doc next : Text) : Type 0 where
  pub wanted : 0 < length p.find
  pub at : ℕ
  pub only : IsOnly p.find doc at
  pub cut : doc ≡ take at doc ++ (p.find ++ drop (at + length p.find) doc)
  pub joined : next ≡ take at doc ++ (p.replace ++ drop (at + length p.find) doc)

-- A chain of rewrites, one for each patch in order.
pub data Rewrites : List HtmlPatch → Text → Text → Type 0 where
  here : {doc last : Text} → doc ≡ last → Rewrites [] doc last
  then :
      {p : HtmlPatch} {ps : List HtmlPatch} {doc next last : Text}
      → Rewrite p doc next
      → Rewrites ps next last
      → Rewrites (p ∷ ps) doc last

edit_at-some :
    (doc : Text) (p : HtmlPatch) (next : Text) (l : List ℕ)
    → edit_at doc p l ≡ some next
    → (at : ℕ) × (l ≡ at ∷ []) × (next ≡ replace_range at (length p.find) p.replace doc)
edit_at-some doc p next [] h = cc
edit_at-some doc p next (at ∷ []) h = (at, refl, ground arith)
edit_at-some doc p next (at ∷ _ ∷ _) h = cc

wanted_find : (s : Text) → is_empty s ≡ false → 0 < length s
wanted_find [] h = absurd (ground arith)
wanted_find (c ∷ s) h = ground arith

full_find : (s : Text) → 0 < length s → is_empty s ≡ false
full_find [] h = absurd (omega (arith, h))
full_find (c ∷ s) h = refl

apply_one-Rewrite :
    (doc : Text) (p : HtmlPatch) (next : Text) → apply_one doc p ≡ some next → Rewrite p doc next
unfolding apply_one
apply_one-Rewrite doc p next h = elim (List-cases p.find) [
  | inl e ↦ absurd (ground arith)
  | inr (c, r, e) ↦
      let ne : 0 < length p.find = rw e (omega arith) in
      let (at, l, j) =
        edit_at-some doc p next (match_indices p.find doc) (ground (arith, wanted_find p.find)) in
      let o = match_indices-IsOnly p.find doc at ne l in
      record {
        wanted = ne;
        at = at;
        only = o;
        cut = Stands-split p.find doc at o.first.stands;
        joined = j;
      }
]

Rewrite-apply_one :
    (doc : Text) (p : HtmlPatch) (next : Text) → Rewrite p doc next → apply_one doc p ≡ some next
unfolding apply_one
Rewrite-apply_one doc p next d =
    rw (full_find p.find d.wanted, match_indices-single p.find doc d.at d.wanted d.only)
      (ap some (sym d.joined))

apply_all-Rewrites :
    (doc : Text) (ps : List HtmlPatch) (last : Text)
    → apply_all doc ps ≡ some last
    → Rewrites ps doc last
unfolding apply_all
apply_all-Rewrites doc [] last h = here (ground arith)
apply_all-Rewrites doc (p ∷ ps) last h = elim (Option-cases (apply_one doc p)) [
  | inl e ↦ absurd (ground arith)
  | inr (next, e) ↦
      then (apply_one-Rewrite doc p next e) (apply_all-Rewrites next ps last (ground arith))
]

Rewrites-apply_all :
    (doc : Text) (ps : List HtmlPatch) (last : Text)
    → Rewrites ps doc last
    → apply_all doc ps ≡ some last
unfolding apply_all
Rewrites-apply_all doc [] last (here e) = ground arith
Rewrites-apply_all doc (p ∷ ps) last (then {next = next} d ds) =
    rw (Rewrite-apply_one doc p next d, apply_all) (Rewrites-apply_all next ps last ds)

-- Patches are applied exactly when there is one at least and each, in order, has a text to find
-- that stands in the document at one place, no other place being before it or from its end on; the
-- document is then the end of that chain of rewrites.
pub apply_patches-Rewrites :
    (base : Text) (ps : List HtmlPatch) (doc : Text)
    → (apply_patches base ps ≡ some doc) ↔ ((is_empty ps ≡ false) × Rewrites ps base doc)
unfolding apply_patches
apply_patches-Rewrites base [] doc = (λ h. absurd (ground arith), λ h. absurd (ground arith))
apply_patches-Rewrites base (p ∷ ps) doc = (
  λ h. (refl, apply_all-Rewrites base (p ∷ ps) doc h),
  λ h. Rewrites-apply_all base (p ∷ ps) doc h.1,
)

reconstruct-parsed :
    (base : Text) (reply : Text)
    → reconstruct (some base) reply ≡ apply_patches base (parse_patches reply)
unfolding reconstruct apply_patches
reconstruct-parsed base reply = elim (List-cases (parse_patches reply)) [
  | inl e ↦ rw e refl
  | inr (p, ps, e) ↦ rw e refl
]

-- If a reply is printed from blocks, where no prose line is a SEARCH marker, no line to find a separator
-- and no line to put in its place a REPLACE marker, each up to white space at the line's end, and every
-- line is one line of text and the last is not empty, then it turns the card into `doc` exactly when it
-- has a block and `doc` is the end of the chain of rewrites that its blocks are: each has a text to
-- find that stands in the document at one place, no other place being before it or from its end on.
pub reconstruct-Rewrites :
    (base : Text) (bs : List Block) (after : List Text) (doc : Text)
    → All IsBlock bs
    → All (Plain search_marker) after
    → All IsLine (block_lines bs after)
    → EndsFull (block_lines bs after)
    → (reconstruct (some base) (join (codes "\n") (block_lines bs after)) ≡ some doc)
      ↔ ((is_empty (map block_patch bs) ≡ false) × Rewrites (map block_patch bs) base doc)
reconstruct-Rewrites base bs after doc a p w n =
    rw
      (
        reconstruct-parsed base (join (codes "\n") (block_lines bs after)),
        parse_patches-join bs after a p w n,
      )
      (apply_patches-Rewrites base (map block_patch bs) doc)
