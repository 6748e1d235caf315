-- ===== src/HtmlPatch/Blocks.antt =====
-- The blocks of a reply are read back, with whatever text stands between them.
use shirita.Prelude.{
  ◌≡◌, refl, sym, ap, ◌∙◌, true, false, List, [], ◌∷◌, ◌++◌, All, map, append_assoc, append-nil,
}
use shirita.Text.{Text, codes, text_eq, trim_end, join}
use shirita.Text.Lines.{IsLine, EndsFull, lines-join}
use shirita.HtmlPatch.{
  HtmlPatch, search_marker, sep_marker, replace_marker, is_marker, between, in_find, in_replace,
  patch_of, parse_lines, parse_patches,
}

-- One block in the lines of a reply: the prose before it, and its two bodies.
pub record Block : Type 0 where
  pub prose : List Text
  pub find : List Text
  pub replace : List Text

abbrev pub Plain : Text → Text → Type 0
Plain marker line = is_marker marker line ≡ false

-- No body holds the marker that ends it, and no prose a marker that begins a block.
abbrev pub IsBlock : Block → Type 0
IsBlock b =
    All (Plain search_marker) b.prose
    × All (Plain sep_marker) b.find
    × All (Plain replace_marker) b.replace

-- The lines of a reply with these blocks.
abbrev pub block_lines : List Block → List Text → List Text
block_lines [] rest = rest
block_lines (b ∷ bs) rest =
    b.prose
    ++ (search_marker
        ∷ (b.find ++ (sep_marker ∷ (b.replace ++ (replace_marker ∷ block_lines bs rest)))))

abbrev pub block_patch : Block → HtmlPatch
block_patch b = patch_of b.find b.replace

skip_prose :
    (prose rest : List Text)
    → All (Plain search_marker) prose
    → parse_lines between (prose ++ rest) ≡ parse_lines between rest
unfolding parse_lines
skip_prose [] rest a = refl
skip_prose (l ∷ ls) rest a = rw (a.0, parse_lines) (skip_prose ls rest a.1)

read_find :
    (found find rest : List Text)
    → All (Plain sep_marker) find
    → parse_lines (in_find found) (find ++ rest) ≡ parse_lines (in_find (found ++ find)) rest
unfolding parse_lines
read_find found [] rest a = ap (λ f. parse_lines (in_find f) rest) (sym (append-nil found))
read_find found (l ∷ ls) rest a =
    rw (a.0, parse_lines)
      (read_find (found ++ l ∷ []) ls rest a.1
        ∙ ap (λ f. parse_lines (in_find f) rest) (append_assoc found (l ∷ []) ls))

read_replace :
    (found put replace rest : List Text)
    → All (Plain replace_marker) replace
    → parse_lines (in_replace found put) (replace ++ rest)
      ≡ parse_lines (in_replace found (put ++ replace)) rest
unfolding parse_lines
read_replace found put [] rest a =
    ap (λ f. parse_lines (in_replace found f) rest) (sym (append-nil put))
read_replace found put (l ∷ ls) rest a =
    rw (a.0, parse_lines)
      (read_replace found (put ++ l ∷ []) ls rest a.1
        ∙ ap (λ f. parse_lines (in_replace found f) rest) (append_assoc put (l ∷ []) ls))

search_marker_stands : is_marker search_marker search_marker ≡ true
unfolding is_marker text_eq trim_end
search_marker_stands = refl

sep_marker_stands : is_marker sep_marker sep_marker ≡ true
unfolding is_marker text_eq trim_end
sep_marker_stands = refl

replace_marker_stands : is_marker replace_marker replace_marker ≡ true
unfolding is_marker text_eq trim_end
replace_marker_stands = refl

read_block :
    (b : Block) (rest : List Text)
    → IsBlock b
    → parse_lines between (
        b.prose
        ++ (search_marker ∷ (b.find ++ (sep_marker ∷ (b.replace ++ (replace_marker ∷ rest))))))
      ≡ block_patch b ∷ parse_lines between rest
unfolding parse_lines
read_block b rest a =
    skip_prose b.prose _ a.0
    ∙ rw (search_marker_stands, parse_lines)
        (read_find [] b.find _ a.1
          ∙ rw (sep_marker_stands, parse_lines)
              (read_replace b.find [] b.replace _ a.2
                ∙ rw (replace_marker_stands, parse_lines) refl))

no_patches : (after : List Text) → All (Plain search_marker) after → parse_lines between after ≡ []
unfolding parse_lines
no_patches [] p = refl
no_patches (l ∷ ls) p = rw (p.0, parse_lines) (no_patches ls p.1)

-- The patches of a reply are its blocks in order, whatever prose stands before, between and after
-- them, if no prose line is a SEARCH marker, no line to find a separator and no line to put in its
-- place a REPLACE marker, each up to white space at the line's end.
pub parse_lines-blocks :
    (bs : List Block) (after : List Text)
    → All IsBlock bs
    → All (Plain search_marker) after
    → parse_lines between (block_lines bs after) ≡ map block_patch bs
parse_lines-blocks [] after a p = no_patches after p
parse_lines-blocks (b ∷ bs) after a p =
    read_block b (block_lines bs after) a.0
    ∙ ap (λ ps. block_patch b ∷ ps) (parse_lines-blocks bs after a.1 p)

-- A reply that is printed from blocks is parsed back to them, if no prose line is a SEARCH marker, no
-- line to find a separator and no line to put in its place a REPLACE marker, each up to white space at
-- the line's end, and if every line is one line of text and the last is not empty.
pub parse_patches-join :
    (bs : List Block) (after : List Text)
    → All IsBlock bs
    → All (Plain search_marker) after
    → All IsLine (block_lines bs after)
    → EndsFull (block_lines bs after)
    → parse_patches (join (codes "\n") (block_lines bs after)) ≡ map block_patch bs
unfolding parse_patches
parse_patches-join bs after a p w n =
    ap (parse_lines between) (lines-join (block_lines bs after) w n)
    ∙ parse_lines-blocks bs after a p
