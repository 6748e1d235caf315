-- ===== src/Examples/Documents.antt =====
-- A card and the reply that edits it, shirita-core/src/html_patch.rs.
use shirita.Prelude.{◌≡◌, ◌↔◌, refl, some, false, List, [], ◌∷◌, any, is_empty, ◌==◌, All}
use shirita.Text.{Text, codes, text_eq, trim_end, join}
use shirita.Text.Lines.{IsLine, strip_cr}
use shirita.HtmlPatch.{apply_patches, reconstruct, parse_patches, is_marker}
use shirita.HtmlPatch.Blocks.{Block, IsBlock, block_lines, block_patch, parse_patches-join}
use shirita.HtmlPatch.Card.{Rewrites, apply_patches-Rewrites, reconstruct-Rewrites}

abbrev wound : Block
wound = record {
  prose = codes "Ouch." ∷ [];
  find = codes "HP: 100" ∷ [];
  replace = codes "HP: 80" ∷ [];
}

abbrev reply_lines : List Text
reply_lines = block_lines (wound ∷ []) []

wound-IsBlock : IsBlock wound
unfolding is_marker text_eq trim_end
wound-IsBlock = ((refl, tt), (refl, tt), (refl, tt))

line : (l : Text) → any (λ c. c == b'\n') l ≡ false → strip_cr l ≡ l → IsLine l
line l w b = record { whole = w; bare = b }

reply-IsLine : All IsLine reply_lines
unfolding strip_cr
reply-IsLine = (
  line _ refl refl,
  (
    line _ refl refl,
    (line _ refl refl, (line _ refl refl, (line _ refl refl, (line _ refl refl, tt)))),
  ),
)

parse_patches-join_example : parse_patches (join (codes "\n") reply_lines) ≡ block_patch wound ∷ []
parse_patches-join_example =
    parse_patches-join (wound ∷ []) [] (wound-IsBlock, tt) tt reply-IsLine refl

reconstruct-Rewrites_example :
    (reconstruct (some (codes "<p>HP: 100</p>")) (join (codes "\n") reply_lines)
      ≡ some (codes "<p>HP: 80</p>"))
    ↔ ((is_empty (block_patch wound ∷ []) ≡ false)
        × Rewrites (block_patch wound ∷ []) (codes "<p>HP: 100</p>") (codes "<p>HP: 80</p>"))
reconstruct-Rewrites_example =
    reconstruct-Rewrites (codes "<p>HP: 100</p>") (wound ∷ []) [] (codes "<p>HP: 80</p>")
      (wound-IsBlock, tt) tt reply-IsLine refl

apply_patches-Rewrites_example :
    (apply_patches (codes "HP: 100") (block_patch wound ∷ []) ≡ some (codes "HP: 80")) ↔ (
      (is_empty (block_patch wound ∷ []) ≡ false)
      × Rewrites (block_patch wound ∷ []) (codes "HP: 100") (codes "HP: 80"))
apply_patches-Rewrites_example =
    apply_patches-Rewrites (codes "HP: 100") (block_patch wound ∷ []) (codes "HP: 80")
