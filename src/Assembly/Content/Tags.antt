-- ===== src/Assembly/Content/Tags.antt =====
-- What `sanitize_tag` of shirita-core/src/assembly.rs leaves of a name.
use shirita.Prelude.{ℕ, ◌≡◌, true, false, ◌||◌, [], ◌∷◌, ◌++◌, ◌==◌, ◌⊎◌}
use shirita.Text.{Text, codes, is_whitespace}
use shirita.Assembly.Content.{Rendering, is_forbidden}

-- A character that stands in a tag.
abbrev pub Plain : ℕ → Type 0
Plain c = (is_whitespace c ≡ false) × (is_forbidden c ≡ false)

-- A tag is empty, or begins with a letter or `_`, or with the prefix `tag_`.
abbrev pub Starts : Rendering → Text → Type 0
Starts re [] = Unit
Starts re (c ∷ s) =
    ((re.is_alphabetic c || c == b'_') ≡ true) ⊎ ((rest : Text) × (c ∷ s ≡ codes "tag_" ++ rest))
