-- ===== src/Examples/Travel.antt =====
-- A pack of one reference that is exported and read back, and a tree whose parents form a cycle.
use shirita.Prelude.{◌≡◌, inr, refl, [], ◌∷◌, some, none, true, suc, length}
use mathlib.Core.List.{Memᴰ}
use shirita.Text.{codes}
use shirita.Json.{null}
use shirita.Tools.Random.{pos}
use shirita.Nodes.{PromptNode, folder, OwnerKind}
use shirita.Identity.{PackIdentity}
use shirita.Portable.{
  Pack, IdentityFormat, export_pack, parse_portable, inline_subtree, pack, all_enabled,
}
use shirita.Portable.Travels.{parse_portable-export_pack}
use shirita.Portable.Enabled.{Decides, all_enabled-Decides}

abbrev nobody : PackIdentity
nobody = record { display_name = none; avatar = none }

abbrev empty_format : IdentityFormat
empty_format = record { to_value = λ i. null; from_value = λ v. some nobody }

abbrev small_pack : Pack
small_pack = record { id = codes "p"; name = codes "Pack"; identity = nobody; meta = null }

-- Its own parent.
abbrev loop : PromptNode
loop = record {
  id = codes "n";
  owner_kind = OwnerKind.pack;
  owner_id = codes "p";
  parent_id = some (codes "n");
  sort_order = pos 3;
  kind = folder;
  tag = some (codes "panel");
  definition_id = none;
  enabled = true;
  created_at = [];
  meta = null;
}

parse_portable-export_pack_example :
    parse_portable empty_format (codes "id") (export_pack empty_format small_pack (loop ∷ []) [])
    ≡ inr (
        pack
          (codes "Pack")
          nobody
          null
          (inline_subtree (loop ∷ []) []).out_nodes
          (inline_subtree (loop ∷ []) []).out_defs)
parse_portable-export_pack_example =
    parse_portable-export_pack empty_format (codes "id") small_pack (loop ∷ []) [] refl (refl, tt)

all_enabled-Decides_example : Decides (all_enabled (suc (length (loop ∷ []))) (loop ∷ []) [] loop)
all_enabled-Decides_example = all_enabled-Decides (loop ∷ []) loop (Memᴰ.head refl)
