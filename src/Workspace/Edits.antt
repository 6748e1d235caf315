-- ===== src/Workspace/Edits.antt =====
-- A patch as a chain of literal edits, each of the one place where its search text stands.
use shirita.Prelude.{
  ℕ, ◌+◌, ◌≤◌, ◌<◌, ◌≡◌, refl, ◌↔◌, ◌≢◌, ◌⊎◌, inl, inr, Option, none, some, List, [], ◌∷◌, ◌++◌,
  arith, length, take, drop,
}
use shirita.Text.{Text, byte_len, match_indices, replace_range}
use shirita.Text.Search.{IsOnly, match_indices-IsOnly, match_indices-single, Stands-split}
use shirita.Tools.{ToolCall, ResponsePatchOperation, ErrorCode, ok}
use shirita.Tools.Builtin.{max_response_workspace_bytes}
use shirita.Workspace.{
  ResponseWorkspace, Patched, refused, patched, patch_at, patch_one, patch_all, apply_patch,
  commit_finish, next_revision,
}

-- `next` is `text` with the one place of `op.search` replaced.
pub record Edit (op : ResponsePatchOperation) (text next : Text) : Type 0 where
  pub at : ℕ
  pub only : IsOnly op.search text at
  pub cut : text ≡ take at text ++ (op.search ++ drop (at + length op.search) text)
  pub joined : next ≡ take at text ++ (op.replace ++ drop (at + length op.search) text)
  pub fits : byte_len next ≤ max_response_workspace_bytes

pub data Edits : List ResponsePatchOperation → Text → Text → Type 0 where
  here : {text last : Text} → text ≡ last → Edits [] text last
  then :
      {op : ResponsePatchOperation} {ops : List ResponsePatchOperation} {text next last : Text}
      → Edit op text next
      → Edits ops next last
      → Edits (op ∷ ops) text last

patch_at-patched :
    (text : Text) (op : ResponsePatchOperation) (next : Text) (l : List ℕ)
    → patch_at text op l ≡ patched next
    → (at : ℕ) × (l ≡ at ∷ [])
      × (next ≡ replace_range at (length op.search) op.replace text)
      × (byte_len next ≤ max_response_workspace_bytes)
patch_at-patched text op next [] h = cc
patch_at-patched text op next (at ∷ []) h = (at, refl, ground arith, ground arith)
patch_at-patched text op next (at ∷ _ ∷ _) h = cc

patch_one-Edit :
    (text : Text) (op : ResponsePatchOperation) (next : Text)
    → 0 < length op.search
    → patch_one text op ≡ patched next
    → Edit op text next
unfolding patch_one
patch_one-Edit text op next ne h =
    let (at, e, j, f) = patch_at-patched text op next (match_indices op.search text) h in
    let o = match_indices-IsOnly op.search text at ne e in
    record {
      at = at;
      only = o;
      cut = Stands-split op.search text at o.first.stands;
      joined = j;
      fits = f;
    }

Edit-patch_one :
    (text : Text) (op : ResponsePatchOperation) (next : Text)
    → 0 < length op.search
    → Edit op text next
    → patch_one text op ≡ patched next
unfolding patch_one
Edit-patch_one text op next ne d =
    rw (match_indices-single op.search text d.at ne d.only) (ground (arith, d.joined, d.fits))

-- No operation of the batch searches for the empty text.
abbrev pub Searches : List ResponsePatchOperation → Type 0
Searches [] = Unit
Searches (op ∷ ops) = (0 < length op.search) × Searches ops

Patched-cases : (r : Patched) → ((e : ErrorCode) × (r ≡ refused e)) ⊎ ((t : Text) × (r ≡ patched t))
Patched-cases (refused e) = inl (e, refl)
Patched-cases (patched t) = inr (t, refl)

patch_all-Edits :
    (text : Text) (ops : List ResponsePatchOperation) (last : Text)
    → Searches ops
    → patch_all text ops ≡ patched last
    → Edits ops text last
unfolding patch_all
patch_all-Edits text [] last ne h = here (ground arith)
patch_all-Edits text (op ∷ ops) last ne h = elim (Patched-cases (patch_one text op)) [
  | inl (e, p) ↦ absurd (ground arith)
  | inr (next, p) ↦
      then (patch_one-Edit text op next ne.0 p) (patch_all-Edits next ops last ne.1 (ground arith))
]

Edits-patch_all :
    (text : Text) (ops : List ResponsePatchOperation) (last : Text)
    → Searches ops
    → Edits ops text last
    → patch_all text ops ≡ patched last
unfolding patch_all
Edits-patch_all text [] last ne (here e) = ground arith
Edits-patch_all text (op ∷ ops) last ne (then {next = next} d ds) =
    ground (arith, Edit-patch_one text op next ne.0 d, Edits-patch_all next ops last ne.1 ds)

module _ (workspace : ResponseWorkspace) (call : ToolCall) (revision : ℕ)
    (ops : List ResponsePatchOperation) (ne : Searches ops) where
  -- If no operation searches for the empty text, which the tool that asks for patches rejects, then a
  -- patch is accepted exactly when its revision is the current one and each of its operations, in
  -- order, finds its search text once (no other place being before it or from its end on) and leaves a
  -- text within the limit; then the workspace holds the text at the end of that chain of edits, and its
  -- revision has moved by one.
  pub apply_patch-accepts :
      (last : Text)
      → ((revision ≡ workspace.revision) × Edits ops workspace.text last) ↔ (
          ((apply_patch workspace call revision ops).1.status ≡ ok)
          × ((apply_patch workspace call revision ops).0
              ≡ record { text = last; revision = next_revision workspace.revision }))
  unfolding apply_patch
  apply_patch-accepts last = (
    λ h. let p = Edits-patch_all workspace.text ops last ne h.1 in (ground arith, ground arith),
    λ h. elim (Patched-cases (patch_all workspace.text ops)) [
      | inl (e, p) ↦ absurd (ground arith)
      | inr (t, p) ↦ (ground arith, patch_all-Edits workspace.text ops last ne (ground arith))
    ],
  )

-- A patch that is not accepted changes neither the text nor the revision.
pub apply_patch-atomic :
    (workspace : ResponseWorkspace) (call : ToolCall) (revision : ℕ)
    (ops : List ResponsePatchOperation)
    → (apply_patch workspace call revision ops).1.status ≢ ok
    → (apply_patch workspace call revision ops).0 ≡ workspace
unfolding apply_patch
apply_patch-atomic workspace call revision ops h = ground arith

-- The limit on the text of a workspace.
abbrev pub Fits : ResponseWorkspace → Type 0
Fits w = byte_len w.text ≤ max_response_workspace_bytes

patch_one-fits :
    (text : Text) (op : ResponsePatchOperation) (next : Text)
    → patch_one text op ≡ patched next
    → byte_len next ≤ max_response_workspace_bytes
unfolding patch_one
patch_one-fits text op next h = (patch_at-patched text op next (match_indices op.search text) h).3

patch_all-fits :
    (text : Text) (ops : List ResponsePatchOperation) (last : Text)
    → byte_len text ≤ max_response_workspace_bytes
    → patch_all text ops ≡ patched last
    → byte_len last ≤ max_response_workspace_bytes
unfolding patch_all
patch_all-fits text [] last f h = ground arith
patch_all-fits text (op ∷ ops) last f h = elim (Patched-cases (patch_one text op)) [
  | inl (e, p) ↦ absurd (ground arith)
  | inr (next, p) ↦ patch_all-fits next ops last (patch_one-fits text op next p) (ground arith)
]

pub apply_patch-Fits :
    (workspace : ResponseWorkspace) (call : ToolCall) (revision : ℕ)
    (ops : List ResponsePatchOperation)
    → Fits workspace
    → Fits (apply_patch workspace call revision ops).0
unfolding apply_patch
apply_patch-Fits workspace call revision ops f =
    elim (Patched-cases (patch_all workspace.text ops)) [
      | inl (e, p) ↦ ground arith
      | inr (t, p) ↦ let g = patch_all-fits workspace.text ops t f p in ground arith
    ]

pub commit_finish-Fits :
    (workspace : ResponseWorkspace) (response : Option Text)
    → Fits workspace
    → Fits (commit_finish workspace response).0
unfolding commit_finish
commit_finish-Fits workspace none f = ground arith
commit_finish-Fits workspace (some text) f = ground arith
