-- ===== src/Files/Patch/Hunks.antt =====
-- applyPatchHunks of internal/files/patch.go. The lines from the position on are a list of their own,
-- `rest`, and the position is their count from the start of the file.
use mathlib.Core.List.{flatten}
use falken_core.Base.{
  ℕ, ◌+◌, ◌-◌, List, [], ◌∷◌, ◌++◌, ◌||◌, if◌then◌else◌, ◌==◌, ltb, length, take, drop,
}
use falken_core.Base.Int.{ℤ, pos, negsuc}
use falken_core.Base.Text.{Text, text_eq}
use falken_core.Files.Fallible.{Fallible, ok, err, and_then}
use falken_core.Files.Lines.{split_lines}
use falken_core.Files.Patch.{context, removal, addition, PatchLine, PatchHunk}

pub data HunkError : Type 0 where
  outside_content context_mismatch removal_mismatch : HunkError

abbrev pub Applied : Type 0 → Type 0
Applied A = Fallible HunkError A

-- The old start counts from 1, but where the hunk has no old lines it is the line before.
unfoldable pub patch_old_start_index : PatchHunk → ℤ
patch_old_start_index hunk =
    if hunk.old_count == 0
    then pos hunk.old_start
    else if hunk.old_start == 0
    then negsuc 0
    else pos (hunk.old_start - 1)

-- What the lines of a hunk put out, and what they leave.
unfoldable pub apply_hunk_lines : List PatchLine → List Text → Applied (List Text × List Text)
unfolding text_eq
apply_hunk_lines [] rest = ok ([], rest)
apply_hunk_lines (line ∷ lines) rest = elim line.kind [
  | context ↦ elim rest [
    | [] ↦ err context_mismatch
    | x ∷ rest' ↦
        if text_eq x line.text
        then and_then (apply_hunk_lines lines rest') (λ (out, left). ok (x ∷ out, left))
        else err context_mismatch
  ]
  | removal ↦ elim rest [
    | [] ↦ err removal_mismatch
    | x ∷ rest' ↦ if text_eq x line.text then apply_hunk_lines lines rest' else err removal_mismatch
  ]
  | addition ↦ and_then (apply_hunk_lines lines rest) (λ (out, left). ok (line.text ∷ out, left))
]

-- The lines up to the start, which go out as they are, and those from it on: an error where
-- start < pos || start > len(lines).
unfoldable pub advance : ℤ → ℕ → List Text → Applied (List Text × List Text)
advance (pos start) at rest =
    if ltb start at || ltb (at + length rest) start
    then err outside_content
    else ok (take (start - at) rest, drop (start - at) rest)
advance (negsuc n) at rest = err outside_content

unfoldable pub apply_hunks_from : ℕ → List Text → List PatchHunk → Applied (List Text)
unfolding advance patch_old_start_index apply_hunk_lines
apply_hunks_from at rest [] = ok rest
apply_hunks_from at rest (hunk ∷ hunks) =
    and_then (advance (patch_old_start_index hunk) at rest) (λ (gap, from).
      and_then (apply_hunk_lines hunk.lines from) (λ (out, left).
        and_then (apply_hunks_from (at + length rest - length left) left hunks)
          (λ tail. ok (gap ++ (out ++ tail)))))

unfoldable pub apply_patch_hunks : Text → List PatchHunk → Applied Text
unfolding apply_hunks_from
apply_patch_hunks content hunks =
    and_then (apply_hunks_from 0 (split_lines content) hunks) (λ out. ok (flatten out))
