-- ===== src/Tests/FileExamples.antt =====
-- Patches and edits of internal/files at small files.
use mathlib.Core.List.{flatten}
use falken_core.Base.{
  ℕ, ◌+◌, [], ◌∷◌, List, true, false, Option, none, ◌≡◌, ◌≢◌, ◌↔◌, refl, length, All, arith,
}
use falken_core.Base.Text.{Text, codes}
use falken_core.Files.Fallible.{ok, err}
use falken_core.Files.Types.{match_close, EditRequest}
use falken_core.Files.Lines.{split_lines}
use falken_core.Files.Patch.{PatchFile, PatchHunk, removal, addition, context}
use falken_core.Files.Patch.Errors.{out_of_fuel}
use falken_core.Files.Patch.Hunks.{apply_patch_hunks}
use falken_core.Files.Patch.Applies.{Applies, apply_hunks_exact}
use falken_core.Files.Patch.Balance.{old_total, new_total, apply_hunks_balance}
use falken_core.Files.Patch.Parse.{is_blank, parse_unified_patch}
use falken_core.Files.Patch.Parse.Total.{parse_unified_patch-IsDone}
use falken_core.Files.Patch.Parse.Counts.{IsValidFile, parse_unified_patch-IsValid}
use falken_core.Files.Edit.Apply.{apply_exact_edit}
use falken_core.Files.Edit.Exact.{Replaces, apply_exact_edit-Replaces, apply_exact_edit_changed}

abbrev no_quotes : Text → Option Text
no_quotes s = none

abbrev patch : Text
patch =
    codes
      "diff --git a/x b/x\nindex 1..2 100644\n--- a/x\n+++ b/x\n@@ -1,2 +1,3 @@ func\n a\n-b\n+B\n+C\n\\ No newline at end of file\n"

abbrev hunk : PatchHunk
hunk = record {
  old_start = 1;
  old_count = 2;
  new_start = 1;
  new_count = 3;
  lines =
      record { kind = context; text = codes "a\n" }
      ∷ record { kind = removal; text = codes "b\n" }
      ∷ record { kind = addition; text = codes "B\n" }
      ∷ record { kind = addition; text = codes "C" }
      ∷ [];
}

abbrev file : PatchFile
file = record {
  old_path = codes "x";
  new_path = codes "x";
  old_dev_null = false;
  new_dev_null = false;
  new_mode = 0;
  has_new_mode = false;
  saw_mode_metadata = false;
  hunks = hunk ∷ [];
}

parses : parse_unified_patch no_quotes patch ≡ ok (file ∷ [])
unfolding parse_unified_patch split_lines is_blank
parses = refl

parse_unified_patch-IsDone_example : parse_unified_patch no_quotes patch ≢ err out_of_fuel
parse_unified_patch-IsDone_example = parse_unified_patch-IsDone no_quotes patch

parse_unified_patch-IsValid_example : (file ∷ [] ≢ []) × All IsValidFile (file ∷ [])
parse_unified_patch-IsValid_example = parse_unified_patch-IsValid no_quotes patch (file ∷ []) parses

abbrev content : Text
content = codes "a\nb\n"

abbrev patched : Text
patched = codes "a\nB\nC"

applied : apply_patch_hunks content (hunk ∷ []) ≡ ok patched
unfolding apply_patch_hunks split_lines flatten
applied = refl

apply_hunks_exact_example : (apply_patch_hunks content (hunk ∷ []) ≡ ok patched) ↔ (
    (out : List Text) × Applies 0 (hunk ∷ []) (split_lines content) out × (patched ≡ flatten out))
apply_hunks_exact_example = apply_hunks_exact content (hunk ∷ []) patched

abbrev ended_hunk : PatchHunk
ended_hunk = record {
  old_start = 1;
  old_count = 1;
  new_start = 1;
  new_count = 2;
  lines =
      record { kind = context; text = codes "a\n" }
      ∷ record { kind = addition; text = codes "A\n" }
      ∷ [];
}

applied_ended : apply_patch_hunks content (ended_hunk ∷ []) ≡ ok (codes "a\nA\nb\n")
unfolding apply_patch_hunks split_lines flatten
applied_ended = refl

apply_hunks_balance_example :
    length (split_lines (codes "a\nA\nb\n")) + old_total (ended_hunk ∷ [])
    ≡ length (split_lines content) + new_total (ended_hunk ∷ [])
unfolding split_lines
apply_hunks_balance_example =
    apply_hunks_balance content (ended_hunk ∷ []) (codes "a\nA\nb\n") ((refl, refl), tt)
      (((ground arith, refl), ((ground arith, refl), tt)), tt)
      ((ground arith, refl), ((ground arith, refl), tt)) applied_ended

abbrev no_distance : Text → Text → ℕ
no_distance s t = 100

abbrev sample_edit : EditRequest
sample_edit = record {
  path = codes "x";
  current_working_dir = [];
  old = codes "b c";
  new = codes "d";
  replace_all = false;
  match_strategy = match_close;
  approval_required = false;
}

apply_exact_edit-Replaces_example :
    Replaces sample_edit
      (codes "a b  c a")
      (apply_exact_edit no_distance (codes "a b  c a") sample_edit 0)
apply_exact_edit-Replaces_example =
    apply_exact_edit-Replaces no_distance (codes "a b  c a") sample_edit 0
      (unfold apply_exact_edit in refl)

apply_exact_edit_changed_example :
    ((apply_exact_edit no_distance (codes "a b  c a") sample_edit 0).1.changed ≡ true)
    ↔ ((apply_exact_edit no_distance (codes "a b  c a") sample_edit 0).0 ≢ codes "a b  c a")
apply_exact_edit_changed_example =
    apply_exact_edit_changed no_distance (codes "a b  c a") sample_edit 0
