-- ===== src/Files/Patch/Errors.antt =====
-- The failures of the parser of internal/files/patch.go, by their messages.
use falken_core.Base.Text.{Text}

-- `out_of_fuel` is of the model: the parser has fuel for every line, and Files/Patch/Parse/Total shows
-- that it is enough.
pub data PatchError : Type 0 where
  patch_is_empty unsupported_envelope expected_diff_header no_file_changes : PatchError
  malformed_diff_header : PatchError
  path_required malformed_quoted_path : PatchError
  rename_not_supported copy_not_supported binary_not_supported : PatchError
  unsupported_file_mode : Text → PatchError
  malformed_hunk_header hunk_start_out_of_range hunk_count_out_of_range : PatchError
  empty_hunk_line malformed_hunk_line old_count_mismatch new_count_mismatch : PatchError
  missing_path_markers mode_only no_hunks : PatchError
  unsupported_line : Text → PatchError
  both_dev_null : PatchError
  out_of_fuel : PatchError
