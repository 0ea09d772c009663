-- ===== src/Files/Patch/Parse.antt =====
-- The parser of internal/files/patch.go. The lines from the index on are a list, so a function gives
-- back the lines that it leaves where the source gives an index.
pub mod Total
pub mod Counts
use falken_core.Base.{
  ℕ, zero, suc, ◌+◌, List, [], ◌∷◌, ◌++◌, Bool, true, false, not, ◌&&◌, ◌||◌, Option, none, some,
  ◌≡◌, refl, if◌then◌else◌, ◌==◌, length, drop, is_nil,
}
use falken_core.Base.Text.{Text, codes, has_prefix, text_eq, trim_space}
use falken_core.Files.Fallible.{Fallible, ok, err, and_then}
use falken_core.Files.Lines.{split_lines}
use falken_core.Files.Patch.{LineKind, context, removal, addition, PatchLine, PatchHunk, PatchFile}
use falken_core.Files.Patch.Errors.{
  PatchError, patch_is_empty, unsupported_envelope, expected_diff_header, no_file_changes,
  rename_not_supported, copy_not_supported, binary_not_supported, malformed_hunk_header,
  empty_hunk_line, malformed_hunk_line, old_count_mismatch, new_count_mismatch,
  missing_path_markers, mode_only, no_hunks, unsupported_line, out_of_fuel,
}
use falken_core.Files.Patch.Tokens.{
  trim_line_ending, path_marker_value, parse_diff_git_header, parse_patch_path,
}
use falken_core.Files.Patch.Headers.{
  match_hunk_header, parse_patch_range, is_known_patch_metadata, is_patch_mode_metadata,
  parse_patch_mode_metadata,
}

unfoldable pub starts_file : Text → Bool
unfolding has_prefix
starts_file line = has_prefix line (codes "diff --git ")

-- The tests of the loop of parsePatchHunk, in its order.
pub data BodyLine : Type 0 where
  body_end no_newline_marker : BodyLine
  body_line : LineKind → Text → BodyLine
  bad_body_line : PatchError → BodyLine

unfoldable pub body_kind : Text → BodyLine
body_kind [] = bad_body_line empty_hunk_line
body_kind (c ∷ text) =
    if c == b' '
    then body_line context text
    else if c == b'-'
    then body_line removal text
    else if c == b'+'
    then body_line addition text
    else bad_body_line malformed_hunk_line

unfoldable pub classify_body_line : Text → BodyLine
unfolding starts_file trim_line_ending has_prefix text_eq body_kind
classify_body_line line =
    let trimmed = trim_line_ending line in
    if starts_file line || has_prefix trimmed (codes "@@ ")
    then body_end
    else if text_eq trimmed (codes "\\ No newline at end of file")
    then no_newline_marker
    else body_kind line

-- hunk.lines[last].text = trimLineEnding(hunk.lines[last].text)
unfoldable pub trim_last : List PatchLine → List PatchLine
unfolding trim_line_ending
trim_last [] = []
trim_last (line ∷ []) = record line { text = trim_line_ending line.text } ∷ []
trim_last (line ∷ (next ∷ lines)) = line ∷ trim_last (next ∷ lines)

unfoldable pub collect_hunk_lines :
    List PatchLine → List Text → Fallible PatchError (List PatchLine × List Text)
unfolding classify_body_line trim_last
collect_hunk_lines found [] = ok (found, [])
collect_hunk_lines found (line ∷ lines) = elim (classify_body_line line) [
  | body_end ↦ ok (found, line ∷ lines)
  | no_newline_marker ↦ collect_hunk_lines (trim_last found) lines
  | body_line kind text ↦
      collect_hunk_lines (found ++ (record { kind = kind; text = text } ∷ [])) lines
  | bad_body_line e ↦ err e
]

-- The counts of validatePatchHunkCounts.
unfoldable pub count_old : List PatchLine → ℕ
count_old [] = 0
count_old (line ∷ lines) = elim line.kind [ addition ↦ count_old lines | _ ↦ suc (count_old lines) ]

unfoldable pub count_new : List PatchLine → ℕ
count_new [] = 0
count_new (line ∷ lines) = elim line.kind [ removal ↦ count_new lines | _ ↦ suc (count_new lines) ]

unfoldable pub validate_patch_hunk_counts : PatchHunk → Fallible PatchError PatchHunk
unfolding count_old count_new
validate_patch_hunk_counts hunk =
    if not (count_old hunk.lines == hunk.old_count)
    then err old_count_mismatch
    else if not (count_new hunk.lines == hunk.new_count)
    then err new_count_mismatch
    else ok hunk

-- The hunk of a header's groups, with no lines yet.
unfoldable pub hunk_of_groups :
    Option ((Text × Text) × (Text × Text)) → Fallible PatchError PatchHunk
unfolding parse_patch_range
hunk_of_groups none = err malformed_hunk_header
hunk_of_groups (some (old, new)) =
    and_then (parse_patch_range old.0 old.1) (λ (old_start, old_count).
      and_then (parse_patch_range new.0 new.1) (λ (new_start, new_count). ok (record {
        old_start = old_start;
        old_count = old_count;
        new_start = new_start;
        new_count = new_count;
        lines = [];
      })))

unfoldable pub finish_hunk : PatchHunk → List Text → Fallible PatchError (PatchHunk × List Text)
unfolding validate_patch_hunk_counts
finish_hunk hunk left = and_then (validate_patch_hunk_counts hunk) (λ whole. ok (whole, left))

unfoldable pub parse_patch_hunk : Text → List Text → Fallible PatchError (PatchHunk × List Text)
unfolding trim_line_ending match_hunk_header hunk_of_groups collect_hunk_lines finish_hunk
parse_patch_hunk header lines =
    and_then (hunk_of_groups (match_hunk_header (trim_line_ending header))) (λ hunk.
      and_then (collect_hunk_lines [] lines)
        (λ (found, left). finish_hunk (record hunk { lines = found }) left))

-- A file that is being read, with the markers seen so far.
pub record Reading : Type 0 where
  pub file : PatchFile
  pub saw_old_marker : Bool
  pub saw_new_marker : Bool

unfoldable pub validate_parsed_patch_file : Reading → Fallible PatchError PatchFile
validate_parsed_patch_file reading =
    if not reading.saw_old_marker || not reading.saw_new_marker
    then err missing_path_markers
    else if is_nil reading.file.hunks
    then if reading.file.saw_mode_metadata then err mode_only else err no_hunks
    else ok reading.file

-- The cases of the loop of parsePatchFile, in its order; a marker with the text after it.
pub data FileLine : Type 0 where
  next_file rename_line copy_line binary_line mode_line : FileLine
  old_marker new_marker : Text → FileLine
  hunk_header skipped unsupported : FileLine

unfoldable pub classify_file_line : Text → FileLine
unfolding starts_file trim_line_ending has_prefix text_eq trim_space is_patch_mode_metadata
    is_known_patch_metadata
classify_file_line raw =
    let line = trim_line_ending raw in
    if starts_file raw
    then next_file
    else if has_prefix line (codes "rename from ") || has_prefix line (codes "rename to ")
    then rename_line
    else if has_prefix line (codes "copy from ") || has_prefix line (codes "copy to ")
    then copy_line
    else if text_eq line (codes "GIT binary patch") || has_prefix line (codes "Binary files ")
    then binary_line
    else if is_patch_mode_metadata line
    then mode_line
    else if has_prefix line (codes "--- ")
    then old_marker (drop 4 line)
    else if has_prefix line (codes "+++ ")
    then new_marker (drop 4 line)
    else if has_prefix line (codes "@@ ")
    then hunk_header
    else if is_known_patch_metadata line || is_nil (trim_space line)
    then skipped
    else unsupported

unfoldable pub is_blank : Text → Bool
unfolding trim_space
is_blank line = is_nil (trim_space line)

module _ (unquote : Text → Option Text) where
  unfoldable pub set_old : Reading → Text → Fallible PatchError Reading
  unfolding path_marker_value parse_patch_path
  set_old reading value =
      and_then (parse_patch_path unquote (path_marker_value value)) (λ (path, dev_null).
        ok (record {
          file = record reading.file { old_path = path; old_dev_null = dev_null };
          saw_old_marker = true;
          saw_new_marker = reading.saw_new_marker;
        }))

  unfoldable pub set_new : Reading → Text → Fallible PatchError Reading
  unfolding path_marker_value parse_patch_path
  set_new reading value =
      and_then (parse_patch_path unquote (path_marker_value value)) (λ (path, dev_null).
        ok (record {
          file = record reading.file { new_path = path; new_dev_null = dev_null };
          saw_old_marker = reading.saw_old_marker;
          saw_new_marker = true;
        }))

  -- One round of the loop of parsePatchFile at a line, with the lines after it; `next` is the loop.
  unfoldable pub file_round :
      (Reading → List Text → Fallible PatchError (PatchFile × List Text))
      → Reading
      → Text
      → List Text
      → FileLine
      → Fallible PatchError (PatchFile × List Text)
  unfolding validate_parsed_patch_file parse_patch_mode_metadata trim_line_ending set_old set_new
      parse_patch_hunk
  file_round next reading line lines next_file =
      and_then (validate_parsed_patch_file reading) (λ file. ok (file, line ∷ lines))
  file_round next reading line lines rename_line = err rename_not_supported
  file_round next reading line lines copy_line = err copy_not_supported
  file_round next reading line lines binary_line = err binary_not_supported
  file_round next reading line lines mode_line =
      and_then (parse_patch_mode_metadata (trim_line_ending line) reading.file)
        (λ file. next (record reading { file = file }) lines)
  file_round next reading line lines (old_marker value) =
      and_then (set_old reading value) (λ reading'. next reading' lines)
  file_round next reading line lines (new_marker value) =
      and_then (set_new reading value) (λ reading'. next reading' lines)
  file_round next reading line lines hunk_header =
      and_then (parse_patch_hunk line lines) (λ (hunk, left).
        let file : PatchFile = record reading.file { hunks = reading.file.hunks ++ (hunk ∷ []) } in
        next (record reading { file = file }) left)
  file_round next reading line lines skipped = next reading lines
  file_round next reading line lines unsupported = err (unsupported_line (trim_line_ending line))

  unfoldable pub parse_file_lines :
      ℕ → Reading → List Text → Fallible PatchError (PatchFile × List Text)
  unfolding classify_file_line validate_parsed_patch_file file_round
  parse_file_lines fuel reading [] =
      and_then (validate_parsed_patch_file reading) (λ file. ok (file, []))
  parse_file_lines zero reading (line ∷ lines) = err out_of_fuel
  parse_file_lines (suc fuel) reading (line ∷ lines) =
      file_round (parse_file_lines fuel) reading line lines (classify_file_line line)

  -- The file of a header, with its paths.
  unfoldable pub start_file : Text → Fallible PatchError Reading
  unfolding parse_diff_git_header parse_patch_path
  start_file header = and_then (parse_diff_git_header header) (λ (old_raw, new_raw).
      and_then (parse_patch_path unquote old_raw) (λ (old_path, old_dev_null).
        and_then (parse_patch_path unquote new_raw) (λ (new_path, new_dev_null). ok (record {
          file = record {
            old_path = old_path;
            new_path = new_path;
            old_dev_null = old_dev_null;
            new_dev_null = new_dev_null;
            new_mode = 0;
            has_new_mode = false;
            saw_mode_metadata = false;
            hunks = [];
          };
          saw_old_marker = false;
          saw_new_marker = false;
        }))))

  unfoldable pub parse_patch_file :
      ℕ → Text → List Text → Fallible PatchError (PatchFile × List Text)
  unfolding start_file parse_file_lines
  parse_patch_file fuel header lines =
      and_then (start_file header) (λ reading. parse_file_lines fuel reading lines)

  unfoldable pub parse_files : ℕ → List PatchFile → List Text → Fallible PatchError (List PatchFile)
  unfolding starts_file parse_patch_file
  parse_files fuel files [] = if is_nil files then err no_file_changes else ok files
  parse_files zero files (line ∷ lines) = err out_of_fuel
  parse_files (suc fuel) files (line ∷ lines) = elim (is_blank line) [
    | true ↦ parse_files fuel files lines
    | false ↦ elim (starts_file line) [
      | false ↦ err expected_diff_header
      | true ↦
          and_then (parse_patch_file (length lines) line lines)
            (λ (file, left). parse_files fuel (files ++ (file ∷ [])) left)
    ]
  ]

  unfoldable pub parse_unified_patch : Text → Fallible PatchError (List PatchFile)
  unfolding trim_space has_prefix parse_files
  parse_unified_patch patch =
      if is_nil (trim_space patch)
      then err patch_is_empty
      else if has_prefix (trim_space patch) (codes "*** Begin Patch")
      then err unsupported_envelope
      else let lines = split_lines patch in parse_files (length lines) [] lines
