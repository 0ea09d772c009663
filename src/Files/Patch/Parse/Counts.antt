-- ===== src/Files/Patch/Parse/Counts.antt =====
-- What the parser of internal/files/patch.go lets pass: files with hunks that count their lines.
use falken_core.Base.{
  ℕ, zero, suc, List, [], ◌∷◌, ◌++◌, true, Option, ◌≡◌, ◌≢◌, inl, inr, refl, subst, sym, arith,
  length, Bool-cases, is_nil, All, All-append, ◌∙◌,
}
use falken_core.Base.Text.{Text, codes, has_prefix, trim_space}
use falken_core.Files.Fallible.{
  Fallible, ok, err, and_then, and_then_ok, if_both, ok_pair_injective,
}
use falken_core.Files.Lines.{split_lines}
use falken_core.Files.Patch.{PatchLine, PatchHunk, PatchFile}
use falken_core.Files.Patch.Errors.{PatchError}
use falken_core.Files.Patch.Sides.{old_side, new_side}
use falken_core.Files.Patch.Tokens.{
  parse_diff_git_header, parse_patch_path, path_marker_value, trim_line_ending,
}
use falken_core.Files.Patch.Headers.{
  parse_patch_mode_metadata, mode_after, with_mode, match_hunk_header,
}
use falken_core.Files.Patch.Parse.{
  count_old, count_new, collect_hunk_lines, validate_patch_hunk_counts, hunk_of_groups, finish_hunk,
  parse_patch_hunk, Reading, validate_parsed_patch_file, FileLine, next_file, rename_line,
  copy_line, binary_line, mode_line, old_marker, new_marker, hunk_header, skipped, unsupported,
  is_blank, starts_file, classify_file_line, set_old, set_new, file_round, parse_file_lines,
  start_file, parse_patch_file, parse_files, parse_unified_patch,
}

-- The counts of the header are those of the lines.
abbrev pub IsCounted : PatchHunk → Type 0
IsCounted hunk =
    (hunk.old_count ≡ length (old_side hunk.lines))
    × (hunk.new_count ≡ length (new_side hunk.lines))

abbrev pub IsValidFile : PatchFile → Type 0
IsValidFile file = (file.hunks ≢ []) × All IsCounted file.hunks

count_old-length : (lines : List PatchLine) → count_old lines ≡ length (old_side lines)
unfolding count_old
count_old-length [] = refl
count_old-length (line ∷ lines) = ground (arith, count_old-length lines)

count_new-length : (lines : List PatchLine) → count_new lines ≡ length (new_side lines)
unfolding count_new
count_new-length [] = refl
count_new-length (line ∷ lines) = ground (arith, count_new-length lines)

validate_counts-IsCounted :
    (hunk whole : PatchHunk) → validate_patch_hunk_counts hunk ≡ ok whole → IsCounted whole
unfolding validate_patch_hunk_counts
validate_counts-IsCounted hunk whole h =
    let old = count_old-length hunk.lines in
    let new = count_new-length hunk.lines in
    let same : hunk ≡ whole = ground arith in subst IsCounted same (ground arith, ground arith)

finish_hunk-IsCounted :
    (hunk whole : PatchHunk) (left left' : List Text)
    → finish_hunk hunk left ≡ ok (whole, left')
    → IsCounted whole
unfolding finish_hunk
finish_hunk-IsCounted hunk whole left left' h =
    let (done, p, q) = and_then_ok (validate_patch_hunk_counts hunk) _ (whole, left') h in
    subst IsCounted (ok_pair_injective q).0 (validate_counts-IsCounted hunk done p)

parse_patch_hunk-IsCounted :
    (header : Text) (lines left : List Text) (hunk : PatchHunk)
    → parse_patch_hunk header lines ≡ ok (hunk, left)
    → IsCounted hunk
unfolding parse_patch_hunk
parse_patch_hunk-IsCounted header lines left hunk h =
    let (empty, p, h1) =
      and_then_ok (hunk_of_groups (match_hunk_header (trim_line_ending header))) _ (hunk, left) h in
    let ((found, left'), q, h2) = and_then_ok (collect_hunk_lines [] lines) _ (hunk, left) h1 in
    finish_hunk-IsCounted (record empty { lines = found }) hunk left' left h2

validate_file_sound :
    (reading : Reading) (file : PatchFile)
    → validate_parsed_patch_file reading ≡ ok file
    → (file ≡ reading.file) × (reading.file.hunks ≢ [])
unfolding validate_parsed_patch_file
validate_file_sound reading file h = (ground arith, λ e. ground arith)

-- A result with the hunks given.
abbrev Keeps : List PatchHunk → Fallible PatchError PatchFile → Type 0
Keeps hunks r = (file : PatchFile) → r ≡ ok file → file.hunks ≡ hunks

then-Keeps :
    (r : Fallible PatchError ℕ) (next : ℕ → PatchFile) (hunks : List PatchHunk)
    → ((mode : ℕ) → (next mode).hunks ≡ hunks)
    → Keeps hunks (and_then r (λ mode. ok (next mode)))
then-Keeps (ok mode) next hunks same file h = ground (arith, same mode)
then-Keeps (err e) next hunks same file h = absurd (cc)

parse_mode-Keeps :
    (line : Text) (file : PatchFile) → Keeps file.hunks (parse_patch_mode_metadata line file)
unfolding parse_patch_mode_metadata
parse_mode-Keeps line file =
    let file' : PatchFile = record file { saw_mode_metadata = true } in
    let P = Keeps file.hunks in
    let set = λ (prefix : Text).
      then-Keeps (mode_after line prefix) (with_mode file') file.hunks (λ mode. refl) in
    let same = λ (prefix : Text).
      then-Keeps (mode_after line prefix) (λ mode. file') file.hunks (λ mode. refl) in
    if_both P (has_prefix line (codes "new file mode ")) _ _ (set (codes "new file mode ")) (
      if_both P (has_prefix line (codes "new mode ")) _ _ (set (codes "new mode ")) (
        if_both P (has_prefix line (codes "old mode ")) _ _ (same (codes "old mode ")) (
          if_both P (has_prefix line (codes "deleted file mode ")) _ _
            (same (codes "deleted file mode ")) (λ whole h. ground arith))))

abbrev Counted : PatchFile → Type 0
Counted file = All IsCounted file.hunks

abbrev IsSound : Fallible PatchError (PatchFile × List Text) → Type 0
IsSound r = (file : PatchFile) (left : List Text) → r ≡ ok (file, left) → IsValidFile file

validated-IsSound :
    (reading : Reading) (lines : List Text)
    → Counted reading.file
    → IsSound (and_then (validate_parsed_patch_file reading) (λ file. ok (file, lines)))
validated-IsSound reading lines counted file left h =
    let (file', p, q) = and_then_ok (validate_parsed_patch_file reading) _ (file, left) h in
    let (same, some_hunks) = validate_file_sound reading file' p in
    subst IsValidFile (sym same ∙ (ok_pair_injective q).0) (some_hunks, counted)

module _ (unquote : Text → Option Text) where
  set_old_hunks :
      (reading reading' : Reading) (value : Text)
      → set_old unquote reading value ≡ ok reading'
      → reading'.file.hunks ≡ reading.file.hunks
  unfolding set_old
  set_old_hunks reading reading' value h =
      let (path, p, q) =
        and_then_ok (parse_patch_path unquote (path_marker_value value)) _ reading' h in
      ground arith

  set_new_hunks :
      (reading reading' : Reading) (value : Text)
      → set_new unquote reading value ≡ ok reading'
      → reading'.file.hunks ≡ reading.file.hunks
  unfolding set_new
  set_new_hunks reading reading' value h =
      let (path, p, q) =
        and_then_ok (parse_patch_path unquote (path_marker_value value)) _ reading' h in
      ground arith

  round-IsSound :
      (next : Reading → List Text → Fallible PatchError (PatchFile × List Text))
      → ((reading : Reading) (lines : List Text)
          → Counted reading.file
          → IsSound (next reading lines))
      → (reading : Reading) (line : Text) (lines : List Text) (test : FileLine)
      → Counted reading.file
      → IsSound (file_round unquote next reading line lines test)
  unfolding file_round
  round-IsSound next ih reading line lines next_file counted file left h =
      validated-IsSound reading (line ∷ lines) counted file left h
  round-IsSound next ih reading line lines rename_line counted file left h = absurd (cc)
  round-IsSound next ih reading line lines copy_line counted file left h = absurd (cc)
  round-IsSound next ih reading line lines binary_line counted file left h = absurd (cc)
  round-IsSound next ih reading line lines mode_line counted file left h =
      let mode = parse_patch_mode_metadata (trim_line_ending line) reading.file in
      let (file', p, q) = and_then_ok mode _ (file, left) h in
      let same = parse_mode-Keeps (trim_line_ending line) reading.file file' p in
      ih _ lines (subst (All IsCounted) (sym same) counted) file left q
  round-IsSound next ih reading line lines (old_marker value) counted file left h =
      let (reading', p, q) = and_then_ok (set_old unquote reading value) _ (file, left) h in
      let same = set_old_hunks reading reading' value p in
      ih reading' lines (subst (All IsCounted) (sym same) counted) file left q
  round-IsSound next ih reading line lines (new_marker value) counted file left h =
      let (reading', p, q) = and_then_ok (set_new unquote reading value) _ (file, left) h in
      let same = set_new_hunks reading reading' value p in
      ih reading' lines (subst (All IsCounted) (sym same) counted) file left q
  round-IsSound next ih reading line lines hunk_header counted file left h =
      let ((hunk, left'), p, q) = and_then_ok (parse_patch_hunk line lines) _ (file, left) h in
      let new = parse_patch_hunk-IsCounted line lines left' hunk p in
      ih _ left' (All-append IsCounted reading.file.hunks (hunk ∷ []) counted (new, tt)) file left q
  round-IsSound next ih reading line lines skipped counted file left h =
      ih reading lines counted file left h
  round-IsSound next ih reading line lines unsupported counted file left h = absurd (cc)

  parse_file_lines-IsSound :
      (fuel : ℕ) (reading : Reading) (lines : List Text)
      → Counted reading.file
      → IsSound (parse_file_lines unquote fuel reading lines)
  unfolding parse_file_lines
  parse_file_lines-IsSound fuel reading [] counted file left h =
      validated-IsSound reading [] counted file left h
  parse_file_lines-IsSound zero reading (line ∷ lines) counted file left h = absurd (cc)
  parse_file_lines-IsSound (suc fuel) reading (line ∷ lines) counted file left h =
      round-IsSound (parse_file_lines unquote fuel) (parse_file_lines-IsSound fuel) reading line
        lines (classify_file_line line) counted file left h

  start_hunks :
      (header : Text) (reading : Reading)
      → start_file unquote header ≡ ok reading
      → reading.file.hunks ≡ []
  unfolding start_file
  start_hunks header reading h =
      let ((old, new), p, h1) = and_then_ok (parse_diff_git_header header) _ reading h in
      let (path, q, h2) = and_then_ok (parse_patch_path unquote old) _ reading h1 in
      let (path', r, h3) = and_then_ok (parse_patch_path unquote new) _ reading h2 in ground arith

  parse_patch_file-IsValidFile :
      (fuel : ℕ) (header : Text) (lines left : List Text) (file : PatchFile)
      → parse_patch_file unquote fuel header lines ≡ ok (file, left)
      → IsValidFile file
  unfolding parse_patch_file
  parse_patch_file-IsValidFile fuel header lines left file h =
      let (reading, p, q) = and_then_ok (start_file unquote header) _ (file, left) h in
      parse_file_lines-IsSound fuel reading lines
        (subst (All IsCounted) (sym (start_hunks header reading p)) tt) file left q

  parse_files_valid :
      (fuel : ℕ) (found files : List PatchFile) (lines : List Text)
      → All IsValidFile found
      → parse_files unquote fuel found lines ≡ ok files
      → (files ≢ []) × All IsValidFile files
  unfolding parse_files
  parse_files_valid fuel found files [] valid h =
      let same : found ≡ files = ground arith in
      subst (λ fs. (fs ≢ []) × All IsValidFile fs) same (λ e. ground arith, valid)
  parse_files_valid zero found files (line ∷ lines) valid h = absurd (cc)
  parse_files_valid (suc fuel) found files (line ∷ lines) valid h =
      elim (Bool-cases (is_blank line)) [
        | inl blank ↦ parse_files_valid fuel found files lines valid (rw (blank, parse_files) at h)
        | inr text ↦ elim (Bool-cases (starts_file line)) [
          | inr other ↦ absurd (ground arith)
          | inl header ↦
              let ((file, left), p, q) =
                and_then_ok (parse_patch_file unquote (length lines) line lines) _ files
                  (rw (text, header, parse_files) at h) in
              let new = parse_patch_file-IsValidFile (length lines) line lines left file p in
              parse_files_valid fuel (found ++ (file ∷ [])) files left
                (All-append IsValidFile found (file ∷ []) valid (new, tt)) q
        ]
      ]

  -- A patch that the parser takes has files, every file has hunks, and the counts in the header of every
  -- hunk are those of its lines on the two sides.
  pub parse_unified_patch-IsValid :
      (patch : Text) (files : List PatchFile)
      → parse_unified_patch unquote patch ≡ ok files
      → (files ≢ []) × All IsValidFile files
  unfolding parse_unified_patch
  parse_unified_patch-IsValid patch files h =
      let P = λ (r : Fallible PatchError (List PatchFile)).
        r ≡ ok files → (files ≢ []) × All IsValidFile files in
      let run = parse_files_valid (length (split_lines patch)) [] files (split_lines patch) tt in
      if_both P (is_nil (trim_space patch)) _ _ (λ p. absurd (cc))
        (if_both P (has_prefix (trim_space patch) (codes "*** Begin Patch")) _ _ (λ p. absurd (cc))
          run)
        h
