-- ===== src/Files/Patch/Parse/Total.antt =====
-- The loops of the parser of internal/files/patch.go end: every round takes a line.
use falken_core.Base.{
  ℕ, zero, suc, ◌≤◌, List, [], ◌∷◌, ◌++◌, Bool, true, false, Option, none, some, ◌≡◌, ◌≢◌, ◌⊎◌, inl,
  inr, refl, subst, arith, if◌then◌else◌, length, Bool-cases, is_nil,
}
use falken_core.Base.Text.{Text, codes, has_prefix, trim_space}
use falken_core.Files.Fallible.{
  Fallible, ok, err, and_then, and_then_ok, if_both, ok_pair_injective,
}
use falken_core.Files.Lines.{split_lines}
use falken_core.Files.Patch.{LineKind, PatchLine, PatchHunk, PatchFile}
use falken_core.Files.Patch.Errors.{PatchError, out_of_fuel}
use falken_core.Files.Patch.Tokens.{
  parse_diff_git_header, parse_patch_path, unquoted, path_marker_value, trim_line_ending,
}
use falken_core.Files.Patch.Headers.{
  parse_patch_mode_metadata, mode_after, with_mode, parse_git_file_mode, parse_patch_range,
  match_hunk_header,
}
use falken_core.Files.Patch.Parse.{
  BodyLine, body_end, no_newline_marker, body_line, bad_body_line, body_kind, classify_body_line,
  trim_last, collect_hunk_lines, validate_patch_hunk_counts, hunk_of_groups, finish_hunk,
  parse_patch_hunk, Reading, validate_parsed_patch_file, starts_file, is_blank, FileLine, next_file,
  rename_line, copy_line, binary_line, mode_line, old_marker, new_marker, hunk_header, skipped,
  unsupported, classify_file_line, set_old, set_new, file_round, parse_file_lines, start_file,
  parse_patch_file, parse_files, parse_unified_patch,
}

-- The outcome is another than the end of the fuel.
abbrev pub IsDone : {A : Type 0} → Fallible PatchError A → Type 0
IsDone r = r ≢ err out_of_fuel

and_then-IsDone :
    {A B : Type 0} (r : Fallible PatchError A) (next : A → Fallible PatchError B)
    → IsDone r
    → ((a : A) → r ≡ ok a → IsDone (next a))
    → IsDone (and_then r next)
and_then-IsDone (ok a) next h k = k a refl
and_then-IsDone (err e) next h k = λ p. h (ground arith)

ok-IsDone : {A : Type 0} (a : A) → IsDone (ok a)
ok-IsDone a = cc

parse_diff_git_header-IsDone : (line : Text) → IsDone (parse_diff_git_header line)
unfolding parse_diff_git_header
parse_diff_git_header-IsDone line = ground arith

parse_patch_range-IsDone : (start count : Text) → IsDone (parse_patch_range start count)
unfolding parse_patch_range
parse_patch_range-IsDone start count = ground arith

validate_counts-IsDone : (hunk : PatchHunk) → IsDone (validate_patch_hunk_counts hunk)
unfolding validate_patch_hunk_counts
validate_counts-IsDone hunk = ground arith

validate_file-IsDone : (reading : Reading) → IsDone (validate_parsed_patch_file reading)
unfolding validate_parsed_patch_file
validate_file-IsDone reading = ground arith

mode_after-IsDone : (line prefix : Text) → IsDone (mode_after line prefix)
unfolding mode_after parse_git_file_mode
mode_after-IsDone line prefix = ground arith

mode_then-IsDone :
    (line prefix : Text) (next : ℕ → PatchFile)
    → IsDone (and_then (mode_after line prefix) (λ mode. ok (next mode)))
mode_then-IsDone line prefix next =
    and_then-IsDone (mode_after line prefix) _ (mode_after-IsDone line prefix)
      (λ mode h. ok-IsDone (next mode))

parse_mode-IsDone : (line : Text) (file : PatchFile) → IsDone (parse_patch_mode_metadata line file)
unfolding parse_patch_mode_metadata
parse_mode-IsDone line file =
    let file' : PatchFile = record file { saw_mode_metadata = true } in
    let new_file = mode_then-IsDone line (codes "new file mode ") (with_mode file') in
    let new = mode_then-IsDone line (codes "new mode ") (with_mode file') in
    let old = mode_then-IsDone line (codes "old mode ") (λ mode. file') in
    let deleted = mode_then-IsDone line (codes "deleted file mode ") (λ mode. file') in
    if_both IsDone (has_prefix line (codes "new file mode ")) _ _ new_file (
      if_both IsDone (has_prefix line (codes "new mode ")) _ _ new (
        if_both IsDone (has_prefix line (codes "old mode ")) _ _ old (
          if_both IsDone (has_prefix line (codes "deleted file mode ")) _ _ deleted
            (ok-IsDone file'))))

-- The test of a line is one of its four.
body_cases :
    (b : BodyLine)
    → (b ≡ body_end)
      ⊎ ((b ≡ no_newline_marker)
          ⊎ (((kind : LineKind) × (text : Text) × (b ≡ body_line kind text))
              ⊎ ((e : PatchError) × (b ≡ bad_body_line e))))
body_cases body_end = inl refl
body_cases no_newline_marker = inr (inl refl)
body_cases (body_line kind text) = inr (inr (inl (kind, text, refl)))
body_cases (bad_body_line e) = inr (inr (inr (e, refl)))

body_kind-IsDone :
    (line : Text) (e : PatchError) → body_kind line ≡ bad_body_line e → e ≢ out_of_fuel
unfolding body_kind
body_kind-IsDone [] e h = ground arith
body_kind-IsDone (c ∷ text) e h = ground arith

bad_last :
    (p q : Bool) (b : BodyLine) (e : PatchError)
    → (if p then body_end else if q then no_newline_marker else b) ≡ bad_body_line e
    → b ≡ bad_body_line e
bad_last true q b e h = absurd (cc)
bad_last false true b e h = absurd (cc)
bad_last false false b e h = h

classify_body-IsDone :
    (line : Text) (e : PatchError) → classify_body_line line ≡ bad_body_line e → e ≢ out_of_fuel
unfolding classify_body_line
classify_body-IsDone line e h = body_kind-IsDone line e (bad_last _ _ (body_kind line) e h)

collect-IsDone :
    (found : List PatchLine) (lines : List Text) → IsDone (collect_hunk_lines found lines)
unfolding collect_hunk_lines
collect-IsDone found [] = cc
collect-IsDone found (line ∷ lines) = elim (body_cases (classify_body_line line)) [
  | inl b ↦ rw b (cc)
  | inr (inl b) ↦ rw b (collect-IsDone (trim_last found) lines)
  | inr (inr (inl (kind, text, b))) ↦
      rw b (collect-IsDone (found ++ (record { kind = kind; text = text } ∷ [])) lines)
  | inr (inr (inr (e, b))) ↦ rw b (λ h. classify_body-IsDone line e b (cc))
]

-- What is left of the lines is no longer than they are.
collect_left :
    (found out : List PatchLine) (lines left : List Text)
    → collect_hunk_lines found lines ≡ ok (out, left)
    → length left ≤ length lines
unfolding collect_hunk_lines
collect_left found out [] left h = ground arith
collect_left found out (line ∷ lines) left h = elim (body_cases (classify_body_line line)) [
  | inl b ↦ ground arith
  | inr (inl b) ↦ omega (arith, collect_left (trim_last found) out lines left (rw b at h))
  | inr (inr (inl (kind, text, b))) ↦ omega (
    arith,
    collect_left (found ++ (record { kind = kind; text = text } ∷ [])) out lines left (rw b at h),
  )
  | inr (inr (inr (e, b))) ↦ absurd (ground arith)
]

hunk_of_groups-IsDone :
    (groups : Option ((Text × Text) × (Text × Text))) → IsDone (hunk_of_groups groups)
unfolding hunk_of_groups
hunk_of_groups-IsDone none = cc
hunk_of_groups-IsDone (some (old, new)) =
    and_then-IsDone (parse_patch_range old.0 old.1) _ (parse_patch_range-IsDone old.0 old.1) (λ a h.
      and_then-IsDone (parse_patch_range new.0 new.1) _ (parse_patch_range-IsDone new.0 new.1)
        (λ b k. cc))

finish_hunk-IsDone : (hunk : PatchHunk) (left : List Text) → IsDone (finish_hunk hunk left)
unfolding finish_hunk
finish_hunk-IsDone hunk left =
    and_then-IsDone (validate_patch_hunk_counts hunk) _ (validate_counts-IsDone hunk)
      (λ whole h. cc)

parse_patch_hunk-IsDone :
    (header : Text) (lines : List Text) → IsDone (parse_patch_hunk header lines)
unfolding parse_patch_hunk
parse_patch_hunk-IsDone header lines =
    let groups = match_hunk_header (trim_line_ending header) in
    and_then-IsDone (hunk_of_groups groups) _ (hunk_of_groups-IsDone groups) (λ hunk h.
      and_then-IsDone (collect_hunk_lines [] lines) _ (collect-IsDone [] lines)
        (λ (found, left) k. finish_hunk-IsDone (record hunk { lines = found }) left))

finish_hunk_left :
    (hunk whole : PatchHunk) (left left' : List Text)
    → finish_hunk hunk left ≡ ok (whole, left')
    → left ≡ left'
unfolding finish_hunk
finish_hunk_left hunk whole left left' h =
    let (done, p, q) = and_then_ok (validate_patch_hunk_counts hunk) _ (whole, left') h in
    (ok_pair_injective q).1

parse_patch_hunk_left :
    (header : Text) (lines left : List Text) (hunk : PatchHunk)
    → parse_patch_hunk header lines ≡ ok (hunk, left)
    → length left ≤ length lines
unfolding parse_patch_hunk
parse_patch_hunk_left header lines left hunk h =
    let (empty, p, h1) =
      and_then_ok (hunk_of_groups (match_hunk_header (trim_line_ending header))) _ (hunk, left) h in
    let ((found, left'), q, h2) = and_then_ok (collect_hunk_lines [] lines) _ (hunk, left) h1 in
    let same = finish_hunk_left (record empty { lines = found }) hunk left' left h2 in
    subst (λ l. length l ≤ length lines) same (collect_left [] found lines left' q)

module _ (unquote : Text → Option Text) where
  unquoted-IsDone : (value : Text) → IsDone (unquoted unquote value)
  unfolding unquoted
  unquoted-IsDone value = ground arith

  parse_patch_path-IsDone : (raw : Text) → IsDone (parse_patch_path unquote raw)
  unfolding parse_patch_path
  parse_patch_path-IsDone raw = ground (arith, unquoted-IsDone (path_marker_value raw))

  set_old-IsDone : (reading : Reading) (value : Text) → IsDone (set_old unquote reading value)
  unfolding set_old
  set_old-IsDone reading value =
      and_then-IsDone (parse_patch_path unquote (path_marker_value value)) _
        (parse_patch_path-IsDone (path_marker_value value)) (λ a h. cc)

  set_new-IsDone : (reading : Reading) (value : Text) → IsDone (set_new unquote reading value)
  unfolding set_new
  set_new-IsDone reading value =
      and_then-IsDone (parse_patch_path unquote (path_marker_value value)) _
        (parse_patch_path-IsDone (path_marker_value value)) (λ a h. cc)

  start_file-IsDone : (header : Text) → IsDone (start_file unquote header)
  unfolding start_file
  start_file-IsDone header =
      and_then-IsDone (parse_diff_git_header header) _ (parse_diff_git_header-IsDone header)
        (λ (old, new) h.
          and_then-IsDone (parse_patch_path unquote old) _ (parse_patch_path-IsDone old) (λ a k.
            and_then-IsDone (parse_patch_path unquote new) _ (parse_patch_path-IsDone new)
              (λ b l. cc)))

  round_left :
      (next : Reading → List Text → Fallible PatchError (PatchFile × List Text))
      → ((reading : Reading) (lines left : List Text) (file : PatchFile)
          → next reading lines ≡ ok (file, left)
          → length left ≤ length lines)
      → (reading : Reading) (line : Text) (lines : List Text) (test : FileLine)
      → (left : List Text) (file : PatchFile)
      → file_round unquote next reading line lines test ≡ ok (file, left)
      → length left ≤ suc (length lines)
  unfolding file_round
  round_left next ih reading line lines next_file left file h =
      let (whole, p, q) = and_then_ok (validate_parsed_patch_file reading) _ (file, left) h in
      let same = (ok_pair_injective q).1 in
      subst (λ l. length l ≤ suc (length lines)) same (omega arith)
  round_left next ih reading line lines rename_line left file h = absurd (cc)
  round_left next ih reading line lines copy_line left file h = absurd (cc)
  round_left next ih reading line lines binary_line left file h = absurd (cc)
  round_left next ih reading line lines mode_line left file h =
      let (file', p, q) =
        and_then_ok (parse_patch_mode_metadata (trim_line_ending line) reading.file) _ (file, left)
          h in
      omega (arith, ih (record reading { file = file' }) lines left file q)
  round_left next ih reading line lines (old_marker value) left file h =
      let (reading', p, q) = and_then_ok (set_old unquote reading value) _ (file, left) h in
      omega (arith, ih reading' lines left file q)
  round_left next ih reading line lines (new_marker value) left file h =
      let (reading', p, q) = and_then_ok (set_new unquote reading value) _ (file, left) h in
      omega (arith, ih reading' lines left file q)
  round_left next ih reading line lines hunk_header left file h =
      let ((hunk, left'), p, q) = and_then_ok (parse_patch_hunk line lines) _ (file, left) h in
      omega (arith, parse_patch_hunk_left line lines left' hunk p, ih _ left' left file q)
  round_left next ih reading line lines skipped left file h =
      omega (arith, ih reading lines left file h)
  round_left next ih reading line lines unsupported left file h = absurd (cc)

  -- What a file leaves of the lines is no longer than they are.
  parse_file_lines_left :
      (fuel : ℕ) (reading : Reading) (lines left : List Text) (file : PatchFile)
      → parse_file_lines unquote fuel reading lines ≡ ok (file, left)
      → length left ≤ length lines
  unfolding parse_file_lines
  parse_file_lines_left fuel reading [] left file h =
      let (whole, p, q) = and_then_ok (validate_parsed_patch_file reading) _ (file, left) h in
      subst (λ l. length l ≤ 0) (ok_pair_injective q).1 (omega arith)
  parse_file_lines_left zero reading (line ∷ lines) left file h = absurd (cc)
  parse_file_lines_left (suc fuel) reading (line ∷ lines) left file h =
      round_left (parse_file_lines unquote fuel) (parse_file_lines_left fuel) reading line lines
        (classify_file_line line) left file h

  round-IsDone :
      (next : Reading → List Text → Fallible PatchError (PatchFile × List Text))
      → (reading : Reading) (line : Text) (lines : List Text)
      → ((reading' : Reading) (left : List Text)
          → length left ≤ length lines
          → IsDone (next reading' left))
      → (test : FileLine) → IsDone (file_round unquote next reading line lines test)
  unfolding file_round
  round-IsDone next reading line lines ih next_file =
      and_then-IsDone (validate_parsed_patch_file reading) _ (validate_file-IsDone reading)
        (λ file h. cc)
  round-IsDone next reading line lines ih rename_line = cc
  round-IsDone next reading line lines ih copy_line = cc
  round-IsDone next reading line lines ih binary_line = cc
  round-IsDone next reading line lines ih mode_line =
      let mode = parse_mode-IsDone (trim_line_ending line) reading.file in
      and_then-IsDone (parse_patch_mode_metadata (trim_line_ending line) reading.file) _ mode
        (λ file h. ih _ lines (omega arith))
  round-IsDone next reading line lines ih (old_marker value) =
      and_then-IsDone (set_old unquote reading value) _ (set_old-IsDone reading value)
        (λ reading' h. ih reading' lines (omega arith))
  round-IsDone next reading line lines ih (new_marker value) =
      and_then-IsDone (set_new unquote reading value) _ (set_new-IsDone reading value)
        (λ reading' h. ih reading' lines (omega arith))
  round-IsDone next reading line lines ih hunk_header =
      and_then-IsDone (parse_patch_hunk line lines) _ (parse_patch_hunk-IsDone line lines)
        (λ (hunk, left) h. ih _ left (parse_patch_hunk_left line lines left hunk h))
  round-IsDone next reading line lines ih skipped = ih reading lines (omega arith)
  round-IsDone next reading line lines ih unsupported = cc

  parse_file_lines-IsDone :
      (fuel : ℕ) (reading : Reading) (lines : List Text)
      → length lines ≤ fuel
      → IsDone (parse_file_lines unquote fuel reading lines)
  unfolding parse_file_lines
  parse_file_lines-IsDone fuel reading [] h =
      and_then-IsDone (validate_parsed_patch_file reading) _ (validate_file-IsDone reading)
        (λ file h. cc)
  parse_file_lines-IsDone zero reading (line ∷ lines) h = absurd (omega arith)
  parse_file_lines-IsDone (suc fuel) reading (line ∷ lines) h =
      round-IsDone (parse_file_lines unquote fuel) reading line lines
        (λ reading' left k. parse_file_lines-IsDone fuel reading' left (omega arith))
        (classify_file_line line)

  parse_patch_file-IsDone :
      (header : Text) (lines : List Text)
      → IsDone (parse_patch_file unquote (length lines) header lines)
  unfolding parse_patch_file
  parse_patch_file-IsDone header lines =
      and_then-IsDone (start_file unquote header) _ (start_file-IsDone header)
        (λ reading h. parse_file_lines-IsDone (length lines) reading lines (omega arith))

  parse_patch_file_left :
      (fuel : ℕ) (header : Text) (lines left : List Text) (file : PatchFile)
      → parse_patch_file unquote fuel header lines ≡ ok (file, left)
      → length left ≤ length lines
  unfolding parse_patch_file
  parse_patch_file_left fuel header lines left file h =
      let (reading, p, q) = and_then_ok (start_file unquote header) _ (file, left) h in
      parse_file_lines_left fuel reading lines left file q

  parse_files-IsDone :
      (fuel : ℕ) (files : List PatchFile) (lines : List Text)
      → length lines ≤ fuel
      → IsDone (parse_files unquote fuel files lines)
  unfolding parse_files parse_patch_file
  parse_files-IsDone fuel files [] h = ground arith
  parse_files-IsDone zero files (line ∷ lines) h = absurd (omega arith)
  parse_files-IsDone (suc fuel) files (line ∷ lines) h = elim (Bool-cases (is_blank line)) [
    | inl blank ↦ rw (blank, parse_files) (parse_files-IsDone fuel files lines (omega arith))
    | inr text ↦ elim (Bool-cases (starts_file line)) [
      | inr other ↦ rw (text, other, parse_files) (cc)
      | inl header ↦
          rw (text, header, parse_files)
            (and_then-IsDone (parse_patch_file unquote (length lines) line lines) _
              (parse_patch_file-IsDone line lines)
              (λ (file, left) k.
                let bound = parse_patch_file_left (length lines) line lines left file k in
                parse_files-IsDone fuel (files ++ (file ∷ [])) left (omega arith)))
    ]
  ]

  -- The parser ends at every text, with files or with one of the errors of the source, not at the end of
  -- the fuel.
  pub parse_unified_patch-IsDone : (patch : Text) → IsDone (parse_unified_patch unquote patch)
  unfolding parse_unified_patch
  parse_unified_patch-IsDone patch = if_both IsDone (is_nil (trim_space patch)) _ _ (cc) (
      if_both IsDone (has_prefix (trim_space patch) (codes "*** Begin Patch")) _ _ (cc)
        (parse_files-IsDone (length (split_lines patch)) [] (split_lines patch) (omega arith)))
