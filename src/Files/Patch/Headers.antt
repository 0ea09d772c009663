-- ===== src/Files/Patch/Headers.antt =====
-- The headers of hunks and the lines on a file's mode, internal/files/patch.go.
use falken_core.Base.{
  ℕ, ◌+◌, ◌-◌, ◌*◌, ◌^◌, [], ◌∷◌, Bool, true, not, ◌&&◌, ◌||◌, Option, none, some, ◌≡◌, refl,
  if◌then◌else◌, ◌==◌, ltb, leb, drop, is_nil,
}
use mathlib.Core.List.{foldl}
use falken_core.Base.Text.{Text, codes, has_prefix, text_eq, trim_space}
use falken_core.Files.Fallible.{Fallible, ok, err, and_then}
use falken_core.Files.Patch.{PatchFile}
use falken_core.Files.Patch.Errors.{
  PatchError, hunk_start_out_of_range, hunk_count_out_of_range, unsupported_file_mode,
}
use falken_core.Files.Patch.Tokens.{trim_prefix}

abbrev pub is_digit : ℕ → Bool
is_digit c = leb b'0' c && leb c b'9'

-- The digits in front, [0-9]*, and what follows them.
unfoldable pub cut_digits : Text → Text × Text
cut_digits [] = ([], [])
cut_digits (c ∷ s) =
    let (word, rest) = cut_digits s in if is_digit c then (c ∷ word, rest) else ([], c ∷ s)

-- The groups of a match of ([0-9]+)(?:,([0-9]+))?, and what follows it. No match is lost for taking
-- every digit at once, since what has to follow is not a digit.
unfoldable pub match_range : Text → Option ((Text × Text) × Text)
unfolding cut_digits
match_range s =
    let (start, after) = cut_digits s in
    if is_nil start
    then none
    else some (elim after [
      | [] ↦ ((start, []), [])
      | c ∷ more ↦
          let (count, left) = cut_digits more in
          if c == b',' && not (is_nil count)
          then ((start, count), left)
          else ((start, []), c ∷ more)
    ])

-- hunkHeaderPattern.FindStringSubmatch, without the whole match
unfoldable pub match_hunk_header : Text → Option ((Text × Text) × (Text × Text))
unfolding has_prefix match_range
match_hunk_header header =
    if has_prefix header (codes "@@ -")
    then elim (match_range (drop 4 header)) [
      | none ↦ none
      | some (old, after) ↦
          if has_prefix after (codes " +")
          then elim (match_range (drop 2 after)) [
            | none ↦ none
            | some (new, left) ↦ if has_prefix left (codes " @@") then some (old, new) else none
          ]
          else none
    ]
    else none

-- strconv.Atoi on a text of digits, with Go's `int` of 64 bits
unfoldable pub atoi : Text → Option ℕ
atoi s = let n = foldl (λ n c. n * 10 + (c - b'0')) 0 s in if ltb n (2 ^ 63) then some n else none

unfoldable pub parse_patch_range : Text → Text → Fallible PatchError (ℕ × ℕ)
unfolding atoi
parse_patch_range start count = elim (atoi start) [
  | none ↦ err hunk_start_out_of_range
  | some n ↦
      if is_nil count
      then ok (n, 1)
      else elim (atoi count) [ none ↦ err hunk_count_out_of_range | some m ↦ ok (n, m) ]
]

unfoldable pub is_known_patch_metadata : Text → Bool
unfolding has_prefix
is_known_patch_metadata line =
    has_prefix line (codes "index ")
    || has_prefix line (codes "similarity index ")
    || has_prefix line (codes "dissimilarity index ")

unfoldable pub is_patch_mode_metadata : Text → Bool
unfolding has_prefix
is_patch_mode_metadata line =
    has_prefix line (codes "new file mode ")
    || has_prefix line (codes "deleted file mode ")
    || has_prefix line (codes "old mode ")
    || has_prefix line (codes "new mode ")

-- 0o644 and 0o755
unfoldable pub parse_git_file_mode : Text → Fallible PatchError ℕ
unfolding text_eq
parse_git_file_mode value =
    if text_eq value (codes "100644")
    then ok 420
    else if text_eq value (codes "100755")
    then ok 493
    else err (unsupported_file_mode value)

unfoldable pub mode_after : Text → Text → Fallible PatchError ℕ
unfolding trim_prefix trim_space parse_git_file_mode
mode_after line prefix = parse_git_file_mode (trim_space (trim_prefix line prefix))

abbrev pub with_mode : PatchFile → ℕ → PatchFile
with_mode file mode = record file { new_mode = mode; has_new_mode = true }

unfoldable pub parse_patch_mode_metadata : Text → PatchFile → Fallible PatchError PatchFile
unfolding has_prefix mode_after
parse_patch_mode_metadata line file0 =
    let file : PatchFile = record file0 { saw_mode_metadata = true } in
    if has_prefix line (codes "new file mode ")
    then and_then (mode_after line (codes "new file mode ")) (λ mode. ok (with_mode file mode))
    else if has_prefix line (codes "new mode ")
    then and_then (mode_after line (codes "new mode ")) (λ mode. ok (with_mode file mode))
    else if has_prefix line (codes "old mode ")
    then and_then (mode_after line (codes "old mode ")) (λ mode. ok file)
    else if has_prefix line (codes "deleted file mode ")
    then and_then (mode_after line (codes "deleted file mode ")) (λ mode. ok file)
    else ok file

header_groups :
    match_hunk_header (codes "@@ -12,3 +7 @@ func main() {")
    ≡ some ((codes "12", codes "3"), (codes "7", []))
unfolding match_hunk_header
header_groups = refl

header_needs_count : match_hunk_header (codes "@@ -12, +7 @@") ≡ none
unfolding match_hunk_header
header_needs_count = refl
