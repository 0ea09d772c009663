-- ===== src/Files/Patch/Tokens.antt =====
-- The words of a patch's header lines, internal/files/patch.go. `unquote` is strconv.Unquote, which
-- fails on a malformed string.
use falken_core.Base.{
  ℕ, ◌-◌, [], ◌∷◌, Bool, true, false, not, ◌&&◌, ◌||◌, Option, none, some, ◌≡◌, refl, if◌then◌else◌,
  ◌==◌, length, take, drop, is_nil,
}
use falken_core.Base.Text.{Text, codes, has_prefix, has_suffix, text_eq, trim_space}
use falken_core.Path.{clean}
use falken_core.Files.Fallible.{Fallible, ok, err, and_then}
use falken_core.Files.Patch.Errors.{
  PatchError, malformed_diff_header, path_required, malformed_quoted_path,
}

-- strings.TrimSuffix
unfoldable pub trim_suffix : Text → Text → Text
unfolding has_suffix
trim_suffix s t = if has_suffix s t then take (length s - length t) s else s

-- strings.TrimPrefix
unfoldable pub trim_prefix : Text → Text → Text
unfolding has_prefix
trim_prefix s t = if has_prefix s t then drop (length t) s else s

unfoldable pub trim_line_ending : Text → Text
unfolding trim_suffix
trim_line_ending line = trim_suffix (trim_suffix line (10 ∷ [])) (13 ∷ [])

-- The text before the first tab or space, and the text from it on.
unfoldable pub cut_blank : Text → Text × Text
cut_blank [] = ([], [])
cut_blank (c ∷ s) =
    let (word, rest) = cut_blank s in if c == 9 || c == 32 then ([], c ∷ s) else (c ∷ word, rest)

-- The text up to the closing quote, and the text after it; `escaped` after a backslash.
unfoldable pub cut_quoted : Bool → Text → Option (Text × Text)
cut_quoted escaped [] = none
cut_quoted escaped (c ∷ s) =
    let rest = cut_quoted (not escaped && c == b'\\') s in
    if not escaped && c == b'"' then some (c ∷ [], s) else put c rest
  where
    put : ℕ → Option (Text × Text) → Option (Text × Text)
    put c none = none
    put c (some (word, rest)) = some (c ∷ word, rest)

unfoldable pub scan_patch_token : Text → Option (Text × Text)
unfolding trim_space has_prefix cut_blank cut_quoted
scan_patch_token raw =
    let value = trim_space raw in
    if is_nil value
    then none
    else if has_prefix value (b'"' ∷ [])
    then quoted (cut_quoted false (drop 1 value))
    else some (cut_blank value)
  where
    quoted : Option (Text × Text) → Option (Text × Text)
    quoted none = none
    quoted (some (word, rest)) = some (b'"' ∷ word, rest)

unfoldable pub path_marker_value : Text → Text
unfolding trim_space has_prefix scan_patch_token cut_blank
path_marker_value raw =
    let value = trim_space raw in
    if has_prefix value (b'"' ∷ [])
    then elim (scan_patch_token value) [ none ↦ value | some (token, rest) ↦ token ]
    else (cut_blank value).0

unfoldable pub parse_diff_git_header : Text → Fallible PatchError (Text × Text)
unfolding trim_space trim_prefix scan_patch_token
parse_diff_git_header line =
    elim (scan_patch_token (trim_space (trim_prefix line (codes "diff --git ")))) [
      | none ↦ err malformed_diff_header
      | some (old_path, remaining) ↦ elim (scan_patch_token remaining) [
        | none ↦ err malformed_diff_header
        | some (new_path, rest) ↦
            if is_nil (trim_space rest) then ok (old_path, new_path) else err malformed_diff_header
      ]
    ]

module _ (unquote : Text → Option Text) where
  unfoldable pub unquoted : Text → Fallible PatchError Text
  unfolding has_prefix
  unquoted value =
      if has_prefix value (b'"' ∷ [])
      then elim (unquote value) [ none ↦ err malformed_quoted_path | some text ↦ ok text ]
      else ok value

  -- The path, and whether it is /dev/null.
  unfoldable pub parse_patch_path : Text → Fallible PatchError (Text × Bool)
  unfolding text_eq has_prefix path_marker_value unquoted clean
  parse_patch_path raw =
      let value = path_marker_value raw in
      if text_eq value (codes "/dev/null")
      then ok ([], true)
      else if is_nil value
      then err path_required
      else and_then (unquoted value) (λ text.
        let path =
          if has_prefix text (codes "a/") || has_prefix text (codes "b/")
          then drop 2 text
          else text in
        if is_nil path then err path_required else ok (clean path, false))

header_words :
    parse_diff_git_header (codes "diff --git a/x.go \"b/y \\\" z\" ")
    ≡ ok (codes "a/x.go", codes "\"b/y \\\" z\"")
unfolding parse_diff_git_header
header_words = refl

dev_null : parse_patch_path (λ s. none) (codes "/dev/null\t2024") ≡ ok ([], true)
unfolding parse_patch_path
dev_null = refl

strips_side : parse_patch_path (λ s. none) (codes "b/dir//x.go ") ≡ ok (codes "dir/x.go", false)
unfolding parse_patch_path
strips_side = refl
