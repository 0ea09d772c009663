-- ===== src/Files/Edit/Fuzzy.antt =====
-- The close matches of internal/files/edit.go. `distance` is levenshtein.ComputeDistance of the package
-- github.com/agnivade/levenshtein.
use falken_core.Base.{
  ℕ, zero, suc, ◌+◌, ◌-◌, ◌*◌, [], ◌∷◌, ◌++◌, List, Bool, not, ◌&&◌, ◌||◌, Option, none, some, ◌≡◌,
  refl, if◌then◌else◌, ◌==◌, ltb, leb, length, take, drop, is_nil,
}
use falken_core.Base.Text.{Text, codes, has_prefix, text_eq, trim_left, trim_space, byte_length}
use falken_core.Base.Text.Split.{split, join}
use falken_core.Base.Text.Fields.{fields}

-- \s of package regexp
abbrev is_re_space : ℕ → Bool
is_re_space c = c == 9 || c == 10 || c == 12 || c == 13 || c == 32

blanks : Text → ℕ
blanks [] = 0
blanks (c ∷ s) = let rest = blanks s in if is_re_space c then suc rest else 0

-- The length of a match of the words with \s+ between them at the start of a text. No word has a blank,
-- so a match takes every blank between two words.
unfoldable pub match_words : List Text → Text → Option ℕ
unfolding has_prefix blanks
match_words [] s = some 0
match_words (w ∷ []) s = if has_prefix s w then some (length w) else none
match_words (w ∷ (v ∷ ws)) s =
    let after = drop (length w) s in
    let gap = blanks after in
    let rest = match_words (v ∷ ws) (drop gap after) in
    if has_prefix s w && not (gap == 0) then longer (length w + gap) rest else none
  where
    longer : ℕ → Option ℕ → Option ℕ
    longer n none = none
    longer n (some m) = some (n + m)

-- re.FindAllString(content, -1)
unfoldable pub find_all : List Text → ℕ → Text → List Text
unfolding match_words
find_all ws skip [] = []
find_all ws (suc skip) (c ∷ s) = find_all ws skip s
find_all ws zero (c ∷ s) = elim (match_words ws (c ∷ s)) [
  | none ↦ find_all ws 0 s
  | some n ↦ take n (c ∷ s) ∷ find_all ws (n - 1) s
]

-- The one of a list of one.
abbrev pub only : List Text → Text
only [] = []
only (w ∷ []) = w
only (w ∷ (v ∷ ws)) = []

unfoldable pub fuzzy_match_whitespace : Text → Text → Text
unfolding fields find_all
fuzzy_match_whitespace content search =
    let words = fields search in if is_nil words then [] else only (find_all words 0 content)

abbrev pub newline_text : Text
newline_text = 10 ∷ []

-- lines[i], with the line put before it, where it has a character and does not start so already
indent_line : Text → Text → Text
unfolding trim_space has_prefix
indent_line blank line =
    if is_nil (trim_space line) || has_prefix line blank then line else blank ++ line

indent_lines : Text → List Text → List Text
unfolding indent_line
indent_lines blank [] = []
indent_lines blank (line ∷ lines) = indent_line blank line ∷ indent_lines blank lines

-- The text before the first newline.
first_line : Text → Text
first_line [] = []
first_line (c ∷ s) = let rest = first_line s in if c == 10 then [] else c ∷ rest

unfoldable pub match_indentation : Text → Text → Text
unfolding first_line trim_left indent_lines split join
match_indentation actual_old new_string =
    let first = first_line actual_old in
    let trimmed = trim_left (λ c. c == 32 || c == 9 || c == 13 || c == 10) first in
    let blank = take (length first - length trimmed) first in
    if is_nil blank
    then new_string
    else join newline_text (indent_lines blank (split 10 new_string))

last_of : Text → List Text → Text
last_of w [] = w
last_of w (v ∷ ws) = last_of v ws

module _ (distance : Text → Text → ℕ) where
  -- 1.0-float64(dist)/float64(maxLen) > 0.85, which is 20 * dist < 3 * maxLen: at equality the quotient is
  -- the double nearest to 0.15, and its difference from 1 the one nearest to 0.85.
  unfoldable pub is_close : Text → Text → Bool
  unfolding byte_length
  is_close search block =
      let a = byte_length search in
      let b = byte_length block in ltb (20 * distance search block) (3 * (if leb a b then b else a))

  -- The inner loop: the block up to the first line that is the last anchor, if it is close.
  block_to : Text → Text → List Text → List Text → List Text
  unfolding trim_space text_eq byte_length is_close join
  block_to search last so_far [] = []
  block_to search last so_far (line ∷ lines) =
      let rest = block_to search last (so_far ++ (line ∷ [])) lines in
      let block = join newline_text (so_far ++ (line ∷ [])) in
      if not (text_eq (trim_space line) last) || byte_length search == 0 && byte_length block == 0
      then rest
      else if is_close search block
      then block ∷ []
      else []

  candidates : Text → Text → Text → List Text → List Text
  unfolding trim_space text_eq block_to
  candidates search first last [] = []
  candidates search first last (line ∷ lines) =
      let rest = candidates search first last lines in
      if text_eq (trim_space line) first
      then block_to search last [] (line ∷ lines) ++ rest
      else rest

  unfoldable pub fuzzy_match_levenshtein : Text → Text → Text
  unfolding split trim_space last_of candidates
  fuzzy_match_levenshtein content search = elim (split 10 search) [
    | [] ↦ []
    | first ∷ more ↦
        if ltb (length more) 2
        then []
        else only (
            candidates search (trim_space first) (trim_space (last_of first more))
              (split 10 content))
  ]

finds_blanks : fuzzy_match_whitespace (codes "if  a  {\n}\nelse") (codes "a { }") ≡ codes "a  {\n}"
unfolding fuzzy_match_whitespace
finds_blanks = refl

indents : match_indentation (codes "  a\n  b") (codes "c\n\n  d") ≡ codes "  c\n\n  d"
unfolding match_indentation
indents = refl
