-- ===== src/Files/Patch/Applies.antt =====
-- What a patch does to the lines of a file, as a relation, internal/files/patch.go.
use mathlib.Core.List.{flatten}
use falken_core.Base.{
  ℕ, ◌+◌, ◌-◌, List, [], ◌∷◌, ◌++◌, false, ◌||◌, ◌≡◌, ◌≢◌, ◌⊎◌, ◌↔◌, refl, ap, ◌∙◌, subst, arith,
  ltb, length, length-append, take, drop, Bool-cases, inl, inr, take-append-drop, length-take,
  drop-append_length,
}
use falken_core.Base.Int.{ℤ, pos, negsuc}
use falken_core.Base.Text.{Text}
use falken_core.Base.Text.Laws.{text_eq_iff, text_eq_refl}
use falken_core.Files.Lines.{split_lines}
use falken_core.Files.Patch.{LineKind, context, removal, addition, PatchLine, PatchHunk}
use falken_core.Files.Fallible.{ok, and_then_ok, ok_pair_injective}
use falken_core.Files.Patch.Sides.{old_side, new_side}
use falken_core.Files.Patch.Hunks.{
  Applied, patch_old_start_index, apply_hunk_lines, advance, apply_hunks_from, apply_patch_hunks,
}

-- The hunk starts after that many lines: its line number counts from 1, but where it has no old lines it
-- is that of the line before.
abbrev pub StartsAfter : PatchHunk → ℕ → Type 0
StartsAfter hunk n =
    ((hunk.old_count ≡ 0) × (hunk.old_start ≡ n))
    ⊎ ((hunk.old_count ≢ 0) × (hunk.old_start ≡ n + 1))

patch_old_start_index_iff :
    (hunk : PatchHunk) (n : ℕ) → (patch_old_start_index hunk ≡ pos n) ↔ StartsAfter hunk n
unfolding patch_old_start_index
patch_old_start_index_iff hunk n = ground arith

-- The hunks part the file: a gap that stays, up to where the hunk starts, then its old lines, for
-- which its new lines stand, and so on; and what follows the last hunk stays.
abbrev pub Applies : ℕ → List PatchHunk → List Text → List Text → Type 0
Applies at [] rest out = out ≡ rest
Applies at (hunk ∷ hunks) rest out =
    (gap : List Text) × (left : List Text) × (tail : List Text) × StartsAfter hunk (at + length gap)
    × (rest ≡ gap ++ (old_side hunk.lines ++ left))
    × (out ≡ gap ++ (new_side hunk.lines ++ tail))
    × Applies (at + length gap + length (old_side hunk.lines)) hunks left tail

kind_cases : (k : LineKind) → (k ≡ context) ⊎ ((k ≡ removal) ⊎ (k ≡ addition))
kind_cases context = inl refl
kind_cases removal = inr (inl refl)
kind_cases addition = inr (inr refl)

lines_sound :
    (lines : List PatchLine) (rest out left : List Text)
    → apply_hunk_lines lines rest ≡ ok (out, left)
    → (rest ≡ old_side lines ++ left) × (out ≡ new_side lines)
unfolding apply_hunk_lines
lines_sound [] rest out left h = ground arith
lines_sound (line ∷ lines) [] out left h = elim (kind_cases line.kind) [
  | inl k ↦ absurd (ground arith)
  | inr (inl k) ↦ absurd (ground arith)
  | inr (inr k) ↦
      let (r, p, q) =
        and_then_ok {B = List Text × List Text} (apply_hunk_lines lines [])
          (λ (o, l). ok (line.text ∷ o, l)) (out, left) (ground arith) in
      ground (arith, lines_sound lines [] r.0 r.1)
]
lines_sound (line ∷ lines) (x ∷ rest) out left h = elim (kind_cases line.kind) [
  | inl k ↦
      let (r, p, q) =
        and_then_ok {B = List Text × List Text} (apply_hunk_lines lines rest)
          (λ (o, l). ok (x ∷ o, l)) (out, left) (ground arith) in
      ground (arith, text_eq_iff x line.text, lines_sound lines rest r.0 r.1)
  | inr (inl k) ↦ ground (arith, text_eq_iff x line.text, lines_sound lines rest out left)
  | inr (inr k) ↦
      let (r, p, q) =
        and_then_ok {B = List Text × List Text} (apply_hunk_lines lines (x ∷ rest))
          (λ (o, l). ok (line.text ∷ o, l)) (out, left) (ground arith) in
      ground (arith, lines_sound lines (x ∷ rest) r.0 r.1)
]

lines_complete :
    (lines : List PatchLine) (left : List Text)
    → apply_hunk_lines lines (old_side lines ++ left) ≡ ok (new_side lines, left)
unfolding apply_hunk_lines
lines_complete [] left = refl
lines_complete (line ∷ lines) left =
    ground (arith, text_eq_refl line.text, lines_complete lines left)

append_left_length : (xs ys : List Text) (n : ℕ) → n + length (xs ++ ys) - length ys ≡ n + length xs
append_left_length xs ys n = omega (arith, length-append xs ys)

take_append : (xs ys : List Text) → take (length xs) (xs ++ ys) ≡ xs
take_append [] ys = refl
take_append (x ∷ xs) ys = rw (take_append xs ys)

advance_complete :
    (at : ℕ) (gap from : List Text)
    → advance (pos (at + length gap)) at (gap ++ from) ≡ ok (gap, from)
unfolding advance
advance_complete at gap from =
    let above : ltb (at + length gap) at ≡ false = ground arith in
    let below : ltb (at + length (gap ++ from)) (at + length gap) ≡ false =
      ground (arith, length-append gap from) in
    let width : at + length gap - at ≡ length gap = omega arith in
    rw (above, below, width, drop-append_length gap from, take_append gap from)

advance_sound :
    (start : ℤ) (at : ℕ) (rest gap from : List Text)
    → advance start at rest ≡ ok (gap, from)
    → (start ≡ pos (at + length gap)) × (rest ≡ gap ++ from)
unfolding advance
advance_sound (pos start) at rest gap from h =
    elim (Bool-cases (ltb start at || ltb (at + length rest) start)) [
      | inl outside ↦ absurd (ground arith)
      | inr inside ↦
          let parts : (take (start - at) rest ≡ gap) × (drop (start - at) rest ≡ from) =
            ok_pair_injective (rw inside at h) in
          let width : length gap ≡ start - at = ground (arith, length-take (start - at) rest) in
          (ground arith, ground (arith, take-append-drop (start - at) rest))
    ]
advance_sound (negsuc n) at rest gap from h = absurd (ground arith)

-- The lines of the file before what a hunk leaves are the gap and its old lines.
place_after :
    (at : ℕ) (gap old left : List Text)
    → at + length (gap ++ (old ++ left)) - length left ≡ at + length gap + length old
place_after at gap old left = omega (arith, length-append gap (old ++ left), length-append old left)

hunks_complete :
    (at : ℕ) (hunks : List PatchHunk) (rest out : List Text)
    → Applies at hunks rest out
    → apply_hunks_from at rest hunks ≡ ok out
unfolding apply_hunks_from
hunks_complete at [] rest out h = rw h
hunks_complete at (hunk ∷ hunks) rest out (gap, left, tail, starts, before, after, more) =
    let start = (patch_old_start_index_iff hunk (at + length gap)).1 starts in
    let more' =
      hunks_complete (at + length gap + length (old_side hunk.lines)) hunks left tail more in
    rw (before, start, advance_complete at gap (old_side hunk.lines ++ left))
      (rw (
        lines_complete hunk.lines left,
        place_after at gap (old_side hunk.lines) left,
        more',
        after,
      ))

Applies-step :
    (at : ℕ) (hunk : PatchHunk) (hunks : List PatchHunk)
    (rest out gap from new left tail : List Text)
    → patch_old_start_index hunk ≡ pos (at + length gap)
    → rest ≡ gap ++ from
    → from ≡ old_side hunk.lines ++ left
    → new ≡ new_side hunk.lines
    → ◌≡◌ {A = Applied (List Text)} (ok (gap ++ (new ++ tail))) (ok out)
    → Applies (at + length rest - length left) hunks left tail
    → Applies at (hunk ∷ hunks) rest out
Applies-step at hunk hunks rest out gap from new left tail start before old fresh put more =
    let whole : rest ≡ gap ++ (old_side hunk.lines ++ left) = ground arith in
    let place =
      ap (λ xs. at + length xs - length left) whole
      ∙ place_after at gap (old_side hunk.lines) left in
    (
      gap,
      left,
      tail,
      (patch_old_start_index_iff hunk (at + length gap)).0 start,
      whole,
      ground arith,
      subst (λ n. Applies n hunks left tail) place more,
    )

hunks_sound :
    (at : ℕ) (hunks : List PatchHunk) (rest out : List Text)
    → apply_hunks_from at rest hunks ≡ ok out
    → Applies at hunks rest out
unfolding apply_hunks_from
hunks_sound at [] rest out h = ground arith
hunks_sound at (hunk ∷ hunks) rest out h =
    let ((gap, from), p, h1) = and_then_ok (advance (patch_old_start_index hunk) at rest) _ out h in
    let ((new, left), q, h2) = and_then_ok (apply_hunk_lines hunk.lines from) _ out h1 in
    let (tail, r, put) =
      and_then_ok (apply_hunks_from (at + length rest - length left) left hunks) _ out h2 in
    let (start, before) = advance_sound (patch_old_start_index hunk) at rest gap from p in
    let (old, fresh) = lines_sound hunk.lines from new left q in
    Applies-step at hunk hunks rest out gap from new left tail start before old fresh put
      (hunks_sound (at + length rest - length left) hunks left tail r)

-- The hunks apply to a text exactly where they part its lines, each at its place and with its old lines
-- there, and what is put out is then the text whose lines have the new ones in their stead.
pub apply_hunks_exact :
    (content : Text) (hunks : List PatchHunk) (result : Text)
    → (apply_patch_hunks content hunks ≡ ok result)
      ↔ ((out : List Text) × Applies 0 hunks (split_lines content) out × (result ≡ flatten out))
unfolding apply_patch_hunks
apply_hunks_exact content hunks result =
    let lines = split_lines content in
    (
      λ h.
          let (out, p, put) = and_then_ok (apply_hunks_from 0 lines hunks) _ result h in
          (out, hunks_sound 0 hunks lines out p, ground arith),
      λ (out, applies, put). rw (hunks_complete 0 hunks lines out applies, put),
    )
