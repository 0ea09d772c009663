-- ===== src/Files/Patch/Balance.antt =====
-- How many lines a file has after a patch, internal/files/patch.go.
use falken_core.Base.{
  ℕ, ◌+◌, List, [], ◌∷◌, ◌++◌, ◌≡◌, arith, length, length-append, All, All-append, inl,
}
use falken_core.Base.Text.{Text}
use falken_core.Files.Fallible.{ok}
use falken_core.Files.Lines.{split_lines, IsEnded, AreLines, split_lines-flatten}
use falken_core.Files.Patch.{PatchHunk}
use falken_core.Files.Patch.Sides.{old_side, new_side}
use falken_core.Files.Patch.Hunks.{apply_patch_hunks}
use falken_core.Files.Patch.Applies.{Applies, apply_hunks_exact}
use falken_core.Files.Patch.Parse.Counts.{IsCounted}

abbrev pub old_total : List PatchHunk → ℕ
old_total [] = 0
old_total (hunk ∷ hunks) = hunk.old_count + old_total hunks

abbrev pub new_total : List PatchHunk → ℕ
new_total [] = 0
new_total (hunk ∷ hunks) = hunk.new_count + new_total hunks

Applies-balance :
    (at : ℕ) (hunks : List PatchHunk) (rest out : List Text)
    → Applies at hunks rest out
    → All IsCounted hunks
    → length out + old_total hunks ≡ length rest + new_total hunks
Applies-balance at [] rest out h counted = ground arith
Applies-balance at (hunk ∷ hunks) rest out (gap, left, tail, start, before, after, more)
      (counts, counted) =
    let ih =
      Applies-balance (at + length gap + length (old_side hunk.lines)) hunks left tail more
        counted in
    let old = old_side hunk.lines in
    let new = new_side hunk.lines in
    rw (before, after)
      (omega (
        arith,
        ih,
        counts.0,
        counts.1,
        length-append gap (old ++ left),
        length-append gap (new ++ tail),
        length-append old left,
        length-append new tail,
      ))

All-parts : (xs ys : List Text) → All IsEnded (xs ++ ys) → All IsEnded xs × All IsEnded ys
All-parts [] ys h = (tt, h)
All-parts (x ∷ xs) ys (h, hs) = let (p, q) = All-parts xs ys hs in ((h, p), q)

ended-lines : (ws : List Text) → All IsEnded ws → AreLines ws
ended-lines [] h = tt
ended-lines (w ∷ []) h = inl h.0
ended-lines (w ∷ (v ∷ ws)) h = (h.0, ended-lines (v ∷ ws) h.1)

-- The lines that a hunk puts in place are ended.
abbrev pub PutsEnded : PatchHunk → Type 0
PutsEnded hunk = All IsEnded (new_side hunk.lines)

Applies-IsEnded :
    (at : ℕ) (hunks : List PatchHunk) (rest out : List Text)
    → Applies at hunks rest out
    → All PutsEnded hunks
    → All IsEnded rest
    → All IsEnded out
Applies-IsEnded at [] rest out h puts ended = rw h ended
Applies-IsEnded at (hunk ∷ hunks) rest out (gap, left, tail, start, before, after, more) (put, puts)
      ended =
    let old = old_side hunk.lines in
    let parts = All-parts gap (old ++ left) (rw before at ended) in
    let kept = All-parts old left parts.1 in
    let later = Applies-IsEnded (at + length gap + length old) hunks left tail more puts kept.1 in
    rw after (
      All-append IsEnded gap (new_side hunk.lines ++ tail) parts.0
        (All-append IsEnded (new_side hunk.lines) tail put later))

-- Where the headers of the hunks count their lines, and the lines of the file and those that the hunks
-- put in place are ended, the lines of the patched file are more than those of the file by the new counts
-- of the headers, and fewer by the old ones.
pub apply_hunks_balance :
    (content : Text) (hunks : List PatchHunk) (result : Text)
    → All IsCounted hunks
    → All PutsEnded hunks
    → All IsEnded (split_lines content)
    → apply_patch_hunks content hunks ≡ ok result
    → length (split_lines result) + old_total hunks ≡ length (split_lines content) + new_total hunks
apply_hunks_balance content hunks result counted puts ended h =
    let (out, applies, put) = (apply_hunks_exact content hunks result).0 h in
    let lines =
      ended-lines out (Applies-IsEnded 0 hunks (split_lines content) out applies puts ended) in
    let balance = Applies-balance 0 hunks (split_lines content) out applies counted in
    rw (put, split_lines-flatten out lines) balance
