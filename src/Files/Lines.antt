-- ===== src/Files/Lines.antt =====
-- Lines with their endings: splitLines of internal/files/read.go, which is splitPatchTextLines of
-- internal/files/patch.go, and the ranges of lines of a read.
use mathlib.Core.List.{flatten}
use falken_core.Base.{
  ℕ, List, [], ◌∷◌, ◌++◌, ◌⊎◌, inl, inr, ◌≡◌, ◌≢◌, refl, arith, if◌then◌else◌, ◌==◌, ap, ◌∙◌,
  append-nil, Bool-cases, ==_iff,
}
use falken_core.Base.Text.{Text}

abbrev pub newline : ℕ
newline = 10

abbrev extend : ℕ → List Text → List Text
extend c [] = (c ∷ []) ∷ []
extend c (w ∷ ws) = (c ∷ w) ∷ ws

unfoldable pub split_lines : Text → List Text
split_lines [] = []
split_lines (c ∷ s) =
    let rest = split_lines s in if c == newline then (c ∷ []) ∷ rest else extend c rest

flatten-extend : (c : ℕ) (ws : List Text) → flatten (extend c ws) ≡ c ∷ flatten ws
unfolding flatten
flatten-extend c [] = refl
flatten-extend c (w ∷ ws) = refl

-- The lines of a text are its parts, in order.
pub flatten-split_lines : (s : Text) → flatten (split_lines s) ≡ s
unfolding split_lines flatten
flatten-split_lines [] = refl
flatten-split_lines (c ∷ s) =
    ground (arith, flatten-extend c (split_lines s), flatten-split_lines s)

-- A text without a line ending before its last character, and not empty.
abbrev pub IsOpen : Text → Type 0
IsOpen [] = Unit
IsOpen (c ∷ w) = (c ≢ newline) × IsOpen w

abbrev pub IsEnded : Text → Type 0
IsEnded [] = ⊥
IsEnded (c ∷ []) = c ≡ newline
IsEnded (c ∷ (d ∷ w)) = (c ≢ newline) × IsEnded (d ∷ w)

-- Every line is ended but perhaps the last, which is not empty.
abbrev pub AreLines : List Text → Type 0
AreLines [] = Unit
AreLines (w ∷ []) = IsEnded w ⊎ (IsOpen w × (w ≢ []))
AreLines (w ∷ (v ∷ ws)) = IsEnded w × AreLines (v ∷ ws)

pub split_lines-ended : (w s : Text) → IsEnded w → split_lines (w ++ s) ≡ w ∷ split_lines s
unfolding split_lines
split_lines-ended [] s h = absurd h
split_lines-ended (c ∷ []) s h = ground arith
split_lines-ended (c ∷ (d ∷ w)) s h = ground (arith, split_lines-ended (d ∷ w) s h.1)

split_lines-open : (w : Text) → IsOpen w → w ≢ [] → split_lines w ≡ w ∷ []
unfolding split_lines
split_lines-open [] h n = absurd (n refl)
split_lines-open (c ∷ []) h n = ground arith
split_lines-open (c ∷ (d ∷ w)) h n =
    let e : split_lines (d ∷ w) ≡ (d ∷ w) ∷ [] = split_lines-open (d ∷ w) h.1 (cc) in ground arith

-- Lines are read back from the text that they make.
pub split_lines-flatten : (ws : List Text) → AreLines ws → split_lines (flatten ws) ≡ ws
unfolding flatten
split_lines-flatten [] h = unfold split_lines in refl
split_lines-flatten (w ∷ []) (inl h) = split_lines-ended w [] h ∙ (unfold split_lines in refl)
split_lines-flatten (w ∷ []) (inr (h, n)) = rw append-nil (split_lines-open w h n)
split_lines-flatten (w ∷ (v ∷ ws)) h =
    split_lines-ended w (flatten (v ∷ ws)) h.0
    ∙ ap (λ vs. w ∷ vs) (split_lines-flatten (v ∷ ws) h.1)

extend-AreLines : (c : ℕ) (ws : List Text) → c ≢ newline → AreLines ws → AreLines (extend c ws)
extend-AreLines c [] n h = inr ((n, tt), cc)
extend-AreLines c ([] ∷ []) n (inl h) = absurd h
extend-AreLines c ([] ∷ []) n (inr h) = absurd (h.1 refl)
extend-AreLines c ((d ∷ w) ∷ []) n (inl h) = inl (n, h)
extend-AreLines c ((d ∷ w) ∷ []) n (inr h) = inr ((n, h.0), cc)
extend-AreLines c ([] ∷ (v ∷ ws)) n h = absurd h.0
extend-AreLines c ((d ∷ w) ∷ (v ∷ ws)) n h = ((n, h.0), h.1)

ended-AreLines : (c : ℕ) (ws : List Text) → c ≡ newline → AreLines ws → AreLines ((c ∷ []) ∷ ws)
ended-AreLines c [] e h = inl e
ended-AreLines c (v ∷ ws) e h = (e, h)

-- What a text is split into are lines.
pub split_lines-AreLines : (s : Text) → AreLines (split_lines s)
unfolding split_lines
split_lines-AreLines [] = tt
split_lines-AreLines (c ∷ s) = elim (Bool-cases (c == newline)) [
  | inl e ↦
      rw e (ended-AreLines c (split_lines s) ((==_iff c newline).0 e) (split_lines-AreLines s))
  | inr e ↦ rw e (extend-AreLines c (split_lines s) (λ h. ground arith) (split_lines-AreLines s))
]
