-- ===== src/Base/Text/Split.antt =====
-- strings.Split and strings.Join for a separator of one character.
use falken_core.Base.{
  ℕ, List, [], ◌∷◌, ◌++◌, ◌≡◌, ◌≢◌, refl, false, arith, ◌==◌, if◌then◌else◌, All,
}
use falken_core.Base.Text.{contains_char, Text}

abbrev pub Lacks : ℕ → Text → Type 0
Lacks c = All (λ d. d ≢ c)

abbrev add_head : ℕ → List Text → List Text
add_head c [] = (c ∷ []) ∷ []
add_head c (w ∷ ws) = (c ∷ w) ∷ ws

unfoldable pub split : ℕ → Text → List Text
split sep [] = [] ∷ []
split sep (c ∷ s) = let rest = split sep s in if c == sep then [] ∷ rest else add_head c rest

unfoldable pub join : Text → List Text → Text
join sep [] = []
join sep (w ∷ []) = w
join sep (w ∷ (v ∷ ws)) = w ++ (sep ++ join sep (v ∷ ws))

pub split-ne-nil : (sep : ℕ) (s : Text) → split sep s ≢ []
unfolding split
split-ne-nil sep [] h = cc
split-ne-nil sep (c ∷ s) h =
    elim (split sep s) as (λ ws. (if c == sep then [] ∷ ws else add_head c ws) ≡ [] → ⊥) [
      | [] ↦ λ e. ground arith
      | w ∷ ws ↦ λ e. ground arith
    ]
      h

-- no part of a split holds the separator
pub split-Lacks : (sep : ℕ) (s : Text) → All (Lacks sep) (split sep s)
unfolding split
split-Lacks sep [] = (tt, tt)
split-Lacks sep (c ∷ s) = go (split sep s) (split-Lacks sep s)
  where
    go :
        (ws : List Text)
        → All (Lacks sep) ws
        → All (Lacks sep) (if c == sep then [] ∷ ws else add_head c ws)
    go [] h = ground arith
    go (w ∷ ws) h = ground arith

pub split-append : (sep : ℕ) (w s : Text) → Lacks sep w → split sep (w ++ sep ∷ s) ≡ w ∷ split sep s
unfolding split
split-append sep [] s h = ground arith
split-append sep (c ∷ w) s h = ground (arith, split-append sep w s h.1)

pub split_whole : (sep : ℕ) (w : Text) → Lacks sep w → split sep w ≡ w ∷ []
unfolding split
split_whole sep [] h = refl
split_whole sep (c ∷ w) h = ground (arith, split_whole sep w h.1)

-- Splitting a join gives the parts back.
pub split-join :
    (sep : ℕ) (w : Text) (ws : List Text)
    → All (Lacks sep) (w ∷ ws)
    → split sep (join (sep ∷ []) (w ∷ ws)) ≡ w ∷ ws
unfolding join
split-join sep w [] h = split_whole sep w h.0
split-join sep w (v ∷ ws) h =
    ground (arith, split-append sep w (join (sep ∷ []) (v ∷ ws)) h.0, split-join sep v ws h.1)

pub contains_char-Lacks : (c : ℕ) (s : Text) → contains_char c s ≡ false → Lacks c s
unfolding contains_char
contains_char-Lacks c [] h = tt
contains_char-Lacks c (d ∷ s) h = (ground arith, ground (arith, contains_char-Lacks c s))
