-- ===== src/Path/Trailing.antt =====
-- A cleaned path ends in a slash only if it is the root.
use mathlib.Core.List.{foldl, reverse}
use falken_core.Base.{
  ℕ, List, [], ◌∷◌, ◌++◌, Bool, true, false, ◌≡◌, ◌≢◌, ◌⊎◌, inl, inr, refl, arith, All,
}
use falken_core.Base.Text.{Text, has_prefix, trim_right_char}
use falken_core.Base.Text.Split.{Lacks, split, join, split-Lacks}
use falken_core.Path.{slash, push, reduce, render, clean}
use falken_core.Path.Idempotent.{IsElement, foldl-IsKept, reverse-IsElement}

trim-append :
    (c : ℕ) (s t : Text) → t ≢ [] → trim_right_char c t ≡ t → trim_right_char c (s ++ t) ≡ s ++ t
unfolding trim_right_char
trim-append c [] t n h = h
trim-append c (d ∷ []) [] n h = absurd (n refl)
trim-append c (d ∷ []) (b ∷ t) n h = ground arith
trim-append c (d ∷ (a ∷ s)) t n h = ground (arith, trim-append c (a ∷ s) t n h)

trim_Lacks : (c : ℕ) (s : Text) → Lacks c s → trim_right_char c s ≡ s
unfolding trim_right_char
trim_Lacks c [] h = refl
trim_Lacks c (d ∷ s) h = ground (arith, trim_Lacks c s h.1)

join-ne-nil : (w : Text) (ws : List Text) → IsElement w → join slash (w ∷ ws) ≢ []
unfolding join
join-ne-nil [] ws h e = h.0 refl
join-ne-nil (c ∷ w) [] h e = cc
join-ne-nil (c ∷ w) (v ∷ ws) h e = cc

trim-join :
    (ws : List Text) → All IsElement ws → trim_right_char b'/' (join slash ws) ≡ join slash ws
unfolding join
trim-join [] h = unfold trim_right_char in refl
trim-join (w ∷ []) h = trim_Lacks b'/' w h.0.2
trim-join (w ∷ (v ∷ ws)) h =
    trim-append b'/' w (slash ++ join slash (v ∷ ws)) (cc) (
      trim-append b'/' slash (join slash (v ∷ ws)) (join-ne-nil v ws h.1.0)
        (trim-join (v ∷ ws) h.1))

trim-render :
    (rooted : Bool) (ws : List Text)
    → All IsElement ws
    → (trim_right_char b'/' (render rooted (join slash ws)) ≡ render rooted (join slash ws))
      ⊎ (render rooted (join slash ws) ≡ slash)
unfolding render
trim-render true [] h = inr (unfold join in refl)
trim-render true (w ∷ ws) h =
    inl (trim-append b'/' slash (join slash (w ∷ ws)) (join-ne-nil w ws h.0) (trim-join (w ∷ ws) h))
trim-render false [] h = inl (unfold join trim_right_char in refl)
trim-render false (w ∷ ws) h = inl (ground (arith, join-ne-nil w ws h.0, trim-join (w ∷ ws) h))

pub trim-clean : (p : Text) → (trim_right_char b'/' (clean p) ≡ clean p) ⊎ (clean p ≡ slash)
trim-clean [] = inl (unfold clean trim_right_char in refl)
trim-clean (c ∷ s) =
    let rooted = has_prefix (c ∷ s) slash in
    let ws = split b'/' (c ∷ s) in
    unfold clean reduce in
    trim-render rooted (reverse (foldl (push rooted) [] ws)) (
      reverse-IsElement rooted (foldl (push rooted) [] ws)
        (foldl-IsKept rooted [] ws tt (split-Lacks b'/' (c ∷ s))))

render-ne-nil : (rooted : Bool) (body : Text) → render rooted body ≢ []
unfolding render
render-ne-nil rooted body h = ground arith

pub clean-ne-nil : (p : Text) → clean p ≢ []
unfolding clean
clean-ne-nil [] h = cc
clean-ne-nil (c ∷ s) h =
    render-ne-nil (has_prefix (c ∷ s) slash)
      (join slash (reduce (has_prefix (c ∷ s) slash) (split b'/' (c ∷ s)))) h
