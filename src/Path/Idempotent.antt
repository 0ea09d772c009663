-- ===== src/Path/Idempotent.antt =====
-- A cleaned path is not changed by cleaning it again.
use mathlib.Core.List.{foldl, reverse, foldl-append, reverse-cons}
use falken_core.Base.{
  ℕ, List, [], ◌∷◌, Bool, true, false, ◌≡◌, ◌≢◌, refl, ap, ◌∙◌, arith, All, All-append, Bool-cases,
  inl, inr,
}
use falken_core.Base.Text.{Text, text_eq, has_prefix}
use falken_core.Base.Text.Laws.{text_eq_iff}
use falken_core.Base.Text.Split.{Lacks, split, join, split-Lacks, split-join}
use falken_core.Path.{slash, dot, dot_dot, back, push, reduce, render, clean}

-- An element that a cleaned path keeps.
abbrev pub IsElement : Text → Type 0
IsElement w = (w ≢ []) × (w ≢ dot) × Lacks b'/' w

-- A `..` is kept only in front, and only in a path that is not rooted.
abbrev pub IsKept : Bool → List Text → Type 0
IsKept rooted [] = Unit
IsKept rooted (w ∷ kept) =
    IsElement w
    × (w ≡ dot_dot → (rooted ≡ false) × All (λ v. v ≡ dot_dot) kept)
    × IsKept rooted kept

dot_dot-IsElement : IsElement dot_dot
dot_dot-IsElement = (cc, ground arith, (ground arith, (ground arith, tt)))

back-IsKept :
    (rooted : Bool) (kept : List Text) → IsKept rooted kept → IsKept rooted (back rooted kept)
unfolding back
back-IsKept true [] h = tt
back-IsKept false [] h = (dot_dot-IsElement, (λ _. (refl, tt)), tt)
back-IsKept rooted (w ∷ kept) h = elim (Bool-cases (text_eq w dot_dot)) [
  | inl up ↦
      let e = (text_eq_iff w dot_dot).0 up in
      rw up (dot_dot-IsElement, (λ _. ((h.1 e).0, (e, (h.1 e).1))), h)
  | inr other ↦ rw other h.2
]

push-IsKept :
    (rooted : Bool) (kept : List Text) (w : Text)
    → IsKept rooted kept
    → Lacks b'/' w
    → IsKept rooted (push rooted kept w)
unfolding push
push-IsKept rooted kept [] h l = h
push-IsKept rooted kept (c ∷ w) h l = elim (Bool-cases (text_eq (c ∷ w) dot)) [
  | inl stay ↦ rw stay h
  | inr keep ↦ elim (Bool-cases (text_eq (c ∷ w) dot_dot)) [
    | inl up ↦ rw (keep, up) (back-IsKept rooted kept h)
    | inr name ↦
        rw (keep, name)
          (
            (cc, (λ e. cc ((text_eq_iff (c ∷ w) dot).1 e)), l),
            (λ e. absurd (cc ((text_eq_iff (c ∷ w) dot_dot).1 e))),
            h,
          )
  ]
]

back_again :
    (rooted : Bool) (kept : List Text)
    → rooted ≡ false
    → All (λ v. v ≡ dot_dot) kept
    → back rooted kept ≡ dot_dot ∷ kept
unfolding back
back_again rooted [] r h = ground arith
back_again rooted (w ∷ kept) r h = rw ((text_eq_iff w dot_dot).1 h.0)

-- What is kept is kept when it is pushed again, in the same order.
push_again :
    (rooted : Bool) (w : Text) (kept : List Text)
    → IsKept rooted (w ∷ kept)
    → push rooted kept w ≡ w ∷ kept
unfolding push
push_again rooted [] kept h = absurd (h.0.0 refl)
push_again rooted (c ∷ w) kept h =
    ground
      (arith, text_eq_iff (c ∷ w) dot, text_eq_iff (c ∷ w) dot_dot, h.1, back_again rooted kept)

pub foldl-IsKept :
    (rooted : Bool) (kept ws : List Text)
    → IsKept rooted kept
    → All (Lacks b'/') ws
    → IsKept rooted (foldl (push rooted) kept ws)
foldl-IsKept rooted kept [] h l = h
foldl-IsKept rooted kept (w ∷ ws) h l =
    foldl-IsKept rooted (push rooted kept w) ws (push-IsKept rooted kept w h l.0) l.1

foldl_again :
    (rooted : Bool) (kept : List Text)
    → IsKept rooted kept
    → foldl (push rooted) [] (reverse kept) ≡ kept
foldl_again rooted [] h = refl
foldl_again rooted (w ∷ kept) h =
    rw (reverse-cons, foldl-append, foldl_again rooted kept h.2) (push_again rooted w kept h)

pub reverse-IsElement :
    (rooted : Bool) (kept : List Text) → IsKept rooted kept → All IsElement (reverse kept)
reverse-IsElement rooted [] h = tt
reverse-IsElement rooted (w ∷ kept) h =
    rw reverse-cons
      (All-append IsElement (reverse kept) (w ∷ []) (reverse-IsElement rooted kept h.2) (h.0, tt))

elements-Lacks : (ws : List Text) → All IsElement ws → All (Lacks b'/') ws
elements-Lacks [] h = tt
elements-Lacks (w ∷ ws) h = (h.0.2, elements-Lacks ws h.1)

join-cons_head :
    (sep : Text) (c : ℕ) (w : Text) (ws : List Text)
    → join sep ((c ∷ w) ∷ ws) ≡ c ∷ join sep (w ∷ ws)
unfolding join
join-cons_head sep c w [] = refl
join-cons_head sep c w (v ∷ ws) = refl

-- splitting the joined elements again loses nothing that `push` would keep
foldl-split-join :
    (rooted : Bool) (ws : List Text)
    → All IsElement ws
    → foldl (push rooted) [] (split b'/' (join slash ws)) ≡ foldl (push rooted) [] ws
foldl-split-join rooted [] h = unfold split join push in refl
foldl-split-join rooted (w ∷ ws) h = rw (split-join b'/' w ws (elements-Lacks (w ∷ ws) h))

module _ (rooted : Bool) (kept : List Text) (h : IsKept rooted kept) where
  reduce_again : reduce rooted (split b'/' (join slash (reverse kept))) ≡ reverse kept
  unfolding reduce
  reduce_again =
      rw (foldl-split-join rooted (reverse kept) (reverse-IsElement rooted kept h))
        (ap reverse (foldl_again rooted kept h))

reduce-slash : (s : Text) → reduce true (split b'/' (b'/' ∷ s)) ≡ reduce true (split b'/' s)
unfolding reduce split push
reduce-slash s = refl

clean-rooted : (s : Text) → clean (b'/' ∷ s) ≡ b'/' ∷ join slash (reduce true (split b'/' s))
unfolding clean
clean-rooted s = rw (reduce-slash s)

clean-relative :
    (c : ℕ) (s : Text)
    → c ≢ b'/'
    → clean (c ∷ s) ≡ render false (join slash (reduce false (split b'/' (c ∷ s))))
unfolding clean
clean-relative c s h = ground arith

relative_again :
    (ws : List Text)
    → All IsElement ws
    → reduce false (split b'/' (join slash ws)) ≡ ws
    → clean (render false (join slash ws)) ≡ render false (join slash ws)
relative_again [] h e = unfold clean in refl
relative_again ([] ∷ vs) h e = absurd (h.0.0 refl)
relative_again ((c ∷ w) ∷ vs) h e =
    let f = join-cons_head slash c w vs in
    let r : render false (join slash ((c ∷ w) ∷ vs)) ≡ join slash ((c ∷ w) ∷ vs) =
      unfold render in rw f in
    cc (f, e, r, clean-relative c (join slash (w ∷ vs)) h.0.2.0)

clean-render :
    (rooted : Bool) (kept : List Text)
    → IsKept rooted kept
    → clean (render rooted (join slash (reverse kept))) ≡ render rooted (join slash (reverse kept))
clean-render true kept h =
    unfold render in
    clean-rooted (join slash (reverse kept))
    ∙ ap (λ ws. b'/' ∷ join slash ws) (reduce_again true kept h)
clean-render false kept h =
    relative_again (reverse kept) (reverse-IsElement false kept h) (reduce_again false kept h)

pub clean-clean : (p : Text) → clean (clean p) ≡ clean p
clean-clean [] = unfold clean in refl
clean-clean (c ∷ s) =
    let rooted = has_prefix (c ∷ s) slash in
    let ws = split b'/' (c ∷ s) in
    unfold clean reduce in
    clean-render rooted (foldl (push rooted) [] ws)
      (foldl-IsKept rooted [] ws tt (split-Lacks b'/' (c ∷ s)))
