-- ===== src/Base/Text/Laws.antt =====
-- Laws of the text functions.
use Prim.Native.Nat.{ℕ, ◌-◌, ◌≤◌}
use mathlib.Core.Path.{◌≡◌, refl, ap}
use mathlib.Core.Logic.{◌↔◌, inl, inr}
use mathlib.Core.Bool.{Bool, true}
use mathlib.Core.List.{List, [], ◌∷◌, ◌++◌}
use native.Mathlib.Omega.{arith}
use falken_core.Base.Tests.{Bool-cases, if◌then◌else◌}
use falken_core.Base.Lists.{length, take, drop, length-append, take-append-drop, drop-append_length}
use falken_core.Base.Text.{
  Text, text_eq, has_prefix, has_suffix, trim_left, trim_right, trim_space, is_space, has_key,
}

pub text_eq_sound : (s t : Text) → text_eq s t ≡ true → s ≡ t
unfolding text_eq
text_eq_sound [] [] h = refl
text_eq_sound [] (d ∷ t) h = cc
text_eq_sound (c ∷ s) [] h = cc
text_eq_sound (c ∷ s) (d ∷ t) h = ground (arith, text_eq_sound s t)

pub text_eq_refl : (s : Text) → text_eq s s ≡ true
unfolding text_eq
text_eq_refl [] = refl
text_eq_refl (c ∷ s) = ground (arith, text_eq_refl s)

pub text_eq_iff : (s t : Text) → (text_eq s t ≡ true) ↔ (s ≡ t)
text_eq_iff s t = (text_eq_sound s t, λ e. rw e (text_eq_refl t))

pub has_prefix_sound : (s t : Text) → has_prefix s t ≡ true → (u : Text) × (s ≡ t ++ u)
unfolding has_prefix
has_prefix_sound s [] h = (s, refl)
has_prefix_sound [] (d ∷ t) h = absurd (cc)
has_prefix_sound (c ∷ s) (d ∷ t) h =
    let (u, e) = has_prefix_sound s t (ground arith) in (u, ground arith)

pub has_prefix-append : (t u : Text) → has_prefix (t ++ u) t ≡ true
unfolding has_prefix
has_prefix-append [] u = refl
has_prefix-append (d ∷ t) u = ground (arith, has_prefix-append t u)

pub has_suffix_sound : (s t : Text) → has_suffix s t ≡ true → (u : Text) × (s ≡ u ++ t)
unfolding has_suffix
has_suffix_sound s t h = (
  take (length s - length t) s,
  ground (
    arith,
    take-append-drop (length s - length t) s,
    text_eq_sound (drop (length s - length t) s) t,
  ),
)

pub has_suffix-append : (u t : Text) → has_suffix (u ++ t) t ≡ true
unfolding has_suffix
has_suffix-append u t =
    let e : length (u ++ t) - length t ≡ length u = omega (arith, length-append u t) in
    rw (e, drop-append_length u t, text_eq_refl t) (ground (arith, length-append u t))

-- A trimmed text is not changed by trimming it again.
pub trim_right_idem : (p : ℕ → Bool) (s : Text) → trim_right p (trim_right p s) ≡ trim_right p s
unfolding trim_right
trim_right_idem p [] = refl
trim_right_idem p (c ∷ s) = ground (arith, trim_right_idem p s)

pub trim_left_idem : (p : ℕ → Bool) (s : Text) → trim_left p (trim_left p s) ≡ trim_left p s
unfolding trim_left
trim_left_idem p [] = refl
trim_left_idem p (c ∷ s) = ground (arith, trim_left_idem p s)

pub has_key_sound : (k : Text) (keys : List Text) → has_key k (k ∷ keys) ≡ true
unfolding has_key
has_key_sound k keys = ground (arith, text_eq_refl k)

-- A text that does not begin with a character to trim keeps its first character.
trim_left-trim_right :
    (p : ℕ → Bool) (s : Text) → trim_left p s ≡ s → trim_left p (trim_right p s) ≡ trim_right p s
unfolding trim_left trim_right
trim_left-trim_right p [] h = refl
trim_left-trim_right p (c ∷ s) h = elim (Bool-cases (p c)) [
  | inl space ↦ absurd (shorter p c s space h)
  | inr kept ↦ rw (kept, kept)
]
  where
    le-trim : (p : ℕ → Bool) (s : Text) → length (trim_left p s) ≤ length s
    le-trim p [] = omega arith
    le-trim p (c ∷ s) = ground (arith, le-trim p s)

    shorter :
        (p : ℕ → Bool) (c : ℕ) (s : Text)
        → p c ≡ true
        → (if p c then trim_left p s else c ∷ s) ≡ c ∷ s
        → ⊥
    shorter p c s h e = omega (arith, ap length (rw h at e), le-trim p s)

pub trim_space_idem : (s : Text) → trim_space (trim_space s) ≡ trim_space s
unfolding trim_space
trim_space_idem s =
    rw (trim_left-trim_right is_space (trim_left is_space s) (trim_left_idem is_space s))
      (trim_right_idem is_space (trim_left is_space s))
