-- ===== src/Policy/Match/Keys.antt =====
-- The keys under which internal/policy/policy.go keeps the approvals of a session.
use falken_core.Base.{
  ℕ, [], ◌∷◌, ◌++◌, true, false, ◌≡◌, ◌≢◌, ◌⊎◌, inl, inr, refl, arith, Bool-cases,
}
use falken_core.Base.Int.{ℤ, pos, negsuc, is_positive, pos_part}
use falken_core.Base.Text.{Text}
use falken_core.Base.Text.Split.{Lacks}
use falken_core.Base.Text.Decimal.{decimal, decimal_injective}
use falken_core.Policy.Rules.{FileAccessMode}
use falken_core.Policy.Match.{file_approval_key, network_approval_key}

-- A text without the separator is read back from what stands before the first separator.
cut_injective :
    (sep : ℕ) (s s' t t' : Text)
    → Lacks sep s
    → Lacks sep s'
    → s ++ (sep ∷ t) ≡ s' ++ (sep ∷ t')
    → (s ≡ s') × (t ≡ t')
cut_injective sep [] [] t t' h h' e = ground arith
cut_injective sep [] (d ∷ s') t t' h h' e = absurd (ground (arith, h'.0))
cut_injective sep (c ∷ s) [] t t' h h' e = absurd (ground (arith, h.0))
cut_injective sep (c ∷ s) (d ∷ s') t t' h h' e =
    ground (arith, cut_injective sep s s' t t' h.1 h'.1)

cut-ne-whole : (sep : ℕ) (s s' t : Text) → Lacks sep s → s ≢ s' ++ (sep ∷ t)
cut-ne-whole sep [] [] t h e = cc
cut-ne-whole sep [] (d ∷ s') t h e = cc
cut-ne-whole sep (c ∷ s) [] t h e = ground (arith, h.0)
cut-ne-whole sep (c ∷ s) (d ∷ s') t h e = ground (arith, cut-ne-whole sep s s' t h.1)

-- Two file approvals have one key only if they agree in mode and path, when no mode holds a NUL.
pub file_key_injective :
    (path path' : Text) (mode mode' : FileAccessMode)
    → Lacks 0 mode
    → Lacks 0 mode'
    → file_approval_key path mode ≡ file_approval_key path' mode'
    → (mode ≡ mode') × (path ≡ path')
unfolding file_approval_key
file_key_injective path path' mode mode' h h' e = cut_injective 0 mode mode' path path' h h' e

pos-pos_part : (p : ℤ) → is_positive p ≡ true → p ≡ pos (pos_part p)
unfolding is_positive
pos-pos_part (pos n) h = refl
pos-pos_part (negsuc n) h = cc

-- Two network approvals have one key only if they agree in host and port, or have no port both, when
-- no host holds a NUL: an approval for one port never serves another.
pub network_key_injective :
    (host host' : Text) (port port' : ℤ)
    → Lacks 0 host
    → Lacks 0 host'
    → network_approval_key host port ≡ network_approval_key host' port'
    → (host ≡ host') × ((port ≡ port') ⊎ ((is_positive port ≡ false) × (is_positive port' ≡ false)))
unfolding network_approval_key
network_key_injective host host' port port' h h' e = elim (Bool-cases (is_positive port)) [
  | inl p ↦ elim (Bool-cases (is_positive port')) [
    | inl p' ↦
        let e' : host ++ (0 ∷ decimal (pos_part port)) ≡ host' ++ (0 ∷ decimal (pos_part port')) =
          ground arith in
        let both =
          cut_injective 0 host host' (decimal (pos_part port)) (decimal (pos_part port')) h h' e' in
        (
          both.0,
          inl (
              cc (
                pos-pos_part port p,
                pos-pos_part port' p',
                decimal_injective (pos_part port) (pos_part port') both.1,
              )),
        )
    | inr n' ↦ absurd (cut-ne-whole 0 host' host (decimal (pos_part port)) h' (ground arith))
  ]
  | inr n ↦ elim (Bool-cases (is_positive port')) [
    | inl p' ↦ absurd (cut-ne-whole 0 host host' (decimal (pos_part port')) h (ground arith))
    | inr n' ↦ (ground arith, inr (n, n'))
  ]
]
