-- ===== src/Output/Slices.antt =====
-- The front and the back of what is written in chunks.
use falken_core.Base.{
  ℕ, zero, suc, ◌-◌, ◌≤◌, List, [], ◌∷◌, ◌++◌, append_assoc, true, ◌≡◌, refl, sym, ap, ◌∙◌, arith,
  if◌then◌else◌, length, take, drop, is_nil, ltb, leb, min, take-append-drop, Bool-cases, inl, inr,
}

module _ {ℓ} {A : Type ℓ} where
  pub take_all : (n : ℕ) (xs : List A) → length xs ≤ n → take n xs ≡ xs
  take_all zero [] h = refl
  take_all zero (x ∷ xs) h = absurd (omega arith)
  take_all (suc n) [] h = refl
  take_all (suc n) (x ∷ xs) h = ap (λ ys. x ∷ ys) (take_all n xs (omega arith))

  -- taking past the front goes on in the back
  take-append_past :
      (n : ℕ) (xs ys : List A) → length xs ≤ n → take n (xs ++ ys) ≡ xs ++ take (n - length xs) ys
  take-append_past n [] ys h = let e : n - 0 ≡ n = omega arith in rw e
  take-append_past zero (x ∷ xs) ys h = absurd (omega arith)
  take-append_past (suc n) (x ∷ xs) ys h =
      let e : suc n - suc (length xs) ≡ n - length xs = omega arith in
      rw e (ap (λ zs. x ∷ zs) (take-append_past n xs ys (omega arith)))

  take-append_within : (n : ℕ) (xs ys : List A) → n ≤ length xs → take n (xs ++ ys) ≡ take n xs
  take-append_within zero xs ys h = refl
  take-append_within (suc n) [] ys h = absurd (omega arith)
  take-append_within (suc n) (x ∷ xs) ys h =
      ap (λ zs. x ∷ zs) (take-append_within n xs ys (omega arith))

  take-min : (n : ℕ) (xs : List A) → take (min (length xs) n) xs ≡ take n xs
  take-min n xs = elim (Bool-cases (leb n (length xs))) [
    | inl long ↦ let e : min (length xs) n ≡ n = ground arith in rw e
    | inr short ↦
        let e : min (length xs) n ≡ length xs = ground arith in
        rw e (take_all (length xs) xs (omega arith) ∙ sym (take_all n xs (ground arith)))
  ]

  -- What was kept of the front, and what a chunk adds to it.
  pub take_step :
      (n : ℕ) (xs ys : List A)
      → (if ltb (length xs) n
          then take n xs ++ take (min (length ys) (n - length xs)) ys
          else take n xs)
        ≡ take n (xs ++ ys)
  take_step n xs ys = elim (Bool-cases (ltb (length xs) n)) [
    | inl room ↦
        rw (room, take-min (n - length xs) ys, take_all n xs (ground arith))
          (sym (take-append_past n xs ys (ground arith)))
    | inr full ↦ rw full (sym (take-append_within n xs ys (ground arith)))
  ]

  -- What was kept of the front and the rest of the chunk are all that was written.
  pub take-drop_step :
      (n : ℕ) (xs ys : List A)
      → length xs ≤ n
      → take n (xs ++ ys) ++ drop (n - length xs) ys ≡ xs ++ ys
  take-drop_step n xs ys h = rw (take-append_past n xs ys h, append_assoc, take-append-drop)

pub is_nil-eq {ℓ} : {A : Type ℓ} (xs : List A) → is_nil xs ≡ true → xs ≡ []
is_nil-eq [] h = refl
is_nil-eq (x ∷ xs) h = cc

pub drop_none {ℓ} : {A : Type ℓ} (n : ℕ) (xs : List A) → n ≡ 0 → drop n xs ≡ xs
drop_none zero xs h = refl
drop_none (suc n) xs h = absurd (omega arith)
