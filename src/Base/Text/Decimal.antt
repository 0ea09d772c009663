-- ===== src/Base/Text/Decimal.antt =====
-- The verb %d of fmt for a number that is not negative.
use mathlib.Core.List.{foldl}
use falken_core.Base.{
  ℕ, zero, suc, ◌+◌, ◌-◌, ◌*◌, ◌/◌, ◌%◌, ◌≤◌, [], ◌∷◌, ◌≡◌, refl, ap, arith, ◌==◌, if◌then◌else◌,
}
use falken_core.Base.Text.{Text, codes}

-- One round for each digit; the fuel is the number itself.
digits : ℕ → ℕ → Text → Text
digits zero n out = out
digits (suc fuel) n out =
    let rest = digits fuel (n / 10) ((b'0' + n % 10) ∷ out) in if n == 0 then out else rest

unfoldable pub decimal : ℕ → Text
unfolding digits
decimal n = if n == 0 then b'0' ∷ [] else digits n n []

decimal_runs : decimal 65535 ≡ codes "65535"
unfolding decimal
decimal_runs = refl

abbrev value : ℕ → Text → ℕ
value = foldl (λ n c. n * 10 + (c - b'0'))

value-digits : (fuel n : ℕ) (out : Text) → n ≤ fuel → value 0 (digits fuel n out) ≡ value n out
unfolding digits
value-digits zero n out h = let e : n ≡ 0 = omega arith in rw e
value-digits (suc fuel) n out h =
    let e : n / 10 * 10 + (b'0' + n % 10 - b'0') ≡ n = omega arith in
    let ih = value-digits fuel (n / 10) ((b'0' + n % 10) ∷ out) in
    ground (arith, ih, ap (λ m. value m out) e)

value-decimal : (n : ℕ) → value 0 (decimal n) ≡ n
unfolding decimal
value-decimal n = ground (arith, value-digits n n [])

-- Two numbers with the same print are the same number.
pub decimal_injective : (m n : ℕ) → decimal m ≡ decimal n → m ≡ n
decimal_injective m n e = cc (value-decimal m, value-decimal n, ap (value 0) e)
