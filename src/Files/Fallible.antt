-- ===== src/Files/Fallible.antt =====
-- The result of a function of internal/files that returns a value and an error.
use falken_core.Base.{Bool, true, false, not, ◌≡◌, refl, arith, if◌then◌else◌}

pub data Fallible (E A : Type 0) : Type 0 where
  ok : A → Fallible E A
  err : E → Fallible E A

-- if err != nil { return err }
abbrev pub and_then : {E A B : Type 0} → Fallible E A → (A → Fallible E B) → Fallible E B
and_then (ok a) next = next a
and_then (err e) next = err e

pub and_then_ok :
    {E A B : Type 0} (r : Fallible E A) (next : A → Fallible E B) (b : B)
    → and_then r next ≡ ok b
    → (a : A) × (r ≡ ok a) × (next a ≡ ok b)
and_then_ok (ok a) next b h = (a, refl, h)
and_then_ok (err e) next b h = absurd (ground arith)

pub ok_pair_injective :
    {E A B : Type 0} {a a' : A} {b b' : B}
    → ◌≡◌ {A = Fallible E (A × B)} (ok (a, b)) (ok (a', b'))
    → (a ≡ a') × (b ≡ b')
ok_pair_injective h = (cc, cc)

-- What both branches have, the result of a test has.
pub if_both :
    {A : Type 0} (P : A → Type 0) (b : Bool) (x y : A) → P x → P y → P (if b then x else y)
if_both P true x y p q = p
if_both P false x y p q = q

-- As `if_both`, with what the test gives.
pub if_split :
    {A : Type 0} (P : A → Type 0) (b : Bool) (x y : A)
    → (b ≡ true → P x)
    → (b ≡ false → P y)
    → P (if b then x else y)
if_split P true x y p q = p refl
if_split P false x y p q = q refl

pub fallible_split :
    {E A B : Type 0} (P : B → Type 0) (x : Fallible E A) (f : E → B) (g : A → B)
    → ((e : E) → x ≡ err e → P (f e))
    → ((a : A) → x ≡ ok a → P (g a))
    → P (elim x [ err e ↦ f e | ok a ↦ g a ])
fallible_split P (err e) f g p q = p e refl
fallible_split P (ok a) f g p q = q a refl

pub not-false : (b : Bool) → not b ≡ false → b ≡ true
not-false true h = refl
not-false false h = absurd (cc)
