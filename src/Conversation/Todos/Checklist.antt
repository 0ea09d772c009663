-- ===== src/Conversation/Todos/Checklist.antt =====
-- What NormalizeTodos of internal/conversation/todos.go accepts, and what it returns.
use falken_core.Base.{
  ℕ, suc, ◌+◌, ◌≤◌, List, [], ◌∷◌, false, none, ◌≡◌, refl, ap, sym, subst, if◌then◌else◌, length,
  map, ltb, arith, Bool-cases, Option-cases, inl, inr, ◌↔◌,
}
use falken_core.Base.Text.{Text, has_key}
use falken_core.Conversation.Todos.{
  max_todos, Todo, Result, ok, err, ◌>>=◌, validate_todo, normalize_todo, is_in_progress,
  normalize_from, normalize_todos,
}

abbrev pub count_in_progress : List Todo → ℕ
count_in_progress [] = 0
count_in_progress (t ∷ ts) = (if is_in_progress t then 1 else 0) + count_in_progress ts

-- Each item is valid and has an identifier that is not among those seen before it.
abbrev pub IsFresh : List Text → List Todo → Type 0
IsFresh seen [] = Unit
IsFresh seen (t ∷ ts) =
    (validate_todo t ≡ none) × (has_key t.id seen ≡ false) × IsFresh (t.id ∷ seen) ts

-- A checklist: short enough, valid items, no identifier twice, and at most one item in progress.
pub record IsChecklist (ts : List Todo) : Type 0 where
  pub short : length ts ≤ max_todos
  pub fresh : IsFresh [] ts
  pub single : count_in_progress ts ≤ 1

abbrev bump : Todo → ℕ → ℕ
bump todo n = if is_in_progress todo then n + 1 else n

-- What a successful chain went through.
pub bind_ok :
    {A B : Type 0} (result : Result A) (next : A → Result B) {last : B}
    → (result >>= next) ≡ ok last
    → (a : A) × (result ≡ ok a) × (next a ≡ ok last)
bind_ok (err e) next h = absurd (cc)
bind_ok (ok value) next h = (value, refl, h)

-- One round of the loop that goes on to a result.
round_sound :
    (i : ℕ) (seen : List Text) (n : ℕ) (t : Todo) (ts us : List Todo)
    → normalize_from i seen n (t ∷ ts) ≡ ok us
    → (validate_todo (normalize_todo t) ≡ none)
      × (has_key (normalize_todo t).id seen ≡ false)
      × ((vs : List Todo) × (us ≡ normalize_todo t ∷ vs)
          × (normalize_from (i + 1) ((normalize_todo t).id ∷ seen) (bump (normalize_todo t) n) ts
              ≡ ok vs))
unfolding normalize_from
round_sound i seen n t ts us h = elim (Option-cases (validate_todo (normalize_todo t))) [
  | inr (e, bad) ↦ absurd (ground arith)
  | inl fine ↦ elim (Bool-cases (has_key (normalize_todo t).id seen)) [
    | inl old ↦ absurd (ground arith)
    | inr new ↦ (
      fine,
      new,
      let (vs, p, q) =
            bind_ok
              (normalize_from (i + 1) ((normalize_todo t).id ∷ seen) (bump (normalize_todo t) n) ts)
              (λ todos. ok (normalize_todo t ∷ todos)) {last = us} (ground arith) in
          (vs, ground arith, p),
    )
  ]
]

from_sound :
    (i : ℕ) (seen : List Text) (n : ℕ) (ts us : List Todo)
    → normalize_from i seen n ts ≡ ok us
    → (us ≡ map normalize_todo ts) × IsFresh seen us × (n + count_in_progress us ≤ 1)
from_sound i seen n [] us h = unfold normalize_from in ground arith
from_sound i seen n (t ∷ ts) us h =
    let (fine, new, (vs, e, rest)) = round_sound i seen n t ts us h in
    let (same, fresh, few) =
      from_sound (i + 1) ((normalize_todo t).id ∷ seen) (bump (normalize_todo t) n) ts vs rest in
    (
      rw (e, same),
      subst (IsFresh seen) (sym e) (fine, new, fresh),
      subst (λ ws. n + count_in_progress ws ≤ 1) (sym e) (ground arith),
    )

from_complete :
    (i : ℕ) (seen : List Text) (n : ℕ) (ts : List Todo)
    → IsFresh seen (map normalize_todo ts)
    → n + count_in_progress (map normalize_todo ts) ≤ 1
    → normalize_from i seen n ts ≡ ok (map normalize_todo ts)
unfolding normalize_from
from_complete i seen n [] h c = ground arith
from_complete i seen n (t ∷ ts) h c = ground (
  arith,
  h.0,
  h.1,
  from_complete (i + 1) ((normalize_todo t).id ∷ seen)
      (if is_in_progress (normalize_todo t) then n + 1 else n) ts h.2,
)

length-map {ℓ κ} :
    {A : Type ℓ} {B : Type κ} (f : A → B) (xs : List A) → length (map f xs) ≡ length xs
length-map f [] = refl
length-map f (x ∷ xs) = ap suc (length-map f xs)

-- Normalizing succeeds exactly if the trimmed items are a checklist, and then returns them, all and
-- in their order.
pub normalize_exact :
    (ts us : List Todo)
    → (normalize_todos ts ≡ ok us) ↔ ((us ≡ map normalize_todo ts) × IsChecklist us)
normalize_exact ts us = (to, from)
  where
    to : normalize_todos ts ≡ ok us → (us ≡ map normalize_todo ts) × IsChecklist us
    to h = elim (Bool-cases (ltb max_todos (length ts))) [
      | inl long ↦ absurd (unfold normalize_todos in ground arith)
      | inr short ↦
          let (same, fresh, few) =
            from_sound 0 [] 0 ts us (unfold normalize_todos in ground arith) in
          (
            same,
            record {
              short = rw (same, length-map) (ground arith);
              fresh = fresh;
              single = omega arith;
            },
          )
    ]

    from : (us ≡ map normalize_todo ts) × IsChecklist us → normalize_todos ts ≡ ok us
    from (same, c) =
        let few : count_in_progress (map normalize_todo ts) ≤ 1 =
          subst (λ ws. count_in_progress ws ≤ 1) same c.single in
        let short : length (map normalize_todo ts) ≤ max_todos =
          subst (λ ws. length ws ≤ max_todos) same c.short in
        let all = from_complete 0 [] 0 ts (subst (IsFresh []) same c.fresh) (omega arith) in
        unfold normalize_todos in ground (arith, length-map normalize_todo ts)
