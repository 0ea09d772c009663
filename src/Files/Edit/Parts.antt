-- ===== src/Files/Edit/Parts.antt =====
-- The parts of a text between the occurrences of another: what strings.Replace leaves.
use falken_core.Base.{
  ℕ, zero, suc, ◌-◌, ◌≤◌, [], ◌∷◌, ◌++◌, List, Bool, true, false, Option, none, some, ◌≡◌, ◌≢◌, inl,
  inr, refl, ap, sym, ◌∙◌, arith, if◌then◌else◌, length, drop, Bool-cases, All, append_assoc,
  append-nil,
}
use falken_core.Base.Text.{Text, has_prefix}
use falken_core.Base.Text.Laws.{has_prefix_sound, has_prefix-append}
use falken_core.Base.Text.Split.{join}
use falken_core.Files.Edit.Replace.{count_from, replace_from, count_text, replace_text}

abbrev into_head : ℕ → List Text → List Text
into_head c [] = (c ∷ []) ∷ []
into_head c (w ∷ ws) = (c ∷ w) ∷ ws

unfoldable parts_from : Text → ℕ → Text → List Text
unfolding has_prefix
parts_from old skip [] = [] ∷ []
parts_from old (suc skip) (c ∷ s) = parts_from old skip s
parts_from old zero (c ∷ s) =
    let hit = has_prefix (c ∷ s) old in
    let rest = parts_from old (if hit then length old - 1 else 0) s in
    if hit then [] ∷ rest else into_head c rest

join-into_head : (sep : Text) (c : ℕ) (ws : List Text) → join sep (into_head c ws) ≡ c ∷ join sep ws
unfolding join
join-into_head sep c [] = refl
join-into_head sep c (w ∷ []) = refl
join-into_head sep c (w ∷ (v ∷ ws)) = refl

join_cons : (sep : Text) (ws : List Text) → ws ≢ [] → join sep ([] ∷ ws) ≡ sep ++ join sep ws
unfolding join
join_cons sep [] h = absurd (h refl)
join_cons sep (w ∷ ws) h = refl

into_head-ne-nil :
    (hit : Bool) (c : ℕ) (ws : List Text) → (if hit then [] ∷ ws else into_head c ws) ≢ []
into_head-ne-nil true c ws h = cc
into_head-ne-nil false c [] h = cc
into_head-ne-nil false c (w ∷ ws) h = cc

parts-ne-nil : (old : Text) (skip : ℕ) (s : Text) → parts_from old skip s ≢ []
unfolding parts_from
parts-ne-nil old skip [] h = cc
parts-ne-nil old (suc skip) (c ∷ s) h = parts-ne-nil old skip s h
parts-ne-nil old zero (c ∷ s) h = elim (Bool-cases (has_prefix (c ∷ s) old)) [
  | inl hit ↦ into_head-ne-nil true c _ (rw hit at h)
  | inr miss ↦ into_head-ne-nil false c _ (rw miss at h)
]

length-into_head : (c : ℕ) (ws : List Text) → ws ≢ [] → length (into_head c ws) ≡ length ws
length-into_head c [] h = absurd (h refl)
length-into_head c (w ∷ ws) h = refl

prefix_whole : (s old : Text) → has_prefix s old ≡ true → old ++ drop (length old) s ≡ s
unfolding has_prefix
prefix_whole s [] h = refl
prefix_whole [] (d ∷ old) h = ground arith
prefix_whole (c ∷ s) (d ∷ old) h = ground (arith, prefix_whole s old)

join-parts :
    (old : Text) (skip : ℕ) (s : Text) → old ≢ [] → join old (parts_from old skip s) ≡ drop skip s
unfolding parts_from join
join-parts old zero [] n = refl
join-parts old (suc skip) [] n = refl
join-parts old (suc skip) (c ∷ s) n = join-parts old skip s n
join-parts [] zero (c ∷ s) n = absurd (n refl)
join-parts (d ∷ old) zero (c ∷ s) n = elim (Bool-cases (has_prefix (c ∷ s) (d ∷ old))) [
  | inl hit ↦
      let k = length (d ∷ old) - 1 in
      let e : k ≡ length old = omega arith in
      let more : join (d ∷ old) (parts_from (d ∷ old) k s) ≡ drop (length old) s =
        join-parts (d ∷ old) k s n ∙ ap (λ m. drop m s) e in
      rw hit (
        join_cons (d ∷ old) (parts_from (d ∷ old) k s) (parts-ne-nil (d ∷ old) k s)
        ∙ (rw more (prefix_whole (c ∷ s) (d ∷ old) hit)))
  | inr miss ↦ rw miss (
      join-into_head (d ∷ old) c (parts_from (d ∷ old) 0 s)
      ∙ ap (λ t. c ∷ t) (join-parts (d ∷ old) 0 s n))
]

join-replaced :
    (old new : Text) (skip : ℕ) (s : Text)
    → replace_from old new none skip s ≡ join new (parts_from old skip s)
unfolding parts_from replace_from join
join-replaced old new skip [] = refl
join-replaced old new (suc skip) (c ∷ s) = join-replaced old new skip s
join-replaced old new zero (c ∷ s) = elim (Bool-cases (has_prefix (c ∷ s) old)) [
  | inl hit ↦ rw hit (
      ap (λ t. new ++ t) (join-replaced old new (length old - 1) s)
      ∙ sym
          (join_cons new (parts_from old (length old - 1) s) (parts-ne-nil old (length old - 1) s)))
  | inr miss ↦ rw miss (
      ap (λ t. c ∷ t) (join-replaced old new 0 s) ∙ sym (join-into_head new c (parts_from old 0 s)))
]

length-parts :
    (old : Text) (skip : ℕ) (s : Text)
    → length (parts_from old skip s) ≡ suc (count_from old skip s)
unfolding parts_from count_from
length-parts old skip [] = refl
length-parts old (suc skip) (c ∷ s) = length-parts old skip s
length-parts old zero (c ∷ s) = elim (Bool-cases (has_prefix (c ∷ s) old)) [
  | inl hit ↦ rw hit (ap suc (length-parts old (length old - 1) s))
  | inr miss ↦
      rw miss
        (length-into_head c (parts_from old 0 s) (parts-ne-nil old 0 s) ∙ length-parts old 0 s)
]

-- A limit that the occurrences do not reach is none.
replace_unlimited :
    (old new : Text) (n skip : ℕ) (s : Text)
    → count_from old skip s ≤ n
    → replace_from old new (some n) skip s ≡ replace_from old new none skip s
unfolding replace_from count_from
replace_unlimited old new n skip [] h = refl
replace_unlimited old new n (suc skip) (c ∷ s) h = replace_unlimited old new n skip s h
replace_unlimited old new zero zero (c ∷ s) h = elim (Bool-cases (has_prefix (c ∷ s) old)) [
  | inl hit ↦ absurd (ground arith)
  | inr miss ↦ rw miss (ap (λ t. c ∷ t) (replace_unlimited old new 0 0 s (rw miss at h)))
]
replace_unlimited old new (suc n) zero (c ∷ s) h = elim (Bool-cases (has_prefix (c ∷ s) old)) [
  | inl hit ↦
      let fewer : suc (count_from old (length old - 1) s) ≤ suc n = rw hit at h in
      rw hit (ap (λ t. new ++ t) (replace_unlimited old new n (length old - 1) s (omega arith)))
  | inr miss ↦ rw miss (ap (λ t. c ∷ t) (replace_unlimited old new (suc n) 0 s (rw miss at h)))
]

count_none :
    (old : Text) (c : ℕ) (w : Text)
    → has_prefix (c ∷ w) old ≡ false
    → count_from old 0 w ≡ 0
    → count_from old 0 (c ∷ w) ≡ 0
unfolding count_from
count_none old c w miss h = rw (miss, h)

prefix-append : (s t old : Text) → has_prefix s old ≡ true → has_prefix (s ++ t) old ≡ true
prefix-append s t old h =
    let (u, e) = has_prefix_sound s old h in
    rw (e, append_assoc old u t) (has_prefix-append old (u ++ t))

-- No part has an occurrence of its own.
abbrev Free : Text → List Text → Type 0
Free old = All (λ w. count_from old 0 w ≡ 0)

join_starts : (sep w : Text) (ws : List Text) → (v : Text) × (join sep (w ∷ ws) ≡ w ++ v)
unfolding join
join_starts sep w [] = ([], sym (append-nil w))
join_starts sep w (v ∷ ws) = (sep ++ join sep (v ∷ ws), refl)

into_head-Free :
    (old : Text) (c : ℕ) (ws : List Text)
    → has_prefix (c ∷ join old ws) old ≡ false
    → Free old ws
    → Free old (into_head c ws)
unfolding join
into_head-Free old c [] miss free = (count_none old c [] miss (unfold count_from in refl), tt)
into_head-Free old c (w ∷ ws) miss free =
    let (v, e) = join_starts old w ws in
    let whole : has_prefix ((c ∷ w) ++ v) old ≡ false = rw e at miss in
    let none : has_prefix (c ∷ w) old ≡ false = elim (Bool-cases (has_prefix (c ∷ w) old)) [
      | inl hit ↦ let more = prefix-append (c ∷ w) v old hit in absurd (cc)
      | inr miss' ↦ miss'
    ] in
    (count_none old c w none free.0, free.1)

parts-Free : (old : Text) (skip : ℕ) (s : Text) → old ≢ [] → Free old (parts_from old skip s)
unfolding parts_from count_from
parts-Free old skip [] n = (refl, tt)
parts-Free old (suc skip) (c ∷ s) n = parts-Free old skip s n
parts-Free old zero (c ∷ s) n = elim (Bool-cases (has_prefix (c ∷ s) old)) [
  | inl hit ↦ rw hit (refl, parts-Free old (length old - 1) s n)
  | inr miss ↦
      let whole = join-parts old 0 s n in
      rw miss (into_head-Free old c (parts_from old 0 s) (rw whole miss) (parts-Free old 0 s n))
]

-- Replacing every occurrence, or up to a limit that they do not pass, is to put the new text in place of
-- the old one between parts that have no occurrence of it.
pub replace_parts :
    (s old new : Text) (limit : Option ℕ)
    → old ≢ []
    → ((n : ℕ) → limit ≡ some n → count_text s old ≤ n)
    → (parts : List Text) × (s ≡ join old parts)
      × (replace_text s old new limit ≡ join new parts)
      × (length parts ≡ suc (count_text s old))
      × All (λ w. count_text w old ≡ 0) parts
unfolding replace_text count_text
replace_parts s old new limit n enough = (
  parts_from old 0 s,
  sym (join-parts old 0 s n),
  unlimited limit enough ∙ join-replaced old new 0 s,
  length-parts old 0 s,
  parts-Free old 0 s n,
)
  where
    unlimited :
        (limit : Option ℕ)
        → ((n : ℕ) → limit ≡ some n → count_from old 0 s ≤ n)
        → replace_from old new limit 0 s ≡ replace_from old new none 0 s
    unlimited none enough = refl
    unlimited (some n) enough = replace_unlimited old new n 0 s (enough n refl)
