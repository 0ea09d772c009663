-- ===== src/Files/Edit/Replace.antt =====
-- strings.Count and strings.Replace, at a text to look for that is not empty.
use falken_core.Base.{
  ℕ, zero, suc, ◌-◌, [], ◌∷◌, ◌++◌, Bool, true, false, Option, none, some, ◌≡◌, refl, if◌then◌else◌,
  length,
}
use falken_core.Base.Text.{Text, codes, has_prefix}

-- How many replacements are left: none is no limit.
abbrev spent : Option ℕ → Bool
spent none = false
spent (some zero) = true
spent (some (suc n)) = false

abbrev less : Option ℕ → Option ℕ
less none = none
less (some zero) = some zero
less (some (suc n)) = some n

-- The occurrences that do not overlap, from the left; `skip` characters of one are still to be passed.
unfoldable pub count_from : Text → ℕ → Text → ℕ
unfolding has_prefix
count_from old skip [] = 0
count_from old (suc skip) (c ∷ s) = count_from old skip s
count_from old zero (c ∷ s) =
    let hit = has_prefix (c ∷ s) old in
    let rest = count_from old (if hit then length old - 1 else 0) s in
    if hit then suc rest else rest

unfoldable pub replace_from : Text → Text → Option ℕ → ℕ → Text → Text
unfolding has_prefix
replace_from old new limit skip [] = []
replace_from old new limit (suc skip) (c ∷ s) = replace_from old new limit skip s
replace_from old new limit zero (c ∷ s) =
    let hit = if spent limit then false else has_prefix (c ∷ s) old in
    let rest =
      replace_from old new (if hit then less limit else limit) (if hit then length old - 1 else 0)
        s in
    if hit then new ++ rest else c ∷ rest

-- strings.Count(s, old)
unfoldable pub count_text : Text → Text → ℕ
unfolding count_from
count_text s old = count_from old 0 s

-- strings.Replace(s, old, new, limit)
unfoldable pub replace_text : Text → Text → Text → Option ℕ → Text
unfolding replace_from
replace_text s old new limit = replace_from old new limit 0 s

counts_apart : count_text (codes "aaaa") (codes "aa") ≡ 2
unfolding count_text
counts_apart = refl

replaces_once : replace_text (codes "a-b-c") (codes "-") (codes "++") (some 1) ≡ codes "a++b-c"
unfolding replace_text
replaces_once = refl
