-- ===== src/Files/Edit/Exact.antt =====
-- What an edit does to the content of a file, applyExactEdit of internal/files/edit.go.
use falken_core.Base.{
  ℕ, suc, ◌≤◌, [], List, Bool, true, false, not, ◌&&◌, Option, none, some, ◌≡◌, ◌≢◌, ◌↔◌, refl,
  arith, if◌then◌else◌, ◌==◌, ltb, length, All, is_nil,
}
use falken_core.Base.Text.{Text, text_eq}
use falken_core.Base.Text.Laws.{text_eq_iff}
use falken_core.Base.Text.Split.{join}
use falken_core.Files.Fallible.{if_both, if_split}
use falken_core.Files.Types.{
  EditStatus, edit_changed, edit_unchanged, MatchStrategy, EditRequest, EditResult,
}
use falken_core.Files.Edit.Replace.{count_text, replace_text}
use falken_core.Files.Edit.Parts.{replace_parts}
use falken_core.Files.Edit.Fuzzy.{
  fuzzy_match_whitespace, fuzzy_match_levenshtein, match_indentation,
}
use falken_core.Files.Edit.Apply.{
  normalized_match_strategy, is_valid_match_strategy, is_exact_strategy, is_close_match, find_old,
  replace_found, apply_exact_edit,
}

abbrev pub is_accepted : EditStatus → Bool
is_accepted edit_changed = true
is_accepted edit_unchanged = true
is_accepted _ = false

-- The new text stands for each of the old ones between parts of the content that have none of them.
abbrev pub Replaces : EditRequest → Text → Text × EditResult → Type 0
Replaces request content (updated, result) =
    (old : Text) × (new : Text) × (parts : List Text) × (content ≡ join old parts)
    × (updated ≡ join new parts)
    × (length parts ≡ suc result.replacements)
    × All (λ w. count_text w old ≡ 0) parts
    × (result.replacements ≢ 0)
    × (request.replace_all ≡ false → result.replacements ≡ 1)
    × (result.used_fuzzy ≡ false → (old ≡ request.old) × (new ≡ request.new))

-- The limit of a replacement is that of the checks before it.
limit_enough :
    (all : Bool) (found : ℕ)
    → (ltb 1 found && not all) ≡ false
    → (n : ℕ) → (if all then none else some 1) ≡ some n
    → found ≤ n
limit_enough true found h n e = absurd (cc)
limit_enough false found h n e = ground arith

is_nil_false : (s : Text) → not (is_nil s) ≡ true → s ≢ []
is_nil_false s h e = ground arith

-- A text to look for that is not empty, and the old one where it is not a close match.
abbrev IsFound : Text → Text × Bool → Type 0
IsFound old (text, used) = (text ≢ []) × (used ≡ false → text ≡ old)

abbrev Changes : Text → Text × EditResult → Type 0
Changes content (updated, result) = (result.changed ≡ true) ↔ (updated ≢ content)

module _ (distance : Text → Text → ℕ) where
  find_old-IsFound :
      (content old : Text) (strategy : MatchStrategy)
      → old ≢ []
      → IsFound old (find_old distance content old strategy)
  unfolding find_old
  find_old-IsFound content old strategy n =
      let by_blanks = fuzzy_match_whitespace content old in
      let by_lines = fuzzy_match_levenshtein distance content old in
      let plain : IsFound old (old, false) = (n, λ e. refl) in
      if_both (IsFound old) (count_text content old == 0 && not (is_exact_strategy strategy)) _ _
        (if_split (IsFound old) (not (is_nil by_blanks)) _ _
          (λ p. (is_nil_false by_blanks p, λ e. absurd (cc)))
          (λ p.
            if_split (IsFound old) (is_close_match strategy && not (is_nil by_lines)) _ _
              (λ q. (is_nil_false by_lines (ground arith), λ e. absurd (cc))) (λ q. plain)))
        plain

  replace_found-Replaces :
      (content : Text) (request : EditRequest) (index : ℕ) (found : Text × Bool)
      → IsFound request.old found
      → is_accepted (replace_found distance content request index found).1.status ≡ true
      → Replaces request content (replace_found distance content request index found)
  unfolding replace_found
  replace_found-Replaces content request index (old, used) (n, same) =
      let P =
        λ (r : Text × EditResult). is_accepted r.1.status ≡ true → Replaces request content r in
      let limit : Option ℕ = if request.replace_all then none else some 1 in
      let new = if used then match_indentation old request.new else request.new in
      let updated = replace_text content old new limit in
      if_split P (count_text content old == 0) _ _ (λ e h. absurd (cc))
        (λ some_found.
          if_split P (ltb 1 (count_text content old) && not request.replace_all) _ _
            (λ e h. absurd (cc))
            (λ few.
              let enough = limit_enough request.replace_all (count_text content old) few in
              let (parts, whole, put, width, free) = replace_parts content old new limit n enough in
              let at_least : count_text content old ≢ 0 = λ e. ground arith in
              let single : request.replace_all ≡ false → count_text content old ≡ 1 =
                λ e. ground arith in
              let plain : used ≡ false → (old ≡ request.old) × (new ≡ request.new) =
                λ e. (same e, rw e) in
              if_both P (text_eq updated content) _ _
                (λ h. (old, new, parts, whole, put, width, free, at_least, single, plain))
                (λ h. (old, new, parts, whole, put, width, free, at_least, single, plain))))

  replace_found-Changes :
      (content : Text) (request : EditRequest) (index : ℕ) (found : Text × Bool)
      → Changes content (replace_found distance content request index found)
  unfolding replace_found
  replace_found-Changes content request index (old, used) =
      let limit : Option ℕ = if request.replace_all then none else some 1 in
      let new = if used then match_indentation old request.new else request.new in
      let updated = replace_text content old new limit in
      if_both (Changes content) (count_text content old == 0) _ _
        (λ e. absurd (cc), λ n. absurd (n refl))
        (if_both (Changes content) (ltb 1 (count_text content old) && not request.replace_all) _ _
          (λ e. absurd (cc), λ n. absurd (n refl))
          (if_split (Changes content) (text_eq updated content) _ _
            (λ same. (λ e. absurd (cc), λ n. absurd (n ((text_eq_iff updated content).0 same))))
            (λ other. (λ e same. cc (other, (text_eq_iff updated content).1 same), λ n. refl))))

  -- An edit reports a change exactly where the content after it is another: one that it refuses leaves
  -- the content.
  pub apply_exact_edit_changed :
      (content : Text) (request : EditRequest) (index : ℕ)
      → ((apply_exact_edit distance content request index).1.changed ≡ true)
        ↔ ((apply_exact_edit distance content request index).0 ≢ content)
  unfolding apply_exact_edit
  apply_exact_edit_changed content request index =
      let strategy = normalized_match_strategy request.match_strategy in
      if_both (Changes content) (not (is_valid_match_strategy strategy)) _ _
        (λ e. absurd (cc), λ n. absurd (n refl))
        (if_both (Changes content) (is_nil request.old) _ _ (λ e. absurd (cc), λ n. absurd (n refl))
          (replace_found-Changes content request index
            (find_old distance content request.old strategy)))

  -- An edit that is accepted has replaced every occurrence of a text, one or more, and just one where not
  -- all are to be replaced. The text is the old one of the request, and the new one stands for it, unless
  -- the result reports a close match.
  pub apply_exact_edit-Replaces :
      (content : Text) (request : EditRequest) (index : ℕ)
      → is_accepted (apply_exact_edit distance content request index).1.status ≡ true
      → Replaces request content (apply_exact_edit distance content request index)
  unfolding apply_exact_edit
  apply_exact_edit-Replaces content request index =
      let P =
        λ (r : Text × EditResult). is_accepted r.1.status ≡ true → Replaces request content r in
      let strategy = normalized_match_strategy request.match_strategy in
      if_both P (not (is_valid_match_strategy strategy)) _ _ (λ h. absurd (cc))
        (if_split P (is_nil request.old) _ _ (λ e h. absurd (cc))
          (λ some_old.
            replace_found-Replaces content request index
              (find_old distance content request.old strategy)
              (find_old-IsFound content request.old strategy (λ e. ground arith))))
