-- ===== src/Files/Edit/Apply.antt =====
-- applyExactEdit of internal/files/edit.go: one edit on the content of a file.
use falken_core.Base.{
  ℕ, [], ◌++◌, Bool, true, false, not, ◌&&◌, none, some, if◌then◌else◌, ◌==◌, ltb, is_nil,
}
use falken_core.Base.Text.{Text, codes, text_eq}
use falken_core.Base.Text.Decimal.{decimal}
use falken_core.Files.Types.{
  EditStatus, edit_unset, edit_changed, edit_unchanged, edit_empty_old_string, edit_no_match,
  edit_ambiguous_match, edit_invalid_strategy, MatchStrategy, match_unset, match_exact, match_close,
  EditRequest, EditResult, empty_write,
}
use falken_core.Files.Edit.Replace.{count_text, replace_text}
use falken_core.Files.Edit.Fuzzy.{
  fuzzy_match_whitespace, fuzzy_match_levenshtein, match_indentation,
}

unfoldable pub normalized_match_strategy : MatchStrategy → MatchStrategy
normalized_match_strategy match_unset = match_exact
normalized_match_strategy strategy = strategy

unfoldable pub is_valid_match_strategy : MatchStrategy → Bool
is_valid_match_strategy match_exact = true
is_valid_match_strategy match_close = true
is_valid_match_strategy _ = false

abbrev pub is_exact_strategy : MatchStrategy → Bool
is_exact_strategy match_exact = true
is_exact_strategy _ = false

abbrev pub is_close_match : MatchStrategy → Bool
is_close_match match_close = true
is_close_match _ = false

-- The result of an edit before anything is looked for.
unfoldable pub initial_result : EditRequest → EditResult
unfolding normalized_match_strategy
initial_result request = record {
  status = edit_unset;
  path = request.path;
  resolved_path = [];
  replace_all = request.replace_all;
  replacements = 0;
  changed = false;
  used_fuzzy = false;
  match_strategy = normalized_match_strategy request.match_strategy;
  write = empty_write;
  error = [];
  summary = [];
}

unfoldable pub refuse : EditResult → EditStatus → Text → EditResult
refuse result status reason = record result { status = status; error = reason; summary = reason }

fuzzy_note : Bool → Text
fuzzy_note used = if used then codes " (fuzzy match)" else []

module _ (distance : Text → Text → ℕ) where
  -- The text to look for, and whether it is a close match of the requested one.
  unfoldable pub find_old : Text → Text → MatchStrategy → Text × Bool
  unfolding count_text fuzzy_match_whitespace fuzzy_match_levenshtein
  find_old content old strategy =
      let by_blanks = fuzzy_match_whitespace content old in
      let by_lines = fuzzy_match_levenshtein distance content old in
      if count_text content old == 0 && not (is_exact_strategy strategy)
      then if not (is_nil by_blanks)
        then (by_blanks, true)
        else if is_close_match strategy && not (is_nil by_lines)
        then (by_lines, true)
        else (old, false)
      else (old, false)

  -- The replacement of the text found, after the checks of the request.
  unfoldable pub replace_found : Text → EditRequest → ℕ → Text × Bool → Text × EditResult
  unfolding initial_result refuse count_text match_indentation replace_text text_eq decimal
      fuzzy_note
  replace_found content request index (actual_old, used_fuzzy) =
      let found = count_text content actual_old in
      let result : EditResult = record (initial_result request) {
        replacements = found;
        used_fuzzy = used_fuzzy;
      } in
      let limit = if request.replace_all then none else some 1 in
      let new = if used_fuzzy then match_indentation actual_old request.new else request.new in
      let updated = replace_text content actual_old new limit in
      if found == 0
      then (content, refuse result edit_no_match (codes "old string was not found"))
      else if ltb 1 found && not request.replace_all
      then (
        content,
        refuse result edit_ambiguous_match (codes "old string matched multiple locations"),
      )
      else if text_eq updated content
      then (
        updated,
        record result {
          status = edit_unchanged;
          summary = codes "edit " ++ (decimal index ++ codes " made no content change");
        },
      )
      else (
        updated,
        record result {
          status = edit_changed;
          changed = true;
          summary =
              codes "edit "
              ++ (decimal index
                  ++ (codes " replaced "
                      ++ (decimal found ++ (codes " occurrence(s)" ++ fuzzy_note used_fuzzy))));
        },
      )

  unfoldable pub apply_exact_edit : Text → EditRequest → ℕ → Text × EditResult
  unfolding initial_result is_valid_match_strategy refuse find_old replace_found
  apply_exact_edit content request index =
      let result = initial_result request in
      if not (is_valid_match_strategy result.match_strategy)
      then (content, refuse result edit_invalid_strategy (codes "invalid match strategy"))
      else if is_nil request.old
      then (content, refuse result edit_empty_old_string (codes "old string is required"))
      else replace_found content request index (find_old content request.old result.match_strategy)
