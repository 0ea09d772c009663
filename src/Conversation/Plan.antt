-- ===== src/Conversation/Plan.antt =====
-- The shape of an implementation plan, internal/conversation/plan_validation.go and plan.go.
pub mod Covers
use falken_core.Base.{
  ℕ, zero, suc, ◌+◌, ◌-◌, List, [], ◌∷◌, ◌++◌, Bool, true, false, not, ◌&&◌, ◌||◌, Option, none,
  some, ◌≡◌, refl, if◌then◌else◌, is_nil, length, take, drop, ltb, leb, ◌==◌, map,
}
use falken_core.Base.Text.{
  Text, codes, text_eq, trim_space, trim_left, trim_right, to_lower, has_prefix, byte_length,
  has_key,
}
use falken_core.Base.Text.Split.{split, join}

abbrev pub default_plan_starter_text : Text
default_plan_starter_text = codes "# Plan" ++ (10 ∷ 10 ∷ [])

abbrev pub min_plan_bytes : ℕ
min_plan_bytes = 100

pub record PlanSection : Type 0 where
  pub label : Text
  pub headings : List Text

pub record MarkdownHeading : Type 0 where
  pub text : Text
  pub line_index : ℕ

abbrev pub required_plan_sections : List PlanSection
required_plan_sections =
    record { label = codes "Goal"; headings = codes "Goal" ∷ [] }
    ∷ record { label = codes "Files"; headings = codes "Files" ∷ [] }
    ∷ record {
      label = codes "Changes";
      headings = codes "Changes" ∷ codes "Implementation Steps" ∷ [];
    }
    ∷ record {
      label = codes "Verification";
      headings = codes "Verification" ∷ codes "Validation" ∷ [];
    }
    ∷ []

-- The errors, with the section's label; each of them is ErrInvalidPlan.
pub data PlanError : Type 0 where
  not_meaningful too_short : PlanError
  missing_heading : PlanSection → List Text → PlanError
  no_content placeholder_only : Text → PlanError

count_hashes : Text → ℕ
count_hashes [] = 0
count_hashes (c ∷ s) = let rest = count_hashes s in if c == b'#' then rest + 1 else 0

-- strings.Trim for a cutset
trim_set : (ℕ → Bool) → Text → Text
unfolding trim_left trim_right
trim_set p s = trim_right p (trim_left p s)

-- what stands behind the hashes, if it begins with a space
spaced : Text → Option Text
spaced [] = none
spaced (c ∷ s) = if c == 32 then some (c ∷ s) else none

heading_text : Text → Option Text
unfolding trim_set trim_space
heading_text rest =
    let heading = trim_set (λ c. c == b'#' || (c == 32 || c == 9)) (trim_space rest) in
    if is_nil heading then none else some heading

unfoldable pub heading_of : Text → Option Text
unfolding count_hashes spaced heading_text has_prefix
heading_of line =
    let trimmed = trim_space line in
    let hashes = count_hashes trimmed in
    if not (has_prefix trimmed (codes "#")) || ltb 6 hashes
    then none
    else elim (spaced (drop hashes trimmed)) [ none ↦ none | some rest ↦ heading_text rest ]

unfoldable pub detect_from : ℕ → List Text → List MarkdownHeading
unfolding heading_of
detect_from i [] = []
detect_from i (line ∷ lines) =
    let rest = detect_from (i + 1) lines in
    elim (heading_of line) [
      | none ↦ rest
      | some heading ↦ record { text = heading; line_index = i } ∷ rest
    ]

unfoldable pub detect_markdown_headings : List Text → List MarkdownHeading
unfolding detect_from
detect_markdown_headings lines = detect_from 0 lines

-- The map from lower-case texts: a later heading replaces an earlier one.
unfoldable pub detected_at : Text → List MarkdownHeading → Option MarkdownHeading
unfolding text_eq to_lower
detected_at key [] = none
detected_at key (heading ∷ headings) = elim (detected_at key headings) [
  | some later ↦ some later
  | none ↦ if text_eq (to_lower heading.text) key then some heading else none
]

unfoldable pub find_required_heading : List MarkdownHeading → List Text → Option MarkdownHeading
unfolding detected_at
find_required_heading detected [] = none
find_required_heading detected (heading ∷ expected) =
    elim (detected_at (to_lower heading) detected) [
      | some found ↦ some found
      | none ↦ find_required_heading detected expected
    ]

unfoldable pub end_line : ℕ → ℕ → List MarkdownHeading → ℕ
end_line start all [] = all
end_line start all (heading ∷ headings) =
    let rest = end_line start all headings in
    if ltb start heading.line_index then heading.line_index else rest

unfoldable pub section_body : List Text → List MarkdownHeading → ℕ → Text
unfolding end_line join trim_space
section_body lines headings start =
    let stop = end_line start (length lines) headings in
    if leb stop (start + 1)
    then []
    else trim_space (join (10 ∷ []) (drop (start + 1) (take stop lines)))

trim_prefix : Text → Text → Text
unfolding has_prefix
trim_prefix s prefix = if has_prefix s prefix then drop (length prefix) s else s

unfoldable pub normalize_placeholder : Text → Text
unfolding to_lower trim_space trim_prefix trim_set
normalize_placeholder value =
    trim_set (λ c. c == b'.' || (c == 32 || (c == 9 || (c == 13 || c == 10))))
      (trim_prefix (trim_prefix (to_lower (trim_space value)) (codes "- ")) (codes "* "))

abbrev pub placeholders : List Text
placeholders = codes "tbd" ∷ codes "todo" ∷ codes "na" ∷ codes "n/a" ∷ codes "none" ∷ []

unfoldable pub validate_plan_section_body : Text → Text → Option PlanError
validate_plan_section_body label body =
    let trimmed = trim_space body in
    if is_nil trimmed
    then some (no_content label)
    else if has_key (normalize_placeholder trimmed) placeholders
    then some (placeholder_only label)
    else none

heading_texts : List MarkdownHeading → List Text
heading_texts = map (λ (h : MarkdownHeading). h.text)

unfoldable pub validate_section : List Text → PlanSection → Option PlanError
unfolding heading_texts
validate_section lines section =
    let headings = detect_markdown_headings lines in
    elim (find_required_heading headings section.headings) [
      | none ↦ some (missing_heading section (heading_texts headings))
      | some heading ↦
          validate_plan_section_body section.label (section_body lines headings heading.line_index)
    ]

unfoldable pub validate_sections : List Text → List PlanSection → Option PlanError
validate_sections lines [] = none
validate_sections lines (section ∷ sections) = elim (validate_section lines section) [
  | some e ↦ some e
  | none ↦ validate_sections lines sections
]

unfoldable pub validate_implementation_plan : Text → Option PlanError
unfolding validate_sections
validate_implementation_plan plan =
    let trimmed = trim_space plan in
    if is_nil trimmed || text_eq trimmed (trim_space default_plan_starter_text)
    then some not_meaningful
    else if ltb (byte_length trimmed) min_plan_bytes
    then some too_short
    else validate_sections (split 10 trimmed) required_plan_sections
