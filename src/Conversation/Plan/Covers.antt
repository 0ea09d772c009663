-- ===== src/Conversation/Plan/Covers.antt =====
-- What a plan that internal/conversation/plan_validation.go accepts holds.
use native.Mathlib.Numerals.{unary_clauses}
use falken_core.Base.{
  ℕ, ◌+◌, ◌-◌, ◌<◌, ◌++◌, take, drop, length, ltb, leb, ◌==◌, zero, suc, true, refl, ap, sym, ◌∙◌,
  take-append-drop, ◌≤◌, List, [], ◌∷◌, false, none, some, ◌≡◌, ◌⊎◌, inl, inr, arith, is_nil, All,
  Option-cases, Bool-cases,
}
use falken_core.Base.Text.{Text, text_eq, trim_space, to_lower, has_key, byte_length}
use falken_core.Base.Text.Laws.{text_eq_iff, trim_space_idem}
use falken_core.Base.Text.Split.{split, join}
use falken_core.Conversation.Plan.{
  PlanSection, MarkdownHeading, heading_of, detect_from, end_line, detected_at,
  find_required_heading, detect_markdown_headings, section_body, normalize_placeholder,
  placeholders, validate_plan_section_body, validate_section, validate_sections,
  validate_implementation_plan, required_plan_sections, min_plan_bytes,
}

-- A heading among those of the plan, spelled like one of the expected ones up to case.
abbrev pub IsAmong : MarkdownHeading → List MarkdownHeading → Type 0
IsAmong h [] = ⊥
IsAmong h (k ∷ headings) = (k ≡ h) ⊎ IsAmong h headings

abbrev pub IsSpelled : Text → List Text → Type 0
IsSpelled text [] = ⊥
IsSpelled text (e ∷ expected) = (to_lower text ≡ to_lower e) ⊎ IsSpelled text expected

-- The line is no heading.
abbrev pub IsPlain : Text → Type 0
IsPlain line = heading_of line ≡ none

-- A section is covered: a heading of the plan stands for it, and some lines without a heading that stand
-- right behind it are, taken together, neither blank nor a placeholder.
abbrev pub Covers : List Text → PlanSection → Type 0
Covers lines section =
    (h : MarkdownHeading) × IsAmong h (detect_markdown_headings lines)
    × IsSpelled h.text section.headings
    × ((body : List Text) × (after : List Text) × (drop (h.line_index + 1) lines ≡ body ++ after)
        × All IsPlain body
        × (is_nil (trim_space (join (10 ∷ []) body)) ≡ false)
        × (has_key (normalize_placeholder (trim_space (join (10 ∷ []) body))) placeholders ≡ false))

IsPlain-take :
    (k : ℕ) (line : Text) (lines : List Text)
    → IsPlain line
    → All IsPlain (take (k - 1) lines)
    → All IsPlain (take k (line ∷ lines))
IsPlain-take zero line lines p h = tt
IsPlain-take (suc k) line lines p h = (p, simp unary_clauses at h)

IsPlain-drop :
    (m k : ℕ) (line : Text) (lines : List Text)
    → All IsPlain (drop m (take (k - 1) lines))
    → All IsPlain (drop (suc m) (take k (line ∷ lines)))
IsPlain-drop m zero line lines h = tt
IsPlain-drop m (suc k) line lines h = simp unary_clauses at h

IsPlain-nil : (m k : ℕ) → All IsPlain (drop m (take k []))
IsPlain-nil zero zero = tt
IsPlain-nil zero (suc k) = tt
IsPlain-nil (suc m) zero = tt
IsPlain-nil (suc m) (suc k) = tt

next_plain :
    (i : ℕ) (line : Text) (lines : List Text)
    → heading_of line ≡ none
    → detect_from i (line ∷ lines) ≡ detect_from (i + 1) lines
unfolding detect_from
next_plain i line lines p = ground arith

next_heading :
    (i : ℕ) (line : Text) (lines : List Text) (text : Text)
    → heading_of line ≡ some text
    → detect_from i (line ∷ lines)
      ≡ record { text = text; line_index = i } ∷ detect_from (i + 1) lines
unfolding detect_from
next_heading i line lines text p = ground arith

-- A heading at or before the place does not end it.
end_behind :
    (start all i : ℕ) (line : Text) (lines : List Text)
    → i ≤ start
    → end_line start all (detect_from i (line ∷ lines))
      ≡ end_line start all (detect_from (i + 1) lines)
unfolding end_line
end_behind start all i line lines h = elim (Option-cases (heading_of line)) [
  | inl p ↦ ap (end_line start all) (next_plain i line lines p)
  | inr (text, p) ↦
      let passed : ltb start i ≡ false = ground arith in
      ap (end_line start all) (next_heading i line lines text p) ∙ (rw passed refl)
]

end_here :
    (start all i : ℕ) (line : Text) (lines : List Text) (text : Text)
    → start < i
    → heading_of line ≡ some text
    → end_line start all (detect_from i (line ∷ lines)) ≡ i
unfolding end_line
end_here start all i line lines text h p =
    let before : ltb start i ≡ true = ground arith in
    ap (end_line start all) (next_heading i line lines text p) ∙ (rw before refl)

-- The lines up to the first heading, where all of them stand behind a place.
IsPlain-before :
    (start i all : ℕ) (lines : List Text)
    → start < i
    → All IsPlain (take (end_line start all (detect_from i lines) - i) lines)
IsPlain-before start i all [] h = IsPlain-nil 0 (end_line start all (detect_from i []) - i)
IsPlain-before start i all (line ∷ lines) h = elim (Option-cases (heading_of line)) [
  | inr (text, p) ↦
      let none_left : i - i ≡ 0 = omega arith in
      rw (end_here start all i line lines text h p, none_left) tt
  | inl p ↦
      let stop = end_line start all (detect_from (i + 1) lines) in
      let ih = IsPlain-before start (i + 1) all lines (omega arith) in
      let less : stop - (i + 1) ≡ stop - i - 1 = omega arith in
      rw (next_plain i line lines p) (IsPlain-take (stop - i) line lines p (rw less at ih))
]

-- The lines from behind a place up to the next heading.
IsPlain-after :
    (start i all : ℕ) (lines : List Text)
    → i ≤ start
    → All IsPlain (drop (start + 1 - i) (take (end_line start all (detect_from i lines) - i) lines))
IsPlain-after start i all [] h =
    IsPlain-nil (start + 1 - i) (end_line start all (detect_from i []) - i)
IsPlain-after start i all (line ∷ lines) h =
    let stop = end_line start all (detect_from (i + 1) lines) in
    let less : stop - (i + 1) ≡ stop - i - 1 = omega arith in
    let one : start + 1 - i ≡ suc (start - i) = omega arith in
    let rest : All IsPlain (drop (start - i) (take (stop - i - 1) lines)) =
      elim (Bool-cases (i == start)) [
        | inl same ↦
            let zero_left : start - i ≡ 0 = ground arith in
            rw zero_left (rw less at (IsPlain-before start (i + 1) all lines (ground arith)))
        | inr other ↦
            let more : start + 1 - (i + 1) ≡ start - i = omega arith in
            rw (less, more) at (IsPlain-after start (i + 1) all lines (ground arith))
      ] in
    rw (end_behind start all i line lines h, one)
      (IsPlain-drop (start - i) (stop - i) line lines rest)

drop-take :
    (m stop : ℕ) (xs : List Text) → m ≤ stop → drop m xs ≡ drop m (take stop xs) ++ drop stop xs
drop-take zero stop xs h = sym (take-append-drop stop xs)
drop-take (suc m) zero xs h = absurd (omega arith)
drop-take (suc m) (suc stop) [] h = refl
drop-take (suc m) (suc stop) (x ∷ xs) h = drop-take m stop xs (omega arith)

detected_sound :
    (key : Text) (headings : List MarkdownHeading) (h : MarkdownHeading)
    → detected_at key headings ≡ some h
    → IsAmong h headings × (to_lower h.text ≡ key)
unfolding detected_at
detected_sound key [] h e = absurd (cc)
detected_sound key (k ∷ headings) h e = elim (Option-cases (detected_at key headings)) [
  | inr (later, p) ↦ let (m, t) = detected_sound key headings h (ground arith) in (inr m, t)
  | inl p ↦ elim (Bool-cases (text_eq (to_lower k.text) key)) [
    | inl q ↦
        let same : k ≡ h = ground arith in
        (inl same, ground (arith, text_eq_iff (to_lower k.text) key))
    | inr q ↦ absurd (ground arith)
  ]
]

found_sound :
    (headings : List MarkdownHeading) (expected : List Text) (h : MarkdownHeading)
    → find_required_heading headings expected ≡ some h
    → IsAmong h headings × IsSpelled h.text expected
unfolding find_required_heading
found_sound headings [] h e = absurd (cc)
found_sound headings (x ∷ expected) h e = elim (Option-cases (detected_at (to_lower x) headings)) [
  | inr (k, p) ↦ let (m, t) = detected_sound (to_lower x) headings h (ground arith) in (m, inl t)
  | inl p ↦ let (m, t) = found_sound headings expected h (ground arith) in (m, inr t)
]

blank_nil : is_nil (trim_space []) ≡ true
unfolding trim_space
blank_nil = refl

-- The body of a section that is not blank is made of the lines behind its heading up to the next one.
section_body-lines :
    (lines : List Text) (start : ℕ)
    → is_nil (trim_space (section_body lines (detect_markdown_headings lines) start)) ≡ false
    → (body : List Text) × (after : List Text) × (drop (start + 1) lines ≡ body ++ after)
      × All IsPlain body
      × (trim_space (section_body lines (detect_markdown_headings lines) start)
          ≡ trim_space (join (10 ∷ []) body))
unfolding section_body detect_markdown_headings
section_body-lines lines start h =
    let stop = end_line start (length lines) (detect_from 0 lines) in
    elim (Bool-cases (leb stop (start + 1))) [
      | inl none_left ↦ absurd (ground (arith, blank_nil))
      | inr some_left ↦
          let from_zero : start + 1 - 0 ≡ start + 1 = omega arith in
          let to_zero : stop - 0 ≡ stop = omega arith in
          (
            drop (start + 1) (take stop lines),
            drop stop lines,
            drop-take (start + 1) stop lines (ground arith),
            rw (from_zero, to_zero) at (IsPlain-after start 0 (length lines) lines (omega arith)),
            rw some_left (trim_space_idem (join (10 ∷ []) (drop (start + 1) (take stop lines)))),
          )
    ]

section_sound :
    (lines : List Text) (section : PlanSection)
    → validate_section lines section ≡ none
    → Covers lines section
unfolding validate_section validate_plan_section_body
section_sound lines section e =
    let headings = detect_markdown_headings lines in
    elim (Option-cases (find_required_heading headings section.headings)) [
      | inl p ↦ absurd (ground arith)
      | inr (h, p) ↦
          let (m, t) = found_sound headings section.headings h p in
          let filled : is_nil (trim_space (section_body lines headings h.line_index)) ≡ false =
            ground arith in
          let real : has_key
                (normalize_placeholder (trim_space (section_body lines headings h.line_index)))
                placeholders
              ≡ false =
            ground arith in
          let (body, after, parts, plain, same) = section_body-lines lines h.line_index filled in
          (h, m, t, (body, after, parts, plain, rw same at filled, rw same at real))
    ]

sections_sound :
    (lines : List Text) (sections : List PlanSection)
    → validate_sections lines sections ≡ none
    → All (Covers lines) sections
unfolding validate_sections
sections_sound lines [] e = tt
sections_sound lines (s ∷ sections) e = elim (Option-cases (validate_section lines s)) [
  | inl p ↦ (section_sound lines s p, sections_sound lines sections (ground arith))
  | inr (x, p) ↦ absurd (ground arith)
]

-- An accepted plan has at least the least length in bytes, and for each required section a heading that is
-- spelled like one of its own, up to case, and right behind it lines without a heading that are, taken
-- together, neither blank nor a placeholder.
pub accepted-Covers :
    (plan : Text)
    → validate_implementation_plan plan ≡ none
    → (min_plan_bytes ≤ byte_length (trim_space plan))
      × All (Covers (split 10 (trim_space plan))) required_plan_sections
unfolding validate_implementation_plan
accepted-Covers plan e = (
  ground arith,
  sections_sound (split 10 (trim_space plan)) required_plan_sections (ground arith),
)
