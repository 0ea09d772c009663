-- ===== src/Tests/ConversationExamples.antt =====
-- A checklist, memory, command evidence and a plan of internal/conversation.
use falken_core.Base.{
  inl, inr, List, [], ◌∷◌, true, false, not, ◌&&◌, ◌||◌, ◌≡◌, ◌↔◌, refl, map, is_nil, All, ◌≤◌,
  arith,
}
use falken_core.Base.Int.{pos, is_positive}
use falken_core.Base.Text.{Text, codes, text_eq, trim_space, has_key, byte_length}
use falken_core.Base.Text.Split.{split}
use falken_core.Conversation.Todos
use falken_core.Conversation.Todos.{
  Todo, TodoItem, todo_status_pending, todo_status_in_progress, todo_status_completed,
  normalize_todo, normalize_todos, read_state, replace_state, todo_to_store_item,
}
use falken_core.Conversation.Todos.Checklist.{IsChecklist, normalize_exact}
use falken_core.Conversation.Todos.Storage.{read-replace}
use falken_core.Conversation.Evidence.{
  CommandEvidenceRecord, CommandEvidenceState, CommandEvidenceReview, empty_command_evidence_state,
  max_command_evidence_revision, assign_missing_command_evidence_revisions, record_plan_baseline,
  completion_decision_from_review,
}
use falken_core.Conversation.Evidence.Revisions.{
  IsAssigned, IsBoundary, assign_missing_exact, plan_baseline-IsBoundary,
}
use falken_core.Conversation.Evidence.Completion.{all_completed, accepted_exact}
use falken_core.Conversation.Memory
use falken_core.Conversation.Memory.{
  MemoryState, MemoryUpdate, merge_memory_list, normalize_memory_list, normalize_memory,
  read_memory, update_memory,
}
use falken_core.Conversation.Memory.Entries.{written}
use falken_core.Conversation.Memory.Updates.{read-update, update_lists}
use falken_core.Conversation.Plan.{
  normalize_placeholder, section_body, validate_plan_section_body, detect_markdown_headings,
  find_required_heading, validate_section, validate_implementation_plan, required_plan_sections,
  min_plan_bytes,
}
use falken_core.Conversation.Plan.Covers.{Covers, accepted-Covers}

abbrev pub todos : List Todo
todos =
    record { id = codes " 1 "; content = codes "read"; status = todo_status_completed }
    ∷ record { id = codes "2"; content = codes "write "; status = todo_status_in_progress }
    ∷ []

normalize_exact_example : (normalize_todos todos ≡ Todos.ok (map normalize_todo todos)) ↔ (
    (map normalize_todo todos ≡ map normalize_todo todos) × IsChecklist (map normalize_todo todos))
normalize_exact_example = normalize_exact todos (map normalize_todo todos)

abbrev older_items : List TodoItem → List TodoItem
older_items [] = []
older_items (item ∷ items) =
    record item { content = []; status = [] }
    ∷ map (λ (i : TodoItem). record i { content = [] }) items

read-replace_example :
    read_state (older_items (map todo_to_store_item (map normalize_todo todos)))
    ≡ Todos.ok (map normalize_todo todos)
unfolding normalize_todos trim_space todo_to_store_item
read-replace_example =
    read-replace todos (map todo_to_store_item (map normalize_todo todos))
      (older_items (map todo_to_store_item (map normalize_todo todos)))
      (unfold replace_state in refl)
      ((refl, inr (refl, refl), inr (refl, refl)), ((refl, inr (refl, refl), inl refl), tt))

abbrev command : CommandEvidenceRecord
command = record {
  command = codes "go test ./...";
  working_dir = [];
  status = codes "succeeded";
  exit_code = pos 0;
  executed = true;
  succeeded = true;
  recorded_at = [];
  revision = pos 0;
  output_truncated = false;
  output_original_bytes = pos 10;
  output_preview_bytes = pos 10;
  policy_outcome = [];
  policy_explanation = [];
  has_shell_write_pattern = false;
}

-- One command of before there were revisions, and one with the revision 4.
abbrev evidence : CommandEvidenceState
evidence = record empty_command_evidence_state {
  records = command ∷ record command { revision = pos 4 } ∷ [];
  review_attempts = pos 1;
}

assign_missing_exact_example :
    (records : List CommandEvidenceRecord) × (assign_missing_command_evidence_revisions evidence
      ≡ record evidence { records = records })
    × IsAssigned (max_command_evidence_revision evidence) evidence.records records
unfolding max_command_evidence_revision
assign_missing_exact_example = assign_missing_exact evidence (omega arith)

plan_baseline-IsBoundary_example :
    IsBoundary
      (codes "noon")
      (record_plan_baseline evidence)
      (record_plan_baseline evidence).plan_baseline_revision
      (command ∷ [])
unfolding max_command_evidence_revision record_plan_baseline
plan_baseline-IsBoundary_example =
    plan_baseline-IsBoundary (codes "noon") (command ∷ []) evidence (omega arith)

abbrev review : CommandEvidenceReview
review = record {
  verdict = codes "insufficient";
  verification_performed = false;
  confidence = [];
  reason = [];
  relevant_commands = [];
  suggested_next_step = [];
  warning = [];
  recorded_at = [];
}

accepted_exact_example :
    ((completion_decision_from_review todos review (pos 1)).is_accepted ≡ (
      all_completed todos
      && (text_eq review.verdict (codes "sufficient")
          || text_eq review.verdict (codes "not_applicable")
          || is_positive (pos 1))))
    × (is_nil (completion_decision_from_review todos review (pos 1)).warnings
        ≡ not (
            all_completed todos
            && (not (
                  text_eq review.verdict (codes "sufficient")
                  || text_eq review.verdict (codes "not_applicable"))
                && is_positive (pos 1))))
accepted_exact_example = accepted_exact todos review (pos 1)

abbrev memory : MemoryState
memory = record {
  entries = codes " uses Go " ∷ [];
  current_goal = codes "fix";
  important_files = codes "go.mod" ∷ [];
  decisions = [];
  open_questions = codes "why" ∷ codes "why " ∷ [];
}

abbrev update : MemoryUpdate
update = record {
  current_goal = codes " test ";
  clear_current_goal = false;
  add_entries = codes "has CI" ∷ [];
  remove_entries = codes "uses Go" ∷ [];
  add_important_files = [];
  remove_important_files = [];
  add_decisions = codes "x" ∷ [];
  remove_decisions = codes " x" ∷ [];
  add_open_questions = [];
  remove_open_questions = [];
}

abbrev updated : MemoryState
updated = record {
  entries = codes "has CI" ∷ [];
  current_goal = codes "test";
  important_files = codes "go.mod" ∷ [];
  decisions = [];
  open_questions = codes "why" ∷ [];
}

read-update_example : read_memory updated ≡ Memory.ok updated
unfolding read_memory Memory.validate_memory trim_space normalize_memory_list Memory.apply_update
    merge_memory_list
read-update_example = read-update update memory updated (unfold update_memory in refl)

update_lists_example :
    (has_key (codes "has CI") updated.entries ≡ (
      not (is_nil (codes "has CI"))
      && ((written (codes "has CI") memory.entries || written (codes "has CI") update.add_entries)
          && not (written (codes "has CI") update.remove_entries))))
    × (has_key (codes "has CI") updated.important_files ≡ (
        not (is_nil (codes "has CI"))
        && ((written (codes "has CI") memory.important_files
              || written (codes "has CI") update.add_important_files)
            && not (written (codes "has CI") update.remove_important_files))))
    × (has_key (codes "has CI") updated.decisions ≡ (
        not (is_nil (codes "has CI"))
        && ((written (codes "has CI") memory.decisions
              || written (codes "has CI") update.add_decisions)
            && not (written (codes "has CI") update.remove_decisions))))
    × (has_key (codes "has CI") updated.open_questions ≡ (
        not (is_nil (codes "has CI"))
        && ((written (codes "has CI") memory.open_questions
              || written (codes "has CI") update.add_open_questions)
            && not (written (codes "has CI") update.remove_open_questions))))
unfolding read_memory Memory.validate_memory trim_space normalize_memory_list Memory.apply_update
    merge_memory_list
update_lists_example =
    update_lists (codes "has CI") update memory updated (unfold update_memory in refl)

abbrev pub plan : Text
plan =
    codes
      "# Goal\nMake it fast.\n## files\n- main.go\n## Implementation Steps\n1. Cache the result of the query.\n## Validation\nRun the tests and the benchmark.\n"

accepted-Covers_example :
    (min_plan_bytes ≤ byte_length (trim_space plan))
    × All (Covers (split 10 (trim_space plan))) required_plan_sections
unfolding trim_space text_eq byte_length validate_section find_required_heading
    detect_markdown_headings split validate_plan_section_body section_body has_key
    normalize_placeholder
accepted-Covers_example = accepted-Covers plan (unfold validate_implementation_plan in refl)
