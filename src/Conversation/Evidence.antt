-- ===== src/Conversation/Evidence.antt =====
-- Command evidence and the completion gate, internal/conversation/command_evidence.go and
-- internal/store/command_evidence.go. The time is a parameter, `now`.
pub mod Revisions
pub mod Completion
use falken_core.Base.{
  ℕ, zero, suc, ◌+◌, List, [], ◌∷◌, ◌++◌, Bool, true, false, not, ◌&&◌, ◌||◌, Option, none, some,
  if◌then◌else◌, is_nil, ltb, map,
}
use falken_core.Base.Int.{ℤ, pos, negsuc, is_positive, pos_part, int64, succ_int64}
use falken_core.Base.Text.{Text, codes, text_eq, trim_space}
use falken_core.Conversation.Todos.{Todo, todo_status_completed}

pub record CommandEvidenceRecord : Type 0 where
  pub command : Text
  pub working_dir : Text
  pub status : Text
  pub exit_code : ℤ
  pub executed : Bool
  pub succeeded : Bool
  pub recorded_at : Text
  pub revision : ℤ
  pub output_truncated : Bool
  pub output_original_bytes : ℤ
  pub output_preview_bytes : ℤ
  pub policy_outcome : Text
  pub policy_explanation : Text
  pub has_shell_write_pattern : Bool

pub record CommandEvidenceReview : Type 0 where
  pub verdict : Text
  pub verification_performed : Bool
  pub confidence : Text
  pub reason : Text
  pub relevant_commands : List Text
  pub suggested_next_step : Text
  pub warning : Text
  pub recorded_at : Text

pub record CommandEvidenceState : Type 0 where
  pub records : List CommandEvidenceRecord
  pub review_attempts : ℤ
  pub last_review : Option CommandEvidenceReview
  pub plan_baseline_revision : ℤ
  pub last_workspace_mutation_revision : ℤ
  pub last_workspace_mutation_at : Text
  pub last_workspace_mutation_tool : Text

abbrev pub empty_command_evidence_state : CommandEvidenceState
empty_command_evidence_state = record {
  records = [];
  review_attempts = pos 0;
  last_review = none;
  plan_baseline_revision = pos 0;
  last_workspace_mutation_revision = pos 0;
  last_workspace_mutation_at = [];
  last_workspace_mutation_tool = [];
}

-- What runtimeexec.CommandResult holds that evidence is made of.
pub record CommandResult : Type 0 where
  pub command : Text
  pub working_dir : Text
  pub tool_working_dir : Text
  pub status : Text
  pub exit_code : ℤ
  pub executed : Bool
  pub truncated : Bool
  pub original_bytes : ℤ
  pub preview_bytes : ℤ
  pub policy_outcome : Text
  pub policy_explanation : Text
  pub blocked_by_shell_write_bypass : Bool

unfoldable pub should_record_command_evidence : CommandResult → Bool
should_record_command_evidence result = not (is_nil result.command) || not (is_nil result.status)

unfoldable pub command_evidence_record : CommandResult → Text → CommandEvidenceRecord
unfolding text_eq
command_evidence_record result recorded_at = record {
  command = result.command;
  working_dir =
      if is_nil result.tool_working_dir then result.working_dir else result.tool_working_dir;
  status = result.status;
  exit_code = result.exit_code;
  executed = result.executed;
  succeeded = result.executed && text_eq result.status (codes "succeeded");
  recorded_at = recorded_at;
  revision = pos 0;
  output_truncated = result.truncated;
  output_original_bytes = result.original_bytes;
  output_preview_bytes = result.preview_bytes;
  policy_outcome = result.policy_outcome;
  policy_explanation = result.policy_explanation;
  has_shell_write_pattern = result.blocked_by_shell_write_bypass;
}

-- The maximum starts at 0, so it is a natural number and a negative revision is never more.
unfoldable pub max_revision : ℕ → List CommandEvidenceRecord → ℕ
max_revision m [] = m
max_revision m (r ∷ records) =
    max_revision (if ltb m (pos_part r.revision) then pos_part r.revision else m) records

unfoldable pub max_command_evidence_revision : CommandEvidenceState → ℕ
unfolding max_revision
max_command_evidence_revision state = max_revision 0 state.records

unfoldable pub assign_from : ℕ → List CommandEvidenceRecord → List CommandEvidenceRecord
unfolding is_positive int64
assign_from next [] = []
assign_from next (r ∷ records) =
    let missing = not (is_positive r.revision) in
    (if missing then record r { revision = int64 next } else r)
    ∷ assign_from (if missing then next + 1 else next) records

unfoldable pub assign_missing_command_evidence_revisions :
    CommandEvidenceState → CommandEvidenceState
unfolding assign_from max_command_evidence_revision
assign_missing_command_evidence_revisions state = record state {
  records = assign_from (max_command_evidence_revision state + 1) state.records;
}

-- A time that is blank is replaced by the clock's.
abbrev pub time_or : Text → Text → Text
time_or now recorded_at = if is_nil (trim_space recorded_at) then now else recorded_at

unfoldable pub append_record :
    Text → CommandEvidenceRecord → CommandEvidenceState → CommandEvidenceState
unfolding max_command_evidence_revision int64
append_record now r state = record state {
  records =
      state.records
      ++ (record r {
        revision = int64 (max_command_evidence_revision state + 1);
        recorded_at = time_or now r.recorded_at;
      }
          ∷ []);
}

unfoldable pub record_review :
    Text → CommandEvidenceReview → CommandEvidenceState → CommandEvidenceState
unfolding text_eq succ_int64
record_review now review state = record state {
  last_review = some (record review { recorded_at = time_or now review.recorded_at });
  review_attempts =
      if text_eq review.verdict (codes "sufficient")
      then state.review_attempts
      else succ_int64 state.review_attempts;
}

unfoldable pub reset_review_attempts : CommandEvidenceState → CommandEvidenceState
reset_review_attempts state = record state { review_attempts = pos 0; last_review = none }

unfoldable pub record_plan_baseline : CommandEvidenceState → CommandEvidenceState
unfolding assign_missing_command_evidence_revisions
record_plan_baseline state =
    let assigned = assign_missing_command_evidence_revisions state in
    record assigned {
      plan_baseline_revision = pos (max_command_evidence_revision assigned);
      last_workspace_mutation_revision = pos 0;
      last_workspace_mutation_at = [];
      last_workspace_mutation_tool = [];
      review_attempts = pos 0;
      last_review = none;
    }

unfoldable pub record_workspace_mutation :
    Text → Text → Text → CommandEvidenceState → CommandEvidenceState
unfolding assign_missing_command_evidence_revisions
record_workspace_mutation now tool_name recorded_at state =
    let assigned = assign_missing_command_evidence_revisions state in
    record assigned {
      last_workspace_mutation_revision = pos (max_command_evidence_revision assigned);
      last_workspace_mutation_at = time_or now recorded_at;
      last_workspace_mutation_tool = trim_space tool_name;
      review_attempts = pos 0;
      last_review = none;
    }

pub data CompletionStatus : Type 0 where
  accepted blocked_incomplete_todos blocked_verification_review : CompletionStatus
  accepted_with_verification_warning : CompletionStatus

-- A blocker by its code, with its details where they depend on the items; the messages are fixed.
pub data CompletionBlocker : Type 0 where
  incomplete_todos : List Text → CompletionBlocker
  verification_review_insufficient : CompletionBlocker

pub data CompletionWarning : Type 0 where
  verification_not_confirmed : CompletionWarning

pub record ImplementationCompletionCheck : Type 0 where
  pub is_accepted : Bool
  pub status : CompletionStatus
  pub blockers : List CompletionBlocker
  pub warnings : List CompletionWarning

unfoldable pub accepted_completion_check : ImplementationCompletionCheck
accepted_completion_check = record {
  is_accepted = true;
  status = accepted;
  blockers = [];
  warnings = [];
}

unfoldable pub incomplete_todo_details : List Todo → List Text
unfolding text_eq
incomplete_todo_details [] = []
incomplete_todo_details (todo ∷ todos) =
    let rest = incomplete_todo_details todos in
    if text_eq todo.status todo_status_completed
    then rest
    else (todo.id ++ (codes ": " ++ (todo.content ++ (codes " is " ++ todo.status)))) ∷ rest

unfoldable pub validate_plan_todos_complete : List Todo → ImplementationCompletionCheck
unfolding accepted_completion_check incomplete_todo_details
validate_plan_todos_complete todos =
    let details = incomplete_todo_details todos in
    if is_nil details then accepted_completion_check else record {
      is_accepted = false;
      status = blocked_incomplete_todos;
      blockers = incomplete_todos details ∷ [];
      warnings = [];
    }

unfoldable pub completion_decision_from_review :
    List Todo → CommandEvidenceReview → ℤ → ImplementationCompletionCheck
unfolding validate_plan_todos_complete text_eq is_positive
completion_decision_from_review todos review attempts =
    let check = validate_plan_todos_complete todos in
    if not check.is_accepted
    then check
    else if text_eq review.verdict (codes "sufficient")
        || text_eq review.verdict (codes "not_applicable")
    then accepted_completion_check
    else if not (is_positive attempts)
    then record {
      is_accepted = false;
      status = blocked_verification_review;
      blockers = verification_review_insufficient ∷ [];
      warnings = [];
    }
    else record {
      is_accepted = true;
      status = accepted_with_verification_warning;
      blockers = [];
      warnings = verification_not_confirmed ∷ [];
    }
