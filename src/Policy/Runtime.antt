-- ===== src/Policy/Runtime.antt =====
-- The policy in front of the tools, internal/policy/runtime/runtime.go: the engine's evaluations joined
-- with the detection of shell writes. `parse` and `print` are the package mvdan.cc/sh, as in Commands.
pub mod Coherent
pub mod Permits
use falken_core.Base.{List, [], ◌∷◌, ◌++◌, Bool, true, false, not, ◌||◌, Option, if◌then◌else◌}
use falken_core.Base.Int.{ℤ}
use falken_core.Base.Text.{Text, codes, text_eq}
use falken_core.Commands.Syntax.{Parsed, WordParts}
use falken_core.Commands.Detect.{Detection, has_shell_write_patterns}
use falken_core.Policy.Rules.{
  DecisionSource, blocked_rule, allowed_rule, project_approval, session_approval,
  strict_allowlist_deny, missing_approval_handler_deny, approval_denied, approval_granted_once,
  approval_granted_session, approval_granted_project, default_allow, shell, FileAccessMode,
  file_access_write, file_access_create, FileRequest, ShellRequest, NetworkRequest, Decision,
  Result, ok, err, Engine,
}
use falken_core.Policy.Engine.{without_scope, evaluate_file, evaluate_shell, evaluate_network}

pub data ApprovalStatus : Type 0 where
  not_needed previously_granted granted denied unavailable : ApprovalStatus

pub data ShellOutcome : Type 0 where
  shell_allowed shell_denied blocked_shell_write_bypass : ShellOutcome

-- A request for a file or a host has the engine's fields; one for a command has no force.
pub record RuntimeShellRequest : Type 0 where
  pub command : Text
  pub approval_required : Bool

-- FileResult and NetworkResult have the same fields.
pub record AccessResult : Type 0 where
  pub allowed : Bool
  pub decision : Decision
  pub approval_status : ApprovalStatus
  pub explanation : Text

pub record ShellResult : Type 0 where
  pub outcome : ShellOutcome
  pub allowed : Bool
  pub access_decision : Decision
  pub approval_status : ApprovalStatus
  pub blocked_by_shell_write_bypass : Bool
  pub explanation : Text

unfoldable pub file_requires_approval : FileAccessMode → Bool
unfolding text_eq
file_requires_approval mode = text_eq mode file_access_create || text_eq mode file_access_write

unfoldable pub approval_status : Decision → ApprovalStatus
approval_status decision = elim decision.source [
  | session_approval ↦ previously_granted
  | project_approval ↦ previously_granted
  | approval_granted_once ↦ granted
  | approval_granted_session ↦ granted
  | approval_granted_project ↦ granted
  | approval_denied ↦ denied
  | missing_approval_handler_deny ↦ unavailable
  | _ ↦ not_needed
]

source_text : DecisionSource → Text
source_text blocked_rule = codes " is denied by a blocked rule"
source_text allowed_rule = codes " is allowed by an allowed rule"
source_text project_approval = codes " is allowed by a project-scoped approval"
source_text session_approval = codes " is allowed by a session-scoped approval"
source_text strict_allowlist_deny = codes " is denied by strict allowlist policy"
source_text missing_approval_handler_deny =
    codes " is denied because approval is required and no handler is available"
source_text approval_denied = codes " is denied because approval was not granted"
source_text approval_granted_once = codes " is allowed by a one-time approval"
source_text approval_granted_session = codes " is allowed by a session approval"
source_text approval_granted_project = codes " is allowed by a project approval"
source_text default_allow = codes " is allowed by default policy"

unfoldable pub decision_explanation : Decision → Text → Text
unfolding source_text
decision_explanation decision subject = subject ++ source_text decision.source

abbrev pub blocked_shell_write_decision : Decision
blocked_shell_write_decision = without_scope shell false strict_allowlist_deny

-- What is made of a decision; an error is passed on.
abbrev pub on_ok {ℓ} : {A : Type ℓ} → (Decision → A) → Result Decision → Result A
on_ok f (ok decision) = ok (f decision)
on_ok f (err e) = err e

unfoldable pub access_result : Text → Decision → AccessResult
access_result subject decision = record {
  allowed = decision.allowed;
  decision = decision;
  approval_status = approval_status decision;
  explanation = decision_explanation decision subject;
}

unfoldable pub shell_result : Decision → ShellResult
shell_result decision = record {
  outcome = if not decision.allowed then shell_denied else shell_allowed;
  allowed = decision.allowed;
  access_decision = decision;
  approval_status = approval_status decision;
  blocked_by_shell_write_bypass = false;
  explanation = decision_explanation decision (codes "shell access");
}

unfoldable pub blocked_result : ShellResult
blocked_result = record {
  outcome = blocked_shell_write_bypass;
  allowed = false;
  access_decision = blocked_shell_write_decision;
  approval_status = not_needed;
  blocked_by_shell_write_bypass = true;
  explanation = codes "shell command is blocked because it writes files directly through the shell";
}

-- The engine's request for a request of the runtime.
unfoldable pub file_engine_request : FileRequest → FileRequest
unfolding file_requires_approval
file_engine_request request = record request {
  approval_required = request.approval_required || file_requires_approval request.mode;
}

abbrev pub shell_engine_request : RuntimeShellRequest → ShellRequest
shell_engine_request request = record {
  command = request.command;
  approval_required = request.approval_required;
  force_approval = false;
}

unfoldable pub runtime_evaluate_file : Engine → FileRequest → Result AccessResult × Engine
unfolding file_engine_request access_result
runtime_evaluate_file e request =
    let (decision, e') = evaluate_file e (file_engine_request request) in
    (on_ok (access_result (codes "file access")) decision, e')

unfoldable pub runtime_evaluate_network : Engine → NetworkRequest → Result AccessResult × Engine
unfolding access_result
runtime_evaluate_network e request =
    let (decision, e') = evaluate_network e request in
    (on_ok (access_result (codes "network access")) decision, e')

module _ (parse : Text → Parsed) (print : Option WordParts → Text) where
  -- A command that the parser cannot read is left to the engine's rules.
  unfoldable pub runtime_evaluate_shell : Engine → RuntimeShellRequest → Result ShellResult × Engine
  unfolding shell_result blocked_result
  runtime_evaluate_shell e request =
      if (has_shell_write_patterns parse print request.command).found
      then (ok blocked_result, e)
      else let (decision, e') = evaluate_shell e (shell_engine_request request) in
        (on_ok shell_result decision, e')
