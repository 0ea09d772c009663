-- ===== src/Policy/Engine.antt =====
-- The evaluation of requests, internal/policy/policy.go. An evaluation reads the engine under its
-- lock, asks the host's handler with the lock released, and applies the answer under the lock again:
-- a verdict, the handler, and `settle`. `Decision` is a function of the engine at those two moments.
use falken_core.Base.{
  List, [], ◌∷◌, ◌++◌, Bool, true, false, ◌||◌, Option, none, some, if◌then◌else◌, is_nil,
}
use falken_core.Base.Int.{ℤ, is_positive}
use falken_core.Base.Text.{Text, trim_space, has_key}
use falken_core.Policy.Rules.{
  ApprovalScope, once, session, project, deny, unknown, DecisionSource, blocked_rule, allowed_rule,
  project_approval, session_approval, strict_allowlist_deny, missing_approval_handler_deny,
  approval_denied, approval_granted_once, approval_granted_session, approval_granted_project,
  default_allow, RequestKind, file, shell, network, FileAccessMode, FileRule, ShellRule,
  NetworkRule, exact, Config, FileRequest, ShellRequest, NetworkRequest, Decision, Result, ok, err,
  request_approval, persist_approval, Answer, answered, failed, ApprovalHandler, Engine,
}
use falken_core.Policy.Match.{
  normalize_file_path, file_approval_key, network_approval_key, matches_file_rule,
  matches_shell_rule, matches_exact_shell_rule, normalize_network_host, matches_network_rule,
}

unfoldable pub new_engine : Config → Option ApprovalHandler → Engine
new_engine config handler = record {
  config = config;
  handler = handler;
  project_approval_persister = none;
  approvals = record { files = []; shell = []; network = [] };
}

unfoldable pub set_project_approval_persister : Engine → Option (Config → Option Text) → Engine
set_project_approval_persister e persister = record e { project_approval_persister = persister }

unfoldable pub replace_project_approvals :
    Engine → List FileRule → List ShellRule → List NetworkRule → Engine
replace_project_approvals e files shell_rules network_rules = record e {
  config = record e.config {
    project_approved_files = files;
    project_approved_shell = shell_rules;
    project_approved_net = network_rules;
  };
}

-- A decision without a scope has Go's zero value there.
abbrev pub without_scope : RequestKind → Bool → DecisionSource → Decision
without_scope kind allowed source = record {
  kind = kind;
  allowed = allowed;
  source = source;
  scope = unknown [];
}

abbrev pub with_scope : RequestKind → Bool → DecisionSource → ApprovalScope → Decision
with_scope kind allowed source scope = record {
  kind = kind;
  allowed = allowed;
  source = source;
  scope = scope;
}

-- What the first critical section of an evaluation finds.
pub data Verdict : Type 0 where
  decided : Decision → Verdict
  ask : Verdict

unfoldable pub apply_file_approval :
    Engine → Text → FileAccessMode → ApprovalScope → Decision × Engine
apply_file_approval e path mode once = (with_scope file true approval_granted_once once, e)
apply_file_approval e path mode session = (
  with_scope file true approval_granted_session session,
  record e {
    approvals = record e.approvals { files = file_approval_key path mode ∷ e.approvals.files };
  },
)
apply_file_approval e path mode project = (
  with_scope file true approval_granted_project project,
  record e {
    config = record e.config {
      project_approved_files =
          e.config.project_approved_files
          ++ (record { path = path; match = exact; modes = mode ∷ [] } ∷ []);
    };
  },
)
apply_file_approval e path mode _ = (with_scope file false approval_denied deny, e)

unfoldable pub apply_shell_approval : Engine → Text → ApprovalScope → Decision × Engine
apply_shell_approval e command once = (with_scope shell true approval_granted_once once, e)
apply_shell_approval e command session = (
  with_scope shell true approval_granted_session session,
  record e { approvals = record e.approvals { shell = command ∷ e.approvals.shell } },
)
apply_shell_approval e command project = (
  with_scope shell true approval_granted_project project,
  record e {
    config = record e.config {
      project_approved_shell =
          e.config.project_approved_shell ++ (record { command = command; match = exact } ∷ []);
    };
  },
)
apply_shell_approval e command _ = (with_scope shell false approval_denied deny, e)

unfoldable pub apply_network_approval : Engine → Text → ℤ → ApprovalScope → Decision × Engine
apply_network_approval e host port once = (with_scope network true approval_granted_once once, e)
apply_network_approval e host port session = (
  with_scope network true approval_granted_session session,
  record e {
    approvals = record e.approvals {
      network = network_approval_key host port ∷ e.approvals.network;
    };
  },
)
apply_network_approval e host port project = (
  with_scope network true approval_granted_project project,
  record e {
    config = record e.config {
      project_approved_net =
          e.config.project_approved_net
          ++ (record {
            host = host;
            match = exact;
            ports = if is_positive port then port ∷ [] else [];
          }
              ∷ []);
    };
  },
)
apply_network_approval e host port _ = (with_scope network false approval_denied deny, e)

-- Which persister to call after a decision, if any.
unfoldable pub project_approval_persist_request : Engine → Decision → Option (Config → Option Text)
project_approval_persist_request e decision = elim decision.scope [
  | project ↦ e.project_approval_persister
  | _ ↦ none
]

unfoldable pub persist : RequestKind → Engine → Decision → Result Decision
unfolding project_approval_persist_request
persist kind e decision = elim (project_approval_persist_request e decision) [
  | none ↦ ok decision
  | some persister ↦ elim (persister e.config) [
    | none ↦ ok decision
    | some message ↦ err (persist_approval kind message)
  ]
]

-- What follows an answer of the handler, or its absence.
unfoldable pub settle :
    RequestKind
    → Engine
    → (ApprovalScope → Decision × Engine)
    → Option Answer
    → Result Decision × Engine
unfolding persist
settle kind e apply none = (ok (without_scope kind false missing_approval_handler_deny), e)
settle kind e apply (some (failed message)) = (err (request_approval kind message), e)
settle kind e apply (some (answered scope)) =
    let (decision, e') = apply scope in (persist kind e' decision, e')

abbrev pub ask_handler : Option ApprovalHandler → (ApprovalHandler → Answer) → Option Answer
ask_handler none question = none
ask_handler (some handler) question = some (question handler)

-- An evaluation ends with the first critical section, or goes on to ask.
abbrev pub conclude : Engine → Verdict → Result Decision × Engine → Result Decision × Engine
conclude e (decided decision) otherwise = (ok decision, e)
conclude e ask otherwise = otherwise

unfoldable pub file_verdict : Engine → Text → FileRequest → Verdict
file_verdict e normalized request =
    if matches_file_rule e.config.blocked_files normalized request.mode
    then decided (without_scope file false blocked_rule)
    else if has_key (file_approval_key normalized request.mode) e.approvals.files
    then decided (with_scope file true session_approval session)
    else if matches_file_rule e.config.project_approved_files normalized request.mode
    then decided (with_scope file true project_approval project)
    else if matches_file_rule e.config.allowed_files normalized request.mode
    then decided (without_scope file true allowed_rule)
    else if e.config.strict_file_allowlist
    then decided (without_scope file false strict_allowlist_deny)
    else if request.approval_required
    then ask
    else decided (without_scope file true default_allow)

unfoldable pub evaluate_file : Engine → FileRequest → Result Decision × Engine
unfolding file_verdict settle
evaluate_file e request =
    let normalized = normalize_file_path request.path in
    conclude e (file_verdict e normalized request) (
      settle file e (apply_file_approval e normalized request.mode) (
        ask_handler e.handler
          (λ handler. handler.approve_file (record request { path = normalized }))))

unfoldable pub shell_verdict : Engine → Text → ShellRequest → Verdict
shell_verdict e command request =
    if matches_shell_rule e.config.blocked_shell command
    then decided (without_scope shell false blocked_rule)
    else if has_key command e.approvals.shell
    then decided (with_scope shell true session_approval session)
    else if matches_exact_shell_rule e.config.project_approved_shell command
    then decided (with_scope shell true project_approval project)
    else if request.approval_required
        || request.force_approval
        || matches_shell_rule e.config.approval_required_shell command
    then ask
    else if matches_shell_rule e.config.project_approved_shell command
    then decided (with_scope shell true project_approval project)
    else if matches_shell_rule e.config.allowed_shell command
    then decided (without_scope shell true allowed_rule)
    else if e.config.strict_command_allowlist
    then decided (without_scope shell false strict_allowlist_deny)
    else decided (without_scope shell true default_allow)

unfoldable pub evaluate_shell : Engine → ShellRequest → Result Decision × Engine
unfolding shell_verdict settle
evaluate_shell e request =
    let command = trim_space request.command in
    conclude e (shell_verdict e command request) (
      settle shell e (apply_shell_approval e command) (
        ask_handler e.handler (λ handler.
          handler.approve_shell (record request { command = command; approval_required = true }))))

unfoldable pub network_verdict : Engine → Text → NetworkRequest → Verdict
network_verdict e host request =
    if matches_network_rule e.config.blocked_network host request.port
    then decided (without_scope network false blocked_rule)
    else if has_key (network_approval_key host request.port) e.approvals.network
    then decided (with_scope network true session_approval session)
    else if matches_network_rule e.config.project_approved_net host request.port
    then decided (with_scope network true project_approval project)
    else if matches_network_rule e.config.allowed_network host request.port
    then decided (without_scope network true allowed_rule)
    else if e.config.strict_network_allowlist
    then decided (without_scope network false strict_allowlist_deny)
    else if request.approval_required
    then ask
    else decided (without_scope network true default_allow)

unfoldable pub evaluate_network : Engine → NetworkRequest → Result Decision × Engine
unfolding network_verdict settle
evaluate_network e request =
    let host = normalize_network_host request.host in
    if is_nil host
    then (ok (without_scope network false strict_allowlist_deny), e)
    else conclude e (network_verdict e host request) (
        settle network e (apply_network_approval e host request.port) (
          ask_handler e.handler
            (λ handler. handler.approve_network (record request { host = host }))))
