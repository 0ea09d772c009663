-- ===== src/Policy/Permits.antt =====
-- What an evaluation of internal/policy/policy.go permits, as a formula without its order of tests.
use falken_core.Base.{
  Bool, true, false, not, ◌&&◌, ◌||◌, Option, none, some, ◌≡◌, arith, if◌then◌else◌, is_nil,
}
use falken_core.Base.Int.{ℤ}
use falken_core.Base.Text.{Text, trim_space, has_key}
use falken_core.Policy.Rules.{
  ApprovalScope, once, session, project, deny, unknown, RequestKind, file, shell, network,
  FileRequest, ShellRequest, NetworkRequest, Decision, ok, Answer, answered, failed, Engine,
}
use falken_core.Policy.Match.{
  normalize_file_path, file_approval_key, network_approval_key, matches_file_rule,
  matches_shell_rule, matches_exact_shell_rule, normalize_network_host, matches_network_rule,
}
use falken_core.Policy.Engine.{
  settle, ask_handler, evaluate_file, evaluate_shell, evaluate_network, apply_file_approval,
  apply_shell_approval, apply_network_approval,
}

-- The scopes by which a handler lets a request pass.
unfoldable pub grants : ApprovalScope → Bool
grants once = true
grants session = true
grants project = true
grants deny = false
grants (unknown name) = false

unfoldable pub granted : Option Answer → Bool
unfolding grants
granted none = false
granted (some (failed message)) = false
granted (some (answered scope)) = grants scope

unfoldable pub file_answer : Engine → FileRequest → Option Answer
file_answer e request =
    ask_handler e.handler
      (λ handler. handler.approve_file (record request { path = normalize_file_path request.path }))

unfoldable pub shell_answer : Engine → ShellRequest → Option Answer
shell_answer e request = ask_handler e.handler (λ handler.
    handler.approve_shell
      (record request { command = trim_space request.command; approval_required = true }))

unfoldable pub network_answer : Engine → NetworkRequest → Option Answer
network_answer e request = ask_handler e.handler (λ handler.
    handler.approve_network (record request { host = normalize_network_host request.host }))

unfoldable pub file_permits : Engine → FileRequest → Bool
unfolding granted file_answer
file_permits e request =
    let path = normalize_file_path request.path in
    not (matches_file_rule e.config.blocked_files path request.mode)
    && (has_key (file_approval_key path request.mode) e.approvals.files
        || matches_file_rule e.config.project_approved_files path request.mode
        || matches_file_rule e.config.allowed_files path request.mode
        || (not e.config.strict_file_allowlist
            && (not request.approval_required || granted (file_answer e request))))

unfoldable pub shell_permits : Engine → ShellRequest → Bool
unfolding granted shell_answer
shell_permits e request =
    let command = trim_space request.command in
    not (matches_shell_rule e.config.blocked_shell command)
    && (has_key command e.approvals.shell
        || matches_exact_shell_rule e.config.project_approved_shell command
        || (if request.approval_required
              || request.force_approval
              || matches_shell_rule e.config.approval_required_shell command
            then granted (shell_answer e request)
            else matches_shell_rule e.config.project_approved_shell command
              || matches_shell_rule e.config.allowed_shell command
              || not e.config.strict_command_allowlist))

unfoldable pub network_permits : Engine → NetworkRequest → Bool
unfolding granted network_answer
network_permits e request =
    let host = normalize_network_host request.host in
    not (is_nil host)
    && (not (matches_network_rule e.config.blocked_network host request.port)
        && (has_key (network_approval_key host request.port) e.approvals.network
            || matches_network_rule e.config.project_approved_net host request.port
            || matches_network_rule e.config.allowed_network host request.port
            || (not e.config.strict_network_allowlist
                && (not request.approval_required || granted (network_answer e request)))))

-- A settled decision allows exactly what the answer grants.
settle-granted :
    (kind : RequestKind) (e : Engine) (apply : ApprovalScope → Decision × Engine)
    (answer : Option Answer) (d : Decision)
    → ((scope : ApprovalScope) → (apply scope).0.allowed ≡ grants scope)
    → (settle kind e apply answer).0 ≡ ok d
    → d.allowed ≡ granted answer
unfolding settle granted
settle-granted kind e apply none d h p = ground arith
settle-granted kind e apply (some (failed message)) d h p = ground arith
settle-granted kind e apply (some (answered scope)) d h p = ground (arith, h scope)

apply_file-grants :
    (e : Engine) (path mode : Text) (scope : ApprovalScope)
    → (apply_file_approval e path mode scope).0.allowed ≡ grants scope
unfolding apply_file_approval grants
apply_file-grants e path mode scope = ground arith

-- A file request that is decided without error is allowed exactly if no blocked rule matches it,
-- and the session, a project rule or an allowed rule approves it, or the allowlist is not strict
-- and either no approval is required or the handler grants it now.
pub evaluate_file-permits :
    (e : Engine) (request : FileRequest) (d : Decision)
    → (evaluate_file e request).0 ≡ ok d
    → d.allowed ≡ file_permits e request
unfolding evaluate_file file_permits
evaluate_file-permits e request d h =
    let path = normalize_file_path request.path in
    let s =
      settle-granted file e (apply_file_approval e path request.mode) (file_answer e request) d
        (apply_file-grants e path request.mode) in
    ground (arith, s)

apply_shell-grants :
    (e : Engine) (command : Text) (scope : ApprovalScope)
    → (apply_shell_approval e command scope).0.allowed ≡ grants scope
unfolding apply_shell_approval grants
apply_shell-grants e command scope = ground arith

apply_network-grants :
    (e : Engine) (host : Text) (port : ℤ) (scope : ApprovalScope)
    → (apply_network_approval e host port scope).0.allowed ≡ grants scope
unfolding apply_network_approval grants
apply_network-grants e host port scope = ground arith

-- A shell request that is decided without error is allowed exactly if no blocked rule matches it,
-- and the session or an exact project rule approves the command; or else, where the request or a rule
-- requires an approval, the handler grants it now, and where none is required, a project rule or an
-- allowed rule matches or the allowlist is not strict.
pub evaluate_shell-permits :
    (e : Engine) (request : ShellRequest) (d : Decision)
    → (evaluate_shell e request).0 ≡ ok d
    → d.allowed ≡ shell_permits e request
unfolding evaluate_shell shell_permits
evaluate_shell-permits e request d h =
    let command = trim_space request.command in
    let s =
      settle-granted shell e (apply_shell_approval e command) (shell_answer e request) d
        (apply_shell-grants e command) in
    ground (arith, s)

-- A network request that is decided without error is allowed exactly if its host is not empty, no
-- blocked rule matches it, and the session, a project rule or an allowed rule approves it, or the
-- allowlist is not strict and either no approval is required or the handler grants it now.
pub evaluate_network-permits :
    (e : Engine) (request : NetworkRequest) (d : Decision)
    → (evaluate_network e request).0 ≡ ok d
    → d.allowed ≡ network_permits e request
unfolding evaluate_network network_permits
evaluate_network-permits e request d h =
    let host = normalize_network_host request.host in
    let s =
      settle-granted network e (apply_network_approval e host request.port)
        (network_answer e request) d (apply_network-grants e host request.port) in
    ground (arith, s)
