-- ===== src/Policy/History/Blocked.antt =====
-- What no history changes, and so what stays blocked.
use falken_core.Base.{List, [], ◌∷◌, true, false, ◌≡◌, refl, sym, subst, is_nil, arith}
use falken_core.Base.Text.{Text, trim_space, trim_right_char, trim_left, trim_right, to_lower}
use falken_core.Base.Int.{ℤ}
use falken_core.Policy.Rules.{
  blocked_rule, file, shell, network, FileRequest, ShellRequest, NetworkRequest, NetworkRule, ok,
  Engine,
}
use falken_core.Policy.Match.{
  normalize_file_path, matches_file_rule, matches_shell_rule, normalize_network_host,
  matches_network_rule,
}
use falken_core.Policy.Engine.{
  without_scope, set_project_approval_persister, replace_project_approvals, apply_file_approval,
  apply_shell_approval, apply_network_approval, evaluate_file, evaluate_shell, evaluate_network,
}
use falken_core.Policy.History.{
  Event, file_answer, shell_answer, network_answer, approvals_replaced, persister_set, step, run,
}

-- The parts of an engine that only its construction sets.
pub record SameRules (a b : Engine) : Type 0 where
  pub blocked_files : a.config.blocked_files ≡ b.config.blocked_files
  pub blocked_shell : a.config.blocked_shell ≡ b.config.blocked_shell
  pub blocked_network : a.config.blocked_network ≡ b.config.blocked_network
  pub approval_required_shell : a.config.approval_required_shell ≡ b.config.approval_required_shell
  pub allowed_files : a.config.allowed_files ≡ b.config.allowed_files
  pub allowed_shell : a.config.allowed_shell ≡ b.config.allowed_shell
  pub allowed_network : a.config.allowed_network ≡ b.config.allowed_network
  pub strict_file : a.config.strict_file_allowlist ≡ b.config.strict_file_allowlist
  pub strict_command : a.config.strict_command_allowlist ≡ b.config.strict_command_allowlist
  pub strict_network : a.config.strict_network_allowlist ≡ b.config.strict_network_allowlist
  pub handler : a.handler ≡ b.handler

step-SameRules : (e : Engine) (event : Event) → SameRules (step e event) e
unfolding step apply_file_approval apply_shell_approval apply_network_approval
    replace_project_approvals set_project_approval_persister
step-SameRules e (file_answer path mode scope) = ground arith
step-SameRules e (shell_answer command scope) = ground arith
step-SameRules e (network_answer host port scope) = ground arith
step-SameRules e (approvals_replaced files shell_rules network_rules) = ground arith
step-SameRules e (persister_set persister) = ground arith

SameRules-trans : {a b c : Engine} → SameRules a b → SameRules b c → SameRules a c
SameRules-trans p q = ground arith

pub run-SameRules : (e : Engine) (events : List Event) → SameRules (run e events) e
unfolding run
run-SameRules e [] = ground arith
run-SameRules e (event ∷ events) =
    SameRules-trans (run-SameRules (step e event) events) (step-SameRules e event)

denied_file :
    (e : Engine) (request : FileRequest)
    → matches_file_rule e.config.blocked_files (normalize_file_path request.path) request.mode
      ≡ true
    → evaluate_file e request ≡ (ok (without_scope file false blocked_rule), e)
unfolding evaluate_file
denied_file e request h = ground arith

denied_shell :
    (e : Engine) (request : ShellRequest)
    → matches_shell_rule e.config.blocked_shell (trim_space request.command) ≡ true
    → evaluate_shell e request ≡ (ok (without_scope shell false blocked_rule), e)
unfolding evaluate_shell
denied_shell e request h = ground arith

is_nil-eq : (host : Text) → is_nil host ≡ true → host ≡ []
is_nil-eq [] h = refl
is_nil-eq (c ∷ host) h = cc

-- no network rule matches a host that is empty
matches_network_rule-nil :
    (rules : List NetworkRule) (host : Text) (port : ℤ)
    → is_nil host ≡ true
    → matches_network_rule rules host port ≡ false
unfolding matches_network_rule
matches_network_rule-nil rules host port h =
    rw (is_nil-eq host h) (
      unfold normalize_network_host trim_space trim_right_char trim_left trim_right to_lower in
      refl)

denied_network :
    (e : Engine) (request : NetworkRequest)
    → matches_network_rule e.config.blocked_network
        (normalize_network_host request.host)
        request.port
      ≡ true
    → evaluate_network e request ≡ (ok (without_scope network false blocked_rule), e)
unfolding evaluate_network
denied_network e request h =
    let host = normalize_network_host request.host in
    ground (arith, matches_network_rule-nil e.config.blocked_network host request.port)

module _ (e : Engine) (events : List Event) where
  -- Whatever was approved, replaced or installed in between, a file that a blocked rule of the
  -- engine's configuration matches is denied by that rule, and the engine stays as it is.
  pub blocked_file :
      (request : FileRequest)
      → matches_file_rule e.config.blocked_files (normalize_file_path request.path) request.mode
        ≡ true
      → evaluate_file (run e events) request
        ≡ (ok (without_scope file false blocked_rule), run e events)
  blocked_file request h = denied_file (run e events) request (
      subst
        (λ rules. matches_file_rule rules (normalize_file_path request.path) request.mode ≡ true)
        (sym (run-SameRules e events).blocked_files) h)

  -- Whatever was approved, replaced or installed in between, a command that a blocked shell rule of
  -- the engine's configuration matches is denied by that rule, and the engine stays as it is.
  pub blocked_command :
      (request : ShellRequest)
      → matches_shell_rule e.config.blocked_shell (trim_space request.command) ≡ true
      → evaluate_shell (run e events) request
        ≡ (ok (without_scope shell false blocked_rule), run e events)
  blocked_command request h = denied_shell (run e events) request (
      subst (λ rules. matches_shell_rule rules (trim_space request.command) ≡ true)
        (sym (run-SameRules e events).blocked_shell) h)

  -- Whatever was approved, replaced or installed in between, a host and port that a blocked network
  -- rule of the engine's configuration matches are denied by that rule, and the engine stays as it is.
  pub blocked_host :
      (request : NetworkRequest)
      → matches_network_rule e.config.blocked_network
          (normalize_network_host request.host)
          request.port
        ≡ true
      → evaluate_network (run e events) request
        ≡ (ok (without_scope network false blocked_rule), run e events)
  blocked_host request h = denied_network (run e events) request (
      subst
        (λ rules.
          matches_network_rule rules (normalize_network_host request.host) request.port ≡ true)
        (sym (run-SameRules e events).blocked_network) h)
