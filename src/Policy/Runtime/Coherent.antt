-- ===== src/Policy/Runtime/Coherent.antt =====
-- The fields of a decision of internal/policy/policy.go agree with one another.
use falken_core.Base.{
  [], Bool, true, false, Option, none, some, ◌≡◌, refl, arith, is_nil, Bool-cases, inl, inr,
}
use falken_core.Base.Int.{ℤ}
use falken_core.Base.Text.{Text, trim_space}
use falken_core.Policy.Permits.{network_answer}
use falken_core.Policy.Rules.{
  ApprovalScope, once, session, project, deny, unknown, DecisionSource, blocked_rule,
  project_approval, session_approval, strict_allowlist_deny, missing_approval_handler_deny,
  approval_denied, approval_granted_once, approval_granted_session, approval_granted_project,
  RequestKind, file, shell, network, FileAccessMode, FileRequest, ShellRequest, NetworkRequest,
  Decision, ok, Answer, answered, failed, Engine,
}
use falken_core.Policy.Match.{normalize_file_path, normalize_network_host}
use falken_core.Policy.Engine.{
  Verdict, decided, ask, conclude, settle, persist, file_verdict, shell_verdict, network_verdict,
  evaluate_file, evaluate_shell, evaluate_network, apply_file_approval, apply_shell_approval,
  apply_network_approval,
}
use falken_core.Policy.History.{Request, file_request, shell_request, network_request, evaluate}

-- Whether a source lets a request pass, and the scope that goes with it.
abbrev pub lets_pass : DecisionSource → Bool
lets_pass blocked_rule = false
lets_pass strict_allowlist_deny = false
lets_pass missing_approval_handler_deny = false
lets_pass approval_denied = false
lets_pass _ = true

abbrev pub scope_of : DecisionSource → ApprovalScope
scope_of project_approval = project
scope_of session_approval = session
scope_of approval_denied = deny
scope_of approval_granted_once = once
scope_of approval_granted_session = session
scope_of approval_granted_project = project
scope_of _ = unknown []

pub record IsCoherent (kind : RequestKind) (d : Decision) : Type 0 where
  pub same_kind : d.kind ≡ kind
  pub by_source : d.allowed ≡ lets_pass d.source
  pub by_scope : d.scope ≡ scope_of d.source

abbrev pub kind_of : Request → RequestKind
kind_of (file_request r) = file
kind_of (shell_request r) = shell
kind_of (network_request r) = network

module _ (kind : RequestKind) (e : Engine) (apply : ApprovalScope → Decision × Engine)
    (law : (scope : ApprovalScope) → IsCoherent kind (apply scope).0) where
  persist-IsCoherent :
      (e' : Engine) (d' d : Decision)
      → IsCoherent kind d'
      → persist kind e' d' ≡ ok d
      → IsCoherent kind d
  unfolding persist
  persist-IsCoherent e' d' d h p = ground arith

  settle-IsCoherent :
      (answer : Option Answer) (d : Decision)
      → (settle kind e apply answer).0 ≡ ok d
      → IsCoherent kind d
  unfolding settle
  settle-IsCoherent none d h = ground arith
  settle-IsCoherent (some (failed message)) d h = ground arith
  settle-IsCoherent (some (answered scope)) d h =
      persist-IsCoherent (apply scope).1 (apply scope).0 d (law scope) h

  conclude-IsCoherent :
      (verdict : Verdict) (answer : Option Answer) (d : Decision)
      → ((d : Decision) → verdict ≡ decided d → IsCoherent kind d)
      → (conclude e verdict (settle kind e apply answer)).0 ≡ ok d
      → IsCoherent kind d
  conclude-IsCoherent (decided d') answer d c h = c d (ground arith)
  conclude-IsCoherent ask answer d c h = settle-IsCoherent answer d h

same :
    {kind : RequestKind} {d : Decision}
    → d.kind ≡ kind
    → d.allowed ≡ lets_pass d.source
    → d.scope ≡ scope_of d.source
    → IsCoherent kind d
same k a s = record { same_kind = k; by_source = a; by_scope = s }

file_verdict-IsCoherent :
    (e : Engine) (path : Text) (r : FileRequest) (d : Decision)
    → file_verdict e path r ≡ decided d
    → IsCoherent file d
unfolding file_verdict
file_verdict-IsCoherent e path r d h = ground arith

shell_verdict-IsCoherent :
    (e : Engine) (command : Text) (r : ShellRequest) (d : Decision)
    → shell_verdict e command r ≡ decided d
    → IsCoherent shell d
unfolding shell_verdict
shell_verdict-IsCoherent e command r d h = ground arith

network_verdict-IsCoherent :
    (e : Engine) (host : Text) (r : NetworkRequest) (d : Decision)
    → network_verdict e host r ≡ decided d
    → IsCoherent network d
unfolding network_verdict
network_verdict-IsCoherent e host r d h = ground arith

apply_file-IsCoherent :
    (e : Engine) (path : Text) (mode : FileAccessMode) (scope : ApprovalScope)
    → IsCoherent file (apply_file_approval e path mode scope).0
unfolding apply_file_approval
apply_file-IsCoherent e path mode once = same refl refl refl
apply_file-IsCoherent e path mode session = same refl refl refl
apply_file-IsCoherent e path mode project = same refl refl refl
apply_file-IsCoherent e path mode _ = same refl refl refl

apply_shell-IsCoherent :
    (e : Engine) (command : Text) (scope : ApprovalScope)
    → IsCoherent shell (apply_shell_approval e command scope).0
unfolding apply_shell_approval
apply_shell-IsCoherent e command once = same refl refl refl
apply_shell-IsCoherent e command session = same refl refl refl
apply_shell-IsCoherent e command project = same refl refl refl
apply_shell-IsCoherent e command _ = same refl refl refl

apply_network-IsCoherent :
    (e : Engine) (host : Text) (port : ℤ) (scope : ApprovalScope)
    → IsCoherent network (apply_network_approval e host port scope).0
unfolding apply_network_approval
apply_network-IsCoherent e host port once = same refl refl refl
apply_network-IsCoherent e host port session = same refl refl refl
apply_network-IsCoherent e host port project = same refl refl refl
apply_network-IsCoherent e host port _ = same refl refl refl

-- A decision of an evaluation that returns no error is of the request's kind, allows exactly if its
-- source is a rule, an approval or a default that allows, and carries the scope of that approval.
pub evaluate-IsCoherent :
    (e : Engine) (request : Request) (d : Decision)
    → (evaluate e request).0 ≡ ok d
    → IsCoherent (kind_of request) d
unfolding evaluate evaluate_file evaluate_shell evaluate_network network_answer
evaluate-IsCoherent e (file_request r) d h =
    let path = normalize_file_path r.path in
    conclude-IsCoherent file e (apply_file_approval e path r.mode)
      (apply_file-IsCoherent e path r.mode) (file_verdict e path r) _ d
      (file_verdict-IsCoherent e path r) h
evaluate-IsCoherent e (shell_request r) d h =
    let command = trim_space r.command in
    conclude-IsCoherent shell e (apply_shell_approval e command) (apply_shell-IsCoherent e command)
      (shell_verdict e command r) _ d (shell_verdict-IsCoherent e command r) h
evaluate-IsCoherent e (network_request r) d h =
    let host = normalize_network_host r.host in
    elim (Bool-cases (is_nil host)) [
      | inl empty ↦ ground arith
      | inr named ↦
          conclude-IsCoherent network e (apply_network_approval e host r.port)
            (apply_network-IsCoherent e host r.port) (network_verdict e host r) (network_answer e r)
            d (network_verdict-IsCoherent e host r) (ground arith)
    ]
