-- ===== src/Policy/Failures.antt =====
-- Requests that internal/policy/policy.go refuses, and approvals that it cannot persist.
use falken_core.Base.{
  List, [], ◌∷◌, ◌++◌, Bool, true, false, not, Option, none, some, ◌≡◌, refl, arith,
}
use falken_core.Base.Text.{Text, trim_space}
use falken_core.Base.Text.Laws.{text_eq_refl}
use falken_core.Policy.Rules.{
  ApprovalScope, project, RequestKind, file, shell, network, ShellRule, exact, project_approval,
  Config, ShellRequest, Decision, Result, ok, err, request_approval, persist_approval, Answer,
  answered, failed, Engine,
}
use falken_core.Policy.Match.{normalize_file_path, normalize_network_host, matches_exact_shell_rule}
use falken_core.Policy.Engine.{
  Verdict, decided, ask, conclude, settle, with_scope, file_verdict, shell_verdict, network_verdict,
  evaluate_file, evaluate_shell, evaluate_network, apply_file_approval, apply_shell_approval,
  apply_network_approval,
}
use falken_core.Policy.History.{Request, file_request, shell_request, network_request, evaluate}
use falken_core.Policy.Permits.{shell_answer, network_answer}

-- The request does not pass: it is denied, or the handler could not be asked.
unfoldable pub refuses : Result Decision → Bool
refuses (ok d) = not d.allowed
refuses (err (request_approval kind message)) = true
refuses (err (persist_approval kind message)) = false

module _ (kind : RequestKind) (e : Engine) (apply : ApprovalScope → Decision × Engine)
    (law : (scope : ApprovalScope) → (apply scope).0.allowed ≡ false → (apply scope).1 ≡ e) where
  settle-refuses :
      (answer : Option Answer)
      → refuses (settle kind e apply answer).0 ≡ true
      → (settle kind e apply answer).1 ≡ e
  unfolding refuses settle
  settle-refuses none h = refl
  settle-refuses (some (failed message)) h = refl
  settle-refuses (some (answered scope)) h = ground (arith, law scope)

  conclude-refuses :
      (verdict : Verdict) (answer : Option Answer)
      → refuses (conclude e verdict (settle kind e apply answer)).0 ≡ true
      → (conclude e verdict (settle kind e apply answer)).1 ≡ e
  conclude-refuses (decided d) answer h = refl
  conclude-refuses ask answer h = settle-refuses answer h

-- A request that is refused, by a rule, for want of a handler, by the handler's answer or by its
-- error, leaves the engine as it was: nothing is approved by it.
pub refused_unchanged :
    (e : Engine) (request : Request)
    → refuses (evaluate e request).0 ≡ true
    → (evaluate e request).1 ≡ e
unfolding evaluate evaluate_file evaluate_shell evaluate_network network_answer
refused_unchanged e (file_request r) h =
    let path = normalize_file_path r.path in
    conclude-refuses file e (apply_file_approval e path r.mode)
      (λ scope. unfold apply_file_approval in ground arith) (file_verdict e path r) _ h
refused_unchanged e (shell_request r) h =
    let command = trim_space r.command in
    conclude-refuses shell e (apply_shell_approval e command)
      (λ scope. unfold apply_shell_approval in ground arith) (shell_verdict e command r) _ h
refused_unchanged e (network_request r) h =
    let host = normalize_network_host r.host in
    ground (
      arith,
      conclude-refuses network e (apply_network_approval e host r.port)
          (λ scope. unfold apply_network_approval in ground arith) (network_verdict e host r)
          (network_answer e r),
    )

matches_exact-append :
    (rules : List ShellRule) (command : Text)
    → matches_exact_shell_rule (rules ++ (record { command = command; match = exact } ∷ [])) command
      ≡ true
unfolding matches_exact_shell_rule
matches_exact-append [] command = rw (text_eq_refl command)
matches_exact-append (rule ∷ rules) command = ground (arith, matches_exact-append rules command)

module _ (e : Engine) (request : ShellRequest) where
  -- A project approval that cannot be persisted is reported as an error, and is in force all the
  -- same: the same request passes at its next evaluation, without asking.
  pub unpersisted_command :
      (persister : Config → Option Text) (message : Text)
      → shell_verdict e (trim_space request.command) request ≡ ask
      → shell_answer e request ≡ some (answered project)
      → e.project_approval_persister ≡ some persister
      → persister (apply_shell_approval e (trim_space request.command) project).1.config
        ≡ some message
      → ((evaluate_shell e request).0 ≡ err (persist_approval shell message))
        × ((evaluate_shell (evaluate_shell e request).1 request).0
            ≡ ok (with_scope shell true project_approval project))
  unfolding evaluate_shell shell_answer apply_shell_approval
  unpersisted_command persister message v a p f = (
    ground arith,
    ground
        (arith, matches_exact-append e.config.project_approved_shell (trim_space request.command)),
  )
