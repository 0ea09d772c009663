-- ===== src/Policy/Runtime/Permits.antt =====
-- What the policy in front of the tools lets pass, internal/policy/runtime/runtime.go.
use falken_core.Base.{
  Bool, true, not, [], ◌∷◌, some, none, ◌||◌, ◌&&◌, Option, ◌≡◌, refl, arith, subst, Bool-cases,
  inl, inr, if◌then◌else◌,
}
use falken_core.Base.Text.{Text, codes, has_key}
use falken_core.Commands.Syntax.{Parsed, WordParts}
use falken_core.Commands.Detect.{has_shell_write_patterns}
use falken_core.Policy.Rules.{
  ApprovalScope, Answer, answered, failed, FileRequest, NetworkRequest, Decision, Result, ok, err,
  Engine, RequestKind, file, shell, network,
}
use falken_core.Policy.Match.{normalize_file_path, file_approval_key, matches_file_rule}
use falken_core.Policy.Engine.{
  settle, persist, file_verdict, apply_file_approval, evaluate_file, evaluate_shell,
  evaluate_network,
}
use falken_core.Policy.Permits.{
  grants, file_answer, file_permits, shell_permits, network_permits, evaluate_file-permits,
  evaluate_shell-permits, evaluate_network-permits,
}
use falken_core.Policy.History.{shell_request, network_request, evaluate}
use falken_core.Policy.Runtime.{
  ApprovalStatus, not_needed, previously_granted, granted, denied, unavailable, ShellOutcome,
  shell_allowed, shell_denied, blocked_shell_write_bypass, RuntimeShellRequest, AccessResult,
  ShellResult, approval_status, on_ok, access_result, shell_result, blocked_result,
  file_engine_request, file_requires_approval, shell_engine_request, runtime_evaluate_file,
  runtime_evaluate_network, runtime_evaluate_shell,
}
use falken_core.Policy.Runtime.Coherent.{IsCoherent, evaluate-IsCoherent}

-- A status that tells of an approval goes with access, one that tells of its lack with none.
unfoldable pub status_agrees : ApprovalStatus → Bool → Bool
status_agrees not_needed allowed = true
status_agrees previously_granted allowed = allowed
status_agrees granted allowed = allowed
status_agrees denied allowed = not allowed
status_agrees unavailable allowed = not allowed

status_agrees-coherent :
    (kind : RequestKind) (d : Decision)
    → IsCoherent kind d
    → status_agrees (approval_status d) d.allowed ≡ true
unfolding status_agrees approval_status
status_agrees-coherent kind d h = ground arith

on_ok-eq-ok :
    {A : Type 0} (f : Decision → A) (r : Result Decision) (a : A)
    → on_ok f r ≡ ok a
    → (d : Decision) × (r ≡ ok d) × (f d ≡ a)
on_ok-eq-ok f (ok d) a h = (d, refl, ground arith)
on_ok-eq-ok f (err e) a h = absurd (ground arith)

-- The request for a file that the engine is to decide: writing and creating require an approval.
abbrev pub asked_of_engine : FileRequest → FileRequest
asked_of_engine request = record request {
  approval_required =
      request.approval_required || has_key request.mode (codes "create" ∷ codes "write" ∷ []);
}

engine_request-asked :
    (request : FileRequest) → file_engine_request request ≡ asked_of_engine request
unfolding file_engine_request file_requires_approval has_key
engine_request-asked request = ground arith

-- What becomes of a request that the handler is asked about; a failed handler gives no status.
abbrev pub answer_status : Option Answer → ApprovalStatus
answer_status none = unavailable
answer_status (some (failed message)) = not_needed
answer_status (some (answered scope)) = if grants scope then granted else denied

-- The status of a request for a file: an approval of before counts where no blocked rule matches, and an
-- answer where nothing else decides and one is required.
abbrev pub file_status : Engine → FileRequest → ApprovalStatus
file_status e request =
    let path = normalize_file_path request.path in
    if matches_file_rule e.config.blocked_files path request.mode
    then not_needed
    else if has_key (file_approval_key path request.mode) e.approvals.files
        || matches_file_rule e.config.project_approved_files path request.mode
    then previously_granted
    else if matches_file_rule e.config.allowed_files path request.mode
        || (e.config.strict_file_allowlist || not request.approval_required)
    then not_needed
    else answer_status (file_answer e request)

apply_file-status :
    (e : Engine) (path mode : Text) (scope : ApprovalScope)
    → approval_status (apply_file_approval e path mode scope).0
      ≡ (if grants scope then granted else denied)
unfolding apply_file_approval grants approval_status
apply_file-status e path mode scope = ground arith

settle-status :
    (kind : RequestKind) (e : Engine) (apply : ApprovalScope → Decision × Engine)
    (answer : Option Answer) (d : Decision)
    → ((scope : ApprovalScope)
        → approval_status (apply scope).0 ≡ (if grants scope then granted else denied))
    → (settle kind e apply answer).0 ≡ ok d
    → approval_status d ≡ answer_status answer
unfolding settle persist
settle-status kind e apply none d h p = unfold approval_status in ground arith
settle-status kind e apply (some (failed message)) d h p = ground arith
settle-status kind e apply (some (answered scope)) d h p = ground (arith, h scope)

evaluate_file-status :
    (e : Engine) (request : FileRequest) (d : Decision)
    → (evaluate_file e request).0 ≡ ok d
    → approval_status d ≡ file_status e request
unfolding evaluate_file file_verdict file_answer
evaluate_file-status e request d h =
    let path = normalize_file_path request.path in
    let s =
      settle-status file e (apply_file_approval e path request.mode) (file_answer e request) d
        (apply_file-status e path request.mode) in
    unfold approval_status in ground (arith, s)

-- A file is read, written or created exactly as the engine permits the request, to which the runtime
-- adds that writing and creating require an approval; and the status tells of an approval of before, of
-- the handler's answer or of its lack, or that neither was needed.
pub runtime_evaluate_file_exact :
    (e : Engine) (request : FileRequest) (r : AccessResult)
    → (runtime_evaluate_file e request).0 ≡ ok r
    → (r.allowed ≡ file_permits e (asked_of_engine request))
      × (r.approval_status ≡ file_status e (asked_of_engine request))
unfolding runtime_evaluate_file access_result
runtime_evaluate_file_exact e request r h =
    let q = file_engine_request request in
    let (d, p, same) =
      on_ok-eq-ok (access_result (codes "file access")) (evaluate_file e q).0 r h in
    subst (λ q'. (r.allowed ≡ file_permits e q') × (r.approval_status ≡ file_status e q'))
      (engine_request-asked request)
      (subst
        (λ (r : AccessResult).
          (r.allowed ≡ file_permits e q) × (r.approval_status ≡ file_status e q))
        same (evaluate_file-permits e q d p, evaluate_file-status e q d p))

-- A host is reached exactly as the engine permits it, and the status agrees with the answer.
pub runtime_evaluate_network_exact :
    (e : Engine) (request : NetworkRequest) (r : AccessResult)
    → (runtime_evaluate_network e request).0 ≡ ok r
    → (r.allowed ≡ network_permits e request) × (status_agrees r.approval_status r.allowed ≡ true)
unfolding runtime_evaluate_network access_result
runtime_evaluate_network_exact e q r h =
    let (d, p, same) =
      on_ok-eq-ok (access_result (codes "network access")) (evaluate_network e q).0 r h in
    subst
      (λ (r : AccessResult).
        (r.allowed ≡ network_permits e q) × (status_agrees r.approval_status r.allowed ≡ true))
      same
      (
        evaluate_network-permits e q d p,
        status_agrees-coherent network d
            (evaluate-IsCoherent e (network_request q) d (unfold evaluate in p)),
      )

module _ (parse : Text → Parsed) (print : Option WordParts → Text) where
  abbrev pub writes_files : RuntimeShellRequest → Bool
  writes_files request = (has_shell_write_patterns parse print request.command).found

  -- The outcome that goes with what was found of the command and with the answer.
  abbrev pub outcome_of : Bool → Bool → ShellOutcome
  outcome_of found allowed =
      if found then blocked_shell_write_bypass else if allowed then shell_allowed else shell_denied

  -- A command runs exactly if no write of a file is found in it and the engine permits it, whatever
  -- was approved before; the outcome and the status agree with that; and a command with a write is
  -- refused without asking, and leaves the engine as it was.
  pub runtime_evaluate_shell_exact :
      (e : Engine) (request : RuntimeShellRequest) (r : ShellResult)
      → (runtime_evaluate_shell parse print e request).0 ≡ ok r
      → (r.allowed ≡ (not (writes_files request) && shell_permits e (shell_engine_request request)))
        × (r.outcome ≡ outcome_of (writes_files request) r.allowed)
        × (status_agrees r.approval_status r.allowed ≡ true)
        × (writes_files request ≡ true → (runtime_evaluate_shell parse print e request).1 ≡ e)
  unfolding runtime_evaluate_shell shell_result blocked_result
  runtime_evaluate_shell_exact e request r h = elim (Bool-cases (writes_files request)) [
    | inl found ↦
        (ground arith, ground arith, unfold status_agrees in ground arith, λ f. ground arith)
    | inr clean ↦
        let q = shell_engine_request request in
        let k : on_ok shell_result (evaluate_shell e q).0 ≡ ok r = ground arith in
        let (d, p, same) = on_ok-eq-ok shell_result (evaluate_shell e q).0 r k in
        let permits = evaluate_shell-permits e q d p in
        let agrees =
          status_agrees-coherent shell d
            (evaluate-IsCoherent e (shell_request q) d (unfold evaluate in p)) in
        (
          ground arith,
          ground arith,
          subst (λ (r : ShellResult). status_agrees r.approval_status r.allowed ≡ true) same agrees,
          λ f. ground arith,
        )
  ]
