-- ===== src/Policy/History/Refines.antt =====
-- Evaluations one after another are histories.
use falken_core.Base.{
  Bool, not, ◌&&◌, ◌||◌, if◌then◌else◌, ap, sym, List, [], ◌∷◌, ◌++◌, Option, none, some, ◌≡◌, refl,
  ◌∙◌, arith, is_nil,
}
use falken_core.Base.Text.{trim_space, has_key}
use falken_core.Policy.Rules.{
  FileRequest, ShellRequest, NetworkRequest, RequestKind, ApprovalScope, Decision, Answer, answered,
  failed, Engine, file, shell, network,
}
use falken_core.Policy.Permits
use falken_core.Policy.Match.{
  normalize_file_path, normalize_network_host, file_approval_key, network_approval_key,
  matches_file_rule, matches_shell_rule, matches_exact_shell_rule, matches_network_rule,
}
use falken_core.Policy.Engine.{
  settle, file_verdict, shell_verdict, network_verdict, evaluate_file, evaluate_shell,
  evaluate_network, apply_file_approval, apply_shell_approval, apply_network_approval,
}
use falken_core.Policy.History.{
  Event, file_answer, shell_answer, network_answer, step, run, Request, file_request, shell_request,
  network_request, evaluate, serve,
}

-- The requests that nothing settles but the handler: no blocked rule, approval of before, rule that
-- allows, or strict allowlist does, and an approval is required.
abbrev pub file_asks : Engine → FileRequest → Bool
file_asks e r =
    let path = normalize_file_path r.path in
    r.approval_required
    && not (has_key (file_approval_key path r.mode) e.approvals.files)
    && not (matches_file_rule e.config.project_approved_files path r.mode)
    && not (matches_file_rule e.config.allowed_files path r.mode)
    && not e.config.strict_file_allowlist
    && not (matches_file_rule e.config.blocked_files path r.mode)

abbrev pub shell_asks : Engine → ShellRequest → Bool
shell_asks e r =
    let command = trim_space r.command in
    (r.force_approval
      || (r.approval_required || matches_shell_rule e.config.approval_required_shell command))
    && not (has_key command e.approvals.shell)
    && not (matches_exact_shell_rule e.config.project_approved_shell command)
    && not (matches_shell_rule e.config.blocked_shell command)

abbrev pub network_asks : Engine → NetworkRequest → Bool
network_asks e r =
    let host = normalize_network_host r.host in
    r.approval_required
    && not (is_nil host)
    && not (has_key (network_approval_key host r.port) e.approvals.network)
    && not (matches_network_rule e.config.project_approved_net host r.port)
    && not (matches_network_rule e.config.allowed_network host r.port)
    && not e.config.strict_network_allowlist
    && not (matches_network_rule e.config.blocked_network host r.port)

-- The event of an answer; a missing or a failed handler makes none.
abbrev pub answer_events : (ApprovalScope → Event) → Option Answer → List Event
answer_events event none = []
answer_events event (some (failed message)) = []
answer_events event (some (answered scope)) = event scope ∷ []

-- The events of a request: that of the handler's answer, where it is asked.
abbrev pub events_of : Engine → Request → List Event
events_of e (file_request r) =
    if file_asks e r
    then answer_events (file_answer (normalize_file_path r.path) r.mode) (Permits.file_answer e r)
    else []
events_of e (shell_request r) =
    if shell_asks e r
    then answer_events (shell_answer (trim_space r.command)) (Permits.shell_answer e r)
    else []
events_of e (network_request r) =
    if network_asks e r
    then answer_events (network_answer (normalize_network_host r.host) r.port)
        (Permits.network_answer e r)
    else []

-- The events of requests one after another, each at the engine that those before it have left.
abbrev pub history_of : Engine → List Request → List Event
history_of e [] = []
history_of e (r ∷ rs) = let events = events_of e r in events ++ history_of (run e events) rs

settle-events :
    (kind : RequestKind) (e : Engine) (apply : ApprovalScope → Decision × Engine)
    (event : ApprovalScope → Event) (answer : Option Answer)
    → ((scope : ApprovalScope) → (apply scope).1 ≡ step e (event scope))
    → (settle kind e apply answer).1 ≡ run e (answer_events event answer)
unfolding settle run
settle-events kind e apply event none h = refl
settle-events kind e apply event (some (failed message)) h = refl
settle-events kind e apply event (some (answered scope)) h = h scope

evaluate-events :
    (e : Engine) (request : Request) → (evaluate e request).1 ≡ run e (events_of e request)
unfolding evaluate evaluate_file evaluate_shell evaluate_network file_verdict shell_verdict
    network_verdict Permits.file_answer Permits.shell_answer Permits.network_answer
evaluate-events e (file_request r) =
    let path = normalize_file_path r.path in
    let s =
      settle-events file e (apply_file_approval e path r.mode) (file_answer path r.mode)
        (Permits.file_answer e r) (λ scope. unfold step in refl) in
    let idle : run e [] ≡ e = unfold run in refl in ground (arith, s, idle)
evaluate-events e (shell_request r) =
    let command = trim_space r.command in
    let s =
      settle-events shell e (apply_shell_approval e command) (shell_answer command)
        (Permits.shell_answer e r) (λ scope. unfold step in refl) in
    let idle : run e [] ≡ e = unfold run in refl in ground (arith, s, idle)
evaluate-events e (network_request r) =
    let host = normalize_network_host r.host in
    let s =
      settle-events network e (apply_network_approval e host r.port) (network_answer host r.port)
        (Permits.network_answer e r) (λ scope. unfold step in refl) in
    let idle : run e [] ≡ e = unfold run in refl in ground (arith, s, idle)

run-append : (e : Engine) (xs ys : List Event) → run e (xs ++ ys) ≡ run (run e xs) ys
unfolding run
run-append e [] ys = refl
run-append e (x ∷ xs) ys = run-append (step e x) xs ys

-- The engine after any requests, evaluated one after another, is the engine after the history of the
-- handler's answers to those of them, and to no others, that require an approval and that no rule,
-- approval of before or allowlist settles.
pub serve_refines :
    (e : Engine) (requests : List Request) → serve e requests ≡ run e (history_of e requests)
unfolding serve
serve_refines e [] = unfold run in refl
serve_refines e (r ∷ rs) =
    let first = evaluate-events e r in
    let rest = serve_refines (evaluate e r).1 rs in
    rest
    ∙ ap (λ e'. run e' (history_of e' rs)) first
    ∙ sym (run-append e (events_of e r) (history_of (run e (events_of e r)) rs))
