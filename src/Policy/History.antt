-- ===== src/Policy/History.antt =====
-- Histories of the engine of internal/policy/policy.go: the critical sections that change it, in the
-- order in which the lock was taken, whatever goroutines they come from.
pub mod Blocked
pub mod Approvals
pub mod Refines
use falken_core.Base.{List, [], ◌∷◌, Bool, true, false, Option, ◌||◌, ◌≡◌}
use falken_core.Base.Int.{ℤ}
use falken_core.Base.Text.{Text, text_eq}
use falken_core.Policy.Rules.{
  ApprovalScope, session, FileAccessMode, FileRule, ShellRule, NetworkRule, Config, FileRequest,
  ShellRequest, NetworkRequest, Decision, Result, Engine,
}
use falken_core.Policy.Match.{file_approval_key, network_approval_key}
use falken_core.Policy.Engine.{
  set_project_approval_persister, replace_project_approvals, apply_file_approval,
  apply_shell_approval, apply_network_approval, evaluate_file, evaluate_shell, evaluate_network,
}

pub data Event : Type 0 where
  file_answer : Text → FileAccessMode → ApprovalScope → Event
  shell_answer : Text → ApprovalScope → Event
  network_answer : Text → ℤ → ApprovalScope → Event
  approvals_replaced : List FileRule → List ShellRule → List NetworkRule → Event
  persister_set : Option (Config → Option Text) → Event

unfoldable pub step : Engine → Event → Engine
step e (file_answer path mode scope) = (apply_file_approval e path mode scope).1
step e (shell_answer command scope) = (apply_shell_approval e command scope).1
step e (network_answer host port scope) = (apply_network_approval e host port scope).1
step e (approvals_replaced files shell network) = replace_project_approvals e files shell network
step e (persister_set persister) = set_project_approval_persister e persister

unfoldable pub run : Engine → List Event → Engine
run e [] = e
run e (event ∷ events) = run (step e event) events

-- A request of any kind, and its evaluation.
pub data Request : Type 0 where
  file_request : FileRequest → Request
  shell_request : ShellRequest → Request
  network_request : NetworkRequest → Request

unfoldable pub evaluate : Engine → Request → Result Decision × Engine
evaluate e (file_request r) = evaluate_file e r
evaluate e (shell_request r) = evaluate_shell e r
evaluate e (network_request r) = evaluate_network e r

-- Evaluations one after another, of which only the state is kept.
unfoldable pub serve : Engine → List Request → Engine
unfolding evaluate
serve e [] = e
serve e (request ∷ requests) = serve (evaluate e request).1 requests

-- The answers that approve a key for the session.
abbrev pub approves_file : Text → Event → Bool
approves_file key (file_answer path mode session) = text_eq (file_approval_key path mode) key
approves_file key _ = false

abbrev pub approves_shell : Text → Event → Bool
approves_shell key (shell_answer command session) = text_eq command key
approves_shell key _ = false

abbrev pub approves_network : Text → Event → Bool
approves_network key (network_answer host port session) =
    text_eq (network_approval_key host port) key
approves_network key _ = false
