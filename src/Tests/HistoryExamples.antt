-- ===== src/Tests/HistoryExamples.antt =====
-- Histories of the engine of internal/policy/policy.go at concrete events.
use falken_core.Path.{clean}
use falken_core.Base.{arith, List, [], ◌∷◌, true, false, none, some, ◌≡◌, refl, any}
use falken_core.Base.Int.{pos}
use falken_core.Base.Text.{replace_char, trim_right_char, codes, has_key}
use falken_core.Policy.Rules.{
  session, project, file, file_access_read, file_access_write, blocked_rule, FileRequest,
  ShellRequest, NetworkRequest, ok, once, project_approval,
}
use falken_core.Policy.Match.{normalize_file_path, matches_file_rule}
use falken_core.Policy.Engine.{
  without_scope, with_scope, apply_file_approval, new_engine, evaluate_file,
}
use falken_core.Policy.History.{
  Request, Event, file_answer, shell_answer, network_answer, approvals_replaced, persister_set, run,
  serve, file_request, shell_request, approves_file, approves_shell, approves_network,
}
use falken_core.Policy.History.Blocked.{blocked_file}
use falken_core.Policy.History.Approvals.{session_approvals_exact}
use falken_core.Policy.History.Refines.{history_of, serve_refines}
use falken_core.Policy.Project.{project_file}
use falken_core.Tests.PermitExamples.{rules, answering, engine, push_request, outside}

-- Approvals of things that the rules block, of a file, a command and a host that they do not, and
-- the project's approvals taken away.
abbrev events : List Event
events =
    file_answer (codes "/work/.git/config") file_access_write session
    ∷ shell_answer (codes "rm -r x") session
    ∷ network_answer (codes "a.evil.com") (pos 80) project
    ∷ file_answer (codes "/etc/hosts") file_access_read session
    ∷ shell_answer (codes "git push") session
    ∷ network_answer (codes "go.dev") (pos 80) session
    ∷ approvals_replaced [] [] []
    ∷ persister_set none
    ∷ []

abbrev git_config : FileRequest
git_config = record {
  path = codes "/work//.git/config";
  mode = file_access_write;
  approval_required = false;
}

abbrev remove : ShellRequest
remove = record { command = codes "rm -r x"; approval_required = true; force_approval = true }

abbrev evil : NetworkRequest
evil = record {
  host = codes "A.evil.com";
  port = pos 80;
  method = [];
  target = [];
  approval_required = true;
}

abbrev plain_site : NetworkRequest
plain_site = record {
  host = codes "GO.dev";
  port = pos 80;
  method = [];
  target = [];
  approval_required = true;
}

blocked_file_example :
    evaluate_file (run (engine once) events) git_config
    ≡ (ok (without_scope file false blocked_rule), run (engine once) events)
unfolding trim_right_char replace_char clean
blocked_file_example =
    blocked_file (engine once) events git_config
      (unfold matches_file_rule normalize_file_path in refl)

abbrev two_requests : List Request
two_requests = shell_request push_request ∷ file_request outside ∷ []

serve_refines_example :
    serve (engine session) two_requests
    ≡ run (engine session) (history_of (engine session) two_requests)
serve_refines_example = serve_refines (engine session) two_requests

project_file_example :
    (evaluate_file
      (apply_file_approval
        (engine project)
        (normalize_file_path outside.path)
        outside.mode
        project).1
      outside).0
    ≡ ok (with_scope file true project_approval project)
unfolding matches_file_rule normalize_file_path clean has_key trim_right_char replace_char
project_file_example = project_file (engine project) outside refl refl (ground arith)

session_approvals_exact_example :
    (has_key
        (codes "git push")
        (run (new_engine rules (some (answering once))) events).approvals.files
      ≡ any (approves_file (codes "git push")) events)
    × (has_key
          (codes "git push")
          (run (new_engine rules (some (answering once))) events).approvals.shell
        ≡ any (approves_shell (codes "git push")) events)
    × (has_key
          (codes "git push")
          (run (new_engine rules (some (answering once))) events).approvals.network
        ≡ any (approves_network (codes "git push")) events)
session_approvals_exact_example =
    session_approvals_exact (codes "git push") rules (some (answering once)) events
