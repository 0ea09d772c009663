-- ===== src/Tests/PermitExamples.antt =====
-- Decisions of internal/policy/policy.go at one engine.
use falken_core.Path.{clean}
use falken_core.Base.{[], ◌∷◌, true, false, some, ◌≡◌, refl}
use falken_core.Base.Int.{pos}
use falken_core.Base.Text.{
  has_suffix, to_lower, replace_char, trim_right_char, has_prefix, codes, trim_space, has_key,
}
use falken_core.Policy.Rules.{
  ApprovalScope, once, project, deny, exact, prefix, suffix, file, shell, network, file_access_read,
  approval_denied, approval_granted_once, allowed_rule, project_approval, file_access_write,
  FileRequest, ShellRequest, NetworkRequest, ok, err, persist_approval, answered, ApprovalHandler,
  Engine, Config,
}
use falken_core.Policy.Match.{
  normalize_file_path, matches_file_rule, matches_shell_rule, matches_exact_shell_rule,
  matches_network_rule,
}
use falken_core.Policy.Engine.{
  apply_file_approval, with_scope, without_scope, evaluate_file, evaluate_shell, evaluate_network,
  apply_shell_approval, shell_verdict,
}
use falken_core.Policy.History.{file_request, evaluate}
use falken_core.Policy.Permits.{
  shell_permits, file_permits, network_permits, shell_answer, evaluate_shell-permits,
  evaluate_file-permits, evaluate_network-permits,
}
use falken_core.Policy.Failures.{refuses, refused_unchanged, unpersisted_command}

abbrev pub rules : Config
rules = record {
  blocked_files =
      record { path = codes "/work/.git"; match = prefix; modes = file_access_write ∷ [] } ∷ [];
  allowed_files = record { path = codes "/work"; match = prefix; modes = [] } ∷ [];
  project_approved_files = [];
  blocked_shell = record { command = codes "rm"; match = prefix } ∷ [];
  approval_required_shell = record { command = codes "git push"; match = prefix } ∷ [];
  allowed_shell = record { command = codes "ls"; match = exact } ∷ [];
  project_approved_shell = record { command = codes "git"; match = prefix } ∷ [];
  blocked_network = record { host = codes "evil.com"; match = suffix; ports = [] } ∷ [];
  allowed_network = record { host = codes "go.dev"; match = exact; ports = pos 443 ∷ [] } ∷ [];
  project_approved_net = [];
  strict_file_allowlist = false;
  strict_command_allowlist = true;
  strict_network_allowlist = true;
}

abbrev pub answering : ApprovalScope → ApprovalHandler
answering scope = record {
  approve_file = λ request. answered scope;
  approve_shell = λ request. answered scope;
  approve_network = λ request. answered scope;
}

abbrev pub engine : ApprovalScope → Engine
engine scope = record {
  config = rules;
  handler = some (answering scope);
  project_approval_persister = some (λ config. some (codes "disk full"));
  approvals = record { files = []; shell = []; network = [] };
}

abbrev pub push_request : ShellRequest
push_request = record {
  command = codes " git push ";
  approval_required = false;
  force_approval = false;
}

abbrev pub outside : FileRequest
outside = record {
  path = codes "/work/../etc/hosts";
  mode = file_access_read;
  approval_required = true;
}

abbrev pub site : NetworkRequest
site = record {
  host = codes "Go.dev.";
  port = pos 443;
  method = codes "GET";
  target = [];
  approval_required = true;
}

evaluate_shell-permits_example : true ≡ shell_permits (engine once) push_request
unfolding has_prefix apply_shell_approval
evaluate_shell-permits_example =
    evaluate_shell-permits (engine once) push_request
      (with_scope shell true approval_granted_once once)
      (unfold evaluate_shell matches_shell_rule matches_exact_shell_rule trim_space has_key in refl)

evaluate_file-permits_example : false ≡ file_permits (engine deny) outside
unfolding trim_right_char replace_char clean apply_file_approval
evaluate_file-permits_example =
    evaluate_file-permits (engine deny) outside (with_scope file false approval_denied deny)
      (unfold evaluate_file matches_file_rule normalize_file_path has_key in refl)

evaluate_network-permits_example : true ≡ network_permits (engine deny) site
unfolding trim_right_char trim_space to_lower has_prefix has_suffix
evaluate_network-permits_example =
    evaluate_network-permits (engine deny) site (without_scope network true allowed_rule)
      (unfold evaluate_network matches_network_rule has_key in refl)

refused_unchanged_example : (evaluate (engine deny) (file_request outside)).1 ≡ engine deny
unfolding refuses trim_right_char replace_char clean apply_file_approval
refused_unchanged_example =
    refused_unchanged (engine deny) (file_request outside)
      (unfold evaluate evaluate_file matches_file_rule normalize_file_path has_key in refl)

unpersisted_command_example :
    ((evaluate_shell (engine project) push_request).0
      ≡ err (persist_approval shell (codes "disk full")))
    × ((evaluate_shell (evaluate_shell (engine project) push_request).1 push_request).0
        ≡ ok (with_scope shell true project_approval project))
unfolding has_prefix
unpersisted_command_example =
    unpersisted_command (engine project) push_request (λ config. some (codes "disk full"))
      (codes "disk full")
      (unfold shell_verdict matches_shell_rule matches_exact_shell_rule trim_space has_key in refl)
      (unfold shell_answer in refl) refl refl
