-- ===== src/Tests/RuntimeExamples.antt =====
-- The policy of internal/policy/runtime/runtime.go at one engine.
use falken_core.Path.{clean}
use falken_core.Commands.Detect.{has_shell_write_patterns}
use falken_core.Base.{[], true, false, not, ◌&&◌, Option, ◌≡◌, refl}
use falken_core.Base.Text.{
  replace_char, trim_right_char, Text, codes, trim_space, has_prefix, has_key,
}
use falken_core.Commands.Syntax.{Parsed, parse_failed, WordParts}
use falken_core.Policy.Rules.{once, shell, approval_granted_once, file}
use falken_core.Policy.Engine.{
  apply_file_approval, evaluate_file, apply_shell_approval, with_scope, evaluate_shell,
}
use falken_core.Policy.History.{shell_request, evaluate}
use falken_core.Policy.Permits.{shell_permits, file_permits}
use falken_core.Policy.Match.{
  normalize_file_path, matches_file_rule, matches_shell_rule, matches_exact_shell_rule,
}
use falken_core.Policy.Runtime.{
  RuntimeShellRequest, ShellResult, AccessResult, shell_engine_request, shell_result, access_result,
  runtime_evaluate_shell, runtime_evaluate_file,
}
use falken_core.Policy.Runtime.Coherent.{IsCoherent, evaluate-IsCoherent}
use falken_core.Policy.Runtime.Permits.{
  asked_of_engine, file_status, status_agrees, writes_files, outcome_of,
  runtime_evaluate_shell_exact, runtime_evaluate_file_exact,
}
use falken_core.Tests.PermitExamples.{engine, push_request, outside}

evaluate-IsCoherent_example : IsCoherent shell (with_scope shell true approval_granted_once once)
unfolding has_prefix apply_shell_approval
evaluate-IsCoherent_example =
    evaluate-IsCoherent (engine once) (shell_request push_request)
      (with_scope shell true approval_granted_once once)
      (unfold evaluate evaluate_shell matches_shell_rule matches_exact_shell_rule trim_space
          has_key in
        refl)

abbrev parse : Text → Parsed
parse command = parse_failed (codes "not read")

abbrev print : Option WordParts → Text
print word = []

abbrev push : RuntimeShellRequest
push = record { command = codes " git push "; approval_required = false }

abbrev pushed : ShellResult
pushed = shell_result (with_scope shell true approval_granted_once once)

runtime_evaluate_shell_exact_example :
    (pushed.allowed ≡ (
      not (writes_files parse print push)
      && shell_permits (engine once) (shell_engine_request push)))
    × (pushed.outcome ≡ outcome_of parse print (writes_files parse print push) pushed.allowed)
    × (status_agrees pushed.approval_status pushed.allowed ≡ true)
    × (writes_files parse print push ≡ true
        → (runtime_evaluate_shell parse print (engine once) push).1 ≡ engine once)
unfolding has_shell_write_patterns evaluate_shell matches_shell_rule has_prefix trim_space has_key
    matches_exact_shell_rule apply_shell_approval
runtime_evaluate_shell_exact_example =
    runtime_evaluate_shell_exact parse print (engine once) push pushed
      (unfold runtime_evaluate_shell in refl)

abbrev asked : AccessResult
asked = access_result (codes "file access") (with_scope file true approval_granted_once once)

runtime_evaluate_file_exact_example :
    (asked.allowed ≡ file_permits (engine once) (asked_of_engine outside))
    × (asked.approval_status ≡ file_status (engine once) (asked_of_engine outside))
unfolding evaluate_file matches_file_rule trim_right_char replace_char clean normalize_file_path
    has_key apply_file_approval
runtime_evaluate_file_exact_example =
    runtime_evaluate_file_exact (engine once) outside asked (unfold runtime_evaluate_file in refl)
