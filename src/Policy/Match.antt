-- ===== src/Policy/Match.antt =====
-- How a rule compares its target to a request's, internal/policy/policy.go.
pub mod Keys
pub mod Targets
use falken_core.Base.{
  List, [], ◌∷◌, ◌++◌, Bool, true, false, not, ◌&&◌, ◌||◌, ◌≡◌, refl, if◌then◌else◌, is_nil, any,
  leb, ltb,
}
use falken_core.Base.Int.{ℤ, pos, negsuc, int_eq, is_positive, pos_part}
use falken_core.Base.Text.{
  Text, codes, text_eq, has_prefix, has_suffix, trim_space, trim_right_char, to_lower, replace_char,
}
use falken_core.Base.Text.Decimal.{decimal}
use falken_core.Path.{clean, slash}
use falken_core.Policy.Rules.{
  MatchKind, exact, prefix, suffix, other, FileAccessMode, FileRule, ShellRule, NetworkRule,
}

unfoldable pub normalize_file_path : Text → Text
normalize_file_path path = if is_nil path then [] else clean path

-- The mode, a NUL and the path.
unfoldable pub file_approval_key : Text → FileAccessMode → Text
file_approval_key path mode = mode ++ (0 ∷ path)

unfoldable pub network_approval_key : Text → ℤ → Text
unfolding is_positive
network_approval_key host port =
    if not (is_positive port) then host else host ++ (0 ∷ decimal (pos_part port))

unfoldable pub normalize_file_match_path : Text → Text
normalize_file_match_path path =
    if is_nil path then [] else trim_right_char b'/' (replace_char b'\\' b'/' (clean path))

unfoldable pub file_prefix_match : Text → Text → Bool
file_prefix_match pattern target =
    if is_nil pattern
    then is_nil target
    else let trimmed = trim_right_char b'/' pattern in
      if is_nil trimmed
      then has_prefix target slash
      else text_eq target trimmed || has_prefix target (trimmed ++ slash)

unfoldable pub matches_file_path : Text → Text → MatchKind → Bool
unfolding normalize_file_match_path file_prefix_match
matches_file_path pattern target kind =
    let pattern' = normalize_file_match_path pattern in
    let target' = normalize_file_match_path target in
    elim kind [
      | prefix ↦ file_prefix_match pattern' target'
      | suffix ↦ has_suffix target' pattern'
      | _ ↦ text_eq target' pattern'
    ]

unfoldable pub matches_file_rule : List FileRule → Text → FileAccessMode → Bool
unfolding matches_file_path normalize_file_match_path
matches_file_rule rules path mode =
    any
      (λ (rule : FileRule).
        matches_file_path rule.path (normalize_file_match_path path) rule.match
        && (is_nil rule.modes || any (λ allowed_mode. text_eq allowed_mode mode) rule.modes))
      rules

unfoldable pub matches_string : Text → Text → MatchKind → Bool
matches_string pattern target prefix = has_prefix target pattern
matches_string pattern target suffix = has_suffix target pattern
matches_string pattern target _ = text_eq target pattern

unfoldable pub matches_shell_rule : List ShellRule → Text → Bool
unfolding matches_string
matches_shell_rule rules command =
    any (λ (rule : ShellRule). matches_string rule.command command rule.match) rules

is_exact : MatchKind → Bool
is_exact exact = true
is_exact _ = false

unfoldable pub matches_exact_shell_rule : List ShellRule → Text → Bool
unfolding is_exact
matches_exact_shell_rule rules command =
    any (λ (rule : ShellRule). is_exact rule.match && text_eq rule.command command) rules

unfoldable pub normalize_network_host : Text → Text
normalize_network_host host = trim_right_char b'.' (trim_space (to_lower host))

unfoldable pub host_kind_match : MatchKind → Text → Text → Bool
host_kind_match prefix pattern target = has_prefix target pattern
host_kind_match suffix pattern target =
    if has_prefix pattern (b'.' ∷ [])
    then has_suffix target pattern
    else text_eq target pattern || has_suffix target (b'.' ∷ pattern)
host_kind_match _ pattern target = text_eq target pattern

unfoldable pub matches_network_rule_host : Text → Text → MatchKind → Bool
unfolding normalize_network_host host_kind_match
matches_network_rule_host pattern target kind =
    let pattern' = normalize_network_host pattern in
    let target' = normalize_network_host target in
    if is_nil pattern' || is_nil target' then false else host_kind_match kind pattern' target'

-- allowedPort <= 0 || allowedPort > 65535
port_out_of_range : ℤ → Bool
unfolding is_positive
port_out_of_range p = not (is_positive p) || ltb 65535 (pos_part p)

unfoldable pub network_rule_port_matches : List ℤ → ℤ → Bool
unfolding port_out_of_range
network_rule_port_matches ports port =
    if is_nil ports
    then true
    else if int_eq port (pos 0)
    then false
    else any (λ allowed. not (port_out_of_range allowed) && int_eq allowed port) ports

unfoldable pub matches_network_rule : List NetworkRule → Text → ℤ → Bool
unfolding normalize_network_host matches_network_rule_host network_rule_port_matches
matches_network_rule rules host port =
    let host' = normalize_network_host host in
    if is_nil host'
    then false
    else any
        (λ (rule : NetworkRule).
          matches_network_rule_host rule.host host' rule.match
          && network_rule_port_matches rule.ports port)
        rules
