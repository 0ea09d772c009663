-- ===== src/Commands/Detect.antt =====
-- HasShellWritePatterns of internal/policy/commands/shellwrite.go.
use falken_core.Base.{
  ℕ, zero, suc, List, [], ◌∷◌, ◌++◌, Bool, true, false, ◌||◌, Option, none, some, if◌then◌else◌,
  map,
}
use falken_core.Base.Text.{Text}
use falken_core.Commands.Syntax.{
  WordParts, Node, stmt, call_expr, other_node, Parsed, parsed, parse_failed,
  has_shell_write_redirect, nested_static_shell_commands,
}
use falken_core.Commands.Tee.{is_tee_write}

pub data ReasonCode : Type 0 where
  parse_error shell_write_redirection shell_write_tee : ReasonCode

-- The detail of a reason, by what its message is made of.
pub data Detail : Type 0 where
  parser_message : Text → Detail
  writes_to_file : Detail
  writes_by_tee : Text → Detail
  nested : Detail → Detail

pub record Reason : Type 0 where
  pub code : ReasonCode
  pub detail : Detail

pub record Detection : Type 0 where
  pub found : Bool
  pub reasons : List Reason
  pub first_err : Option Text

abbrev pub max_shell_write_pattern_depth : ℕ
max_shell_write_pattern_depth = 4

abbrev pub nothing : Detection
nothing = record { found = false; reasons = []; first_err = none }

abbrev first_text : List Text → Text
first_text [] = []
first_text (arg ∷ args) = arg

abbrev pub add_reason : Detection → ReasonCode → Detail → Detection
add_reason d code detail = record {
  found = true;
  reasons = d.reasons ++ (record { code = code; detail = detail } ∷ []);
  first_err = d.first_err;
}

abbrev pub keep_first : Option Text → Option Text → Option Text
keep_first none later = later
keep_first (some message) later = some message

abbrev pub as_nested : Reason → Reason
as_nested reason = record { code = reason.code; detail = nested reason.detail }

-- What a nested command adds.
unfoldable pub add_nested : Detection → Detection → Detection
add_nested d inner = record {
  found = d.found || inner.found;
  reasons = d.reasons ++ map as_nested inner.reasons;
  first_err = keep_first d.first_err inner.first_err;
}

-- The package mvdan.cc/sh: its parser with the walk of the parsed file, and its printer of words.
module _ (parse : Text → Parsed) (print : Option WordParts → Text) where
  -- The nested commands of a call, where the depth allows another round.
  unfoldable pub add_all : Option (Text → Detection) → Detection → List Text → Detection
  unfolding add_nested
  add_all none d commands = d
  add_all (some inner) d [] = d
  add_all (some inner) d (command ∷ commands) =
      add_all (some inner) (add_nested d (inner command)) commands

  unfoldable pub visit : Option (Text → Detection) → Detection → Node → Detection
  unfolding add_all
  visit deeper d (stmt redirs) =
      if has_shell_write_redirect redirs
      then add_reason d shell_write_redirection writes_to_file
      else d
  visit deeper d (call_expr words) =
      let args = map print words in
      let d' =
        if is_tee_write args
        then add_reason d shell_write_tee (writes_by_tee (first_text args))
        else d in
      add_all deeper d' (nested_static_shell_commands words)
  visit deeper d other_node = d

  unfoldable pub walk : Option (Text → Detection) → Detection → List Node → Detection
  unfolding visit
  walk deeper d [] = d
  walk deeper d (node ∷ nodes) = walk deeper (visit deeper d node) nodes

  unfoldable pub detect_in : Option (Text → Detection) → Parsed → Detection
  unfolding walk
  detect_in deeper (parse_failed message) = record {
    found = false;
    reasons = record { code = parse_error; detail = parser_message message } ∷ [];
    first_err = some message;
  }
  detect_in deeper (parsed nodes) = walk deeper nothing nodes

  -- The number is how many rounds of nesting are left, the bound less the depth.
  unfoldable pub detect : ℕ → Text → Detection
  unfolding detect_in
  detect zero command = detect_in none (parse command)
  detect (suc left) command = detect_in (some (detect left)) (parse command)

  unfoldable pub has_shell_write_patterns : Text → Detection
  unfolding detect
  has_shell_write_patterns = detect max_shell_write_pattern_depth
