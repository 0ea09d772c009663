-- ===== src/Tests/CommandExamples.antt =====
-- The detection of internal/policy/commands with a parser of two commands.
use falken_core.Commands.Tee.{is_tee_write}
use falken_core.Base.{◌↔◌, List, [], ◌∷◌, true, Option, none, some, ◌≡◌, refl, if◌then◌else◌}
use falken_core.Base.Text.{Text, codes, text_eq}
use falken_core.Commands.Syntax.{
  has_shell_write_redirect, nested_static_shell_commands, WordParts, end, part, lit, dbl_quoted,
  Node, stmt, call_expr, rdr_out, Parsed, parsed, parse_failed,
}
use falken_core.Commands.Detect.{detect, has_shell_write_patterns}
use falken_core.Commands.Reasons.{IsExplained, detect-IsExplained}
use falken_core.Commands.Writes.{IsIn}
use falken_core.Commands.Writes.Nested.{NodeWrites, detect_exact}

abbrev words : List (Option WordParts)
words =
    some (part (lit (codes "eval")) end)
    ∷ some (part (dbl_quoted (part (lit (codes "a > b")) end)) end)
    ∷ []

abbrev nodes : List Node
nodes = stmt [] ∷ call_expr words ∷ []

unfoldable parse : Text → Parsed
parse command =
    if text_eq command (codes "eval \"a > b\"")
    then parsed nodes
    else if text_eq command (codes "a > b")
    then parsed (stmt (some rdr_out ∷ []) ∷ [])
    else parse_failed (codes "reached EOF")

abbrev print : Option WordParts → Text
print none = []
print (some end) = []
print (some (part p rest)) = codes "word"

-- The nested command is found, at the depth of one round.
nested_write : (has_shell_write_patterns parse print (codes "eval \"a > b\"")).found ≡ true
unfolding has_shell_write_patterns parse text_eq nested_static_shell_commands is_tee_write
    has_shell_write_redirect
nested_write = refl

detect-IsExplained_example : IsExplained (detect parse print 4 (codes "eval \"a > b\""))
detect-IsExplained_example = detect-IsExplained parse print 4 (codes "eval \"a > b\"")

detect_exact_example :
    ((detect parse print 4 (codes "eval \"a > b\"")).found ≡ true)
    ↔ ((node : Node) × IsIn node nodes × NodeWrites parse print 3 node)
unfolding parse text_eq
detect_exact_example = detect_exact parse print 3 (codes "eval \"a > b\"") nodes refl
