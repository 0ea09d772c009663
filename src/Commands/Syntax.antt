-- ===== src/Commands/Syntax.antt =====
-- What internal/policy/commands reads of a parsed shell command, and the static text of its words.
-- The parser, its walk and its printer belong to the package mvdan.cc/sh: they are the parameters
-- `parse` and `print` of the definitions that use them.
use falken_core.Base.{
  ℕ, List, [], ◌∷◌, ◌++◌, Bool, true, false, not, ◌||◌, Option, none, some, if◌then◌else◌, ◌==◌,
}
use falken_core.Base.Text.{Text, codes, text_eq, has_prefix, trim_space, contains_char}
use falken_core.Base.Text.Split.{join}

-- The parts of a word, in a list of their own.
mutual
  pub data WordPart : Type 0 where
    lit : Text → WordPart
    sgl_quoted : Text → WordPart
    dbl_quoted : WordParts → WordPart
    other_part : WordPart

  pub data WordParts : Type 0 where
    end : WordParts
    part : WordPart → WordParts → WordParts

-- The operators of a redirection; `other_op` stands for those that write no file.
pub data RedirOp : Type 0 where
  rdr_out app_out rdr_in_out rdr_clob app_clob rdr_all rdr_all_clob app_all app_all_clob : RedirOp
  other_op : RedirOp

-- A nil word has no parts to read.
pub data Node : Type 0 where
  stmt : List (Option RedirOp) → Node
  call_expr : List (Option WordParts) → Node
  other_node : Node

-- The nodes of a parsed command in the order of the walk, or the parser's error.
pub data Parsed : Type 0 where
  parsed : List Node → Parsed
  parse_failed : Text → Parsed

unfoldable pub writes : RedirOp → Bool
writes other_op = false
writes _ = true

unfoldable pub has_shell_write_redirect : List (Option RedirOp) → Bool
unfolding writes
has_shell_write_redirect [] = false
has_shell_write_redirect (none ∷ redirs) = has_shell_write_redirect redirs
has_shell_write_redirect (some op ∷ redirs) = writes op || has_shell_write_redirect redirs

append_text : Option Text → Option Text → Option Text
append_text none rest = none
append_text (some s) none = none
append_text (some s) (some t) = some (s ++ t)

unfoldable mutual
  unfolding append_text

  pub static_word_part : WordPart → Option Text
  static_word_part (lit value) = some value
  static_word_part (sgl_quoted value) = some value
  static_word_part (dbl_quoted parts) = static_word_parts parts
  static_word_part other_part = none

  pub static_word_parts : WordParts → Option Text
  static_word_parts end = some []
  static_word_parts (part p parts) = append_text (static_word_part p) (static_word_parts parts)

unfoldable pub static_word_string : Option WordParts → Option Text
unfolding static_word_parts static_word_part
static_word_string none = some []
static_word_string (some parts) = static_word_parts parts

cons_text : Option Text → Option (List Text) → Option (List Text)
cons_text none rest = none
cons_text (some s) none = none
cons_text (some s) (some ts) = some (s ∷ ts)

unfoldable pub static_call_args : List (Option WordParts) → Option (List Text)
unfolding static_word_string cons_text
static_call_args [] = some []
static_call_args (word ∷ words) = cons_text (static_word_string word) (static_call_args words)

-- What stands after the last separator, or the whole text.
after_last : ℕ → Text → Text → Text
after_last sep cur [] = cur
after_last sep cur (c ∷ s) = after_last sep (if c == sep then s else cur) s

unfoldable pub command_base : Text → Text
unfolding after_last trim_space
command_base command = let trimmed = trim_space command in after_last b'/' trimmed trimmed

abbrev tail_text : Text → Text
tail_text [] = []
tail_text (c ∷ s) = s

unfoldable pub shell_arg_has_c_flag : Text → Bool
unfolding text_eq has_prefix contains_char
shell_arg_has_c_flag arg =
    if text_eq arg (codes "-c")
    then true
    else if not (has_prefix arg (codes "-")) || has_prefix arg (codes "--")
    then false
    else contains_char b'c' (tail_text arg)

-- The argument after the first one that holds a c flag.
unfoldable pub after_c_flag : List Text → List Text
unfolding shell_arg_has_c_flag
after_c_flag [] = []
after_c_flag (arg ∷ []) = []
after_c_flag (arg ∷ (next ∷ args)) =
    let rest = after_c_flag (next ∷ args) in if shell_arg_has_c_flag arg then next ∷ [] else rest

unfoldable pub nested_commands : Option (List Text) → List Text
unfolding command_base after_c_flag text_eq join
nested_commands none = []
nested_commands (some []) = []
nested_commands (some (name ∷ args)) =
    let base = command_base name in
    if text_eq base (codes "sh") || text_eq base (codes "bash")
    then after_c_flag args
    else if text_eq base (codes "eval")
    then elim args [ [] ↦ [] | arg ∷ rest ↦ join (codes " ") (arg ∷ rest) ∷ [] ]
    else []

unfoldable pub nested_static_shell_commands : List (Option WordParts) → List Text
unfolding nested_commands static_call_args
nested_static_shell_commands words = nested_commands (static_call_args words)
