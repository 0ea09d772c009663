-- ===== src/Commands/Writes/Nested.antt =====
-- The commands that a call hands to a shell, and what a parsed command writes, with them:
-- internal/policy/commands/shellwrite.go.
use falken_core.Base.{
  ℕ, suc, List, [], ◌∷◌, ◌++◌, true, false, Option, some, ◌≡◌, ◌⊎◌, ◌↔◌, inl, inr, refl, ap, arith,
  All, Bool-cases, Option-cases, map, is_nil, ◌∙◌, sym,
}
use falken_core.Base.Text.{Text, codes, text_eq}
use falken_core.Base.Text.Laws.{text_eq_iff}
use falken_core.Base.Text.Split.{join}
use falken_core.Commands.Syntax.{
  WordParts, Node, stmt, call_expr, other_node, Parsed, parsed, static_call_args, command_base,
  shell_arg_has_c_flag, after_c_flag, nested_commands, nested_static_shell_commands,
}
use falken_core.Commands.Writes.{
  IsIn, any_sound, any_complete, Redirects, Redirects-sound, Redirects-complete,
}
use falken_core.Commands.Writes.TeeCalls.{WritesByTee, tee_sound, tee_complete}
use falken_core.Commands.Tee.{is_tee_write}
use falken_core.Commands.Detect.{detect}
use falken_core.Commands.Reasons.{node_writes, detect-found}

-- The command is the argument behind the first one that holds a c flag.
abbrev pub IsBehindFlag : List Text → Text → Type 0
IsBehindFlag args command =
    (before : List Text) × (flag : Text) × (after : List Text) × (args
      ≡ before ++ (flag ∷ (command ∷ after)))
    × All (λ a. shell_arg_has_c_flag a ≡ false) before
    × (shell_arg_has_c_flag flag ≡ true)

flag_sound :
    (args : List Text) (command : Text)
    → IsIn command (after_c_flag args)
    → IsBehindFlag args command
unfolding after_c_flag
flag_sound [] command m = absurd m
flag_sound (arg ∷ []) command m = absurd m
flag_sound (arg ∷ (next ∷ args)) command m = elim (Bool-cases (shell_arg_has_c_flag arg)) [
  | inl flag ↦ elim (rw flag at m) [
    | inl same ↦ ([], arg, args, ap (λ x. arg ∷ (x ∷ args)) same, tt, flag)
    | inr m' ↦ absurd m'
  ]
  | inr plain ↦
      let (before, flag, after, parts, all, is) =
        flag_sound (next ∷ args) command (rw plain at m) in
      (arg ∷ before, flag, after, ap (λ xs. arg ∷ xs) parts, (plain, all), is)
]

flag_complete :
    (before : List Text) (flag command : Text) (after : List Text)
    → All (λ a. shell_arg_has_c_flag a ≡ false) before
    → shell_arg_has_c_flag flag ≡ true
    → after_c_flag (before ++ (flag ∷ (command ∷ after))) ≡ command ∷ []
unfolding after_c_flag
flag_complete [] flag command after all is = rw is refl
flag_complete (a ∷ []) flag command after (plain, all) is = rw (plain, is) refl
flag_complete (a ∷ (b ∷ before)) flag command after (plain, all) is =
    rw plain (flag_complete (b ∷ before) flag command after all is)

-- What a shell, or `eval`, of that name makes of its arguments.
abbrev pub Runs : Text → List Text → Text → Type 0
Runs base args command =
    (((base ≡ codes "sh") ⊎ (base ≡ codes "bash")) × IsBehindFlag args command)
    ⊎ ((base ≡ codes "eval") × (is_nil args ≡ false) × (command ≡ join (codes " ") args))

eval_sound :
    (args : List Text) (command : Text)
    → IsIn command (elim args [ [] ↦ [] | arg ∷ rest ↦ join (codes " ") (arg ∷ rest) ∷ [] ])
    → (is_nil args ≡ false) × (command ≡ join (codes " ") args)
eval_sound [] command m = absurd m
eval_sound (arg ∷ args) command (inl same) = (refl, sym same)
eval_sound (arg ∷ args) command (inr m) = absurd m

Runs-sound :
    (name : Text) (args : List Text) (command : Text)
    → IsIn command (nested_commands (some (name ∷ args)))
    → Runs (command_base name) args command
unfolding nested_commands
Runs-sound name args command m = elim (Bool-cases (text_eq (command_base name) (codes "sh"))) [
  | inl sh ↦ inl (
    inl ((text_eq_iff (command_base name) (codes "sh")).0 sh),
    flag_sound args command (rw sh at m),
  )
  | inr a ↦ elim (Bool-cases (text_eq (command_base name) (codes "bash"))) [
    | inl bash ↦ inl (
      inr ((text_eq_iff (command_base name) (codes "bash")).0 bash),
      flag_sound args command (rw (a, bash) at m),
    )
    | inr b ↦ elim (Bool-cases (text_eq (command_base name) (codes "eval"))) [
      | inl evals ↦
          let (some_args, same) = eval_sound args command (rw (a, b, evals) at m) in
          inr ((text_eq_iff (command_base name) (codes "eval")).0 evals, some_args, same)
      | inr c ↦ absurd (rw (a, b, c) at m)
    ]
  ]
]

Runs-complete :
    (name : Text) (args : List Text) (command : Text)
    → Runs (command_base name) args command
    → IsIn command (nested_commands (some (name ∷ args)))
unfolding nested_commands text_eq
Runs-complete name args command (inl (inl base, (before, flag, after, parts, all, is))) =
    rw (base, parts, flag_complete before flag command after all is) (inl refl)
Runs-complete name args command (inl (inr base, (before, flag, after, parts, all, is))) =
    rw (base, parts, flag_complete before flag command after all is) (inl refl)
Runs-complete name [] command (inr (base, some_args, same)) = absurd (cc)
Runs-complete name (arg ∷ args) command (inr (base, some_args, same)) = rw base (inl (sym same))

-- The command that the words of a call, where they are static, hand to a shell.
abbrev pub Nests : List (Option WordParts) → Text → Type 0
Nests words command =
    (name : Text) × (args : List Text) × (static_call_args words ≡ some (name ∷ args))
    × Runs (command_base name) args command

Nests-sound :
    (words : List (Option WordParts)) (command : Text)
    → IsIn command (nested_static_shell_commands words)
    → Nests words command
unfolding nested_static_shell_commands nested_commands
Nests-sound words command m = elim (Option-cases (static_call_args words)) [
  | inl p ↦ absurd (rw p at m)
  | inr ([], p) ↦ absurd (rw p at m)
  | inr (name ∷ args, p) ↦ (name, args, p, Runs-sound name args command (rw p at m))
]

Nests-complete :
    (words : List (Option WordParts)) (command : Text)
    → Nests words command
    → IsIn command (nested_static_shell_commands words)
unfolding nested_static_shell_commands
Nests-complete words command (name, args, p, runs) = rw p (Runs-complete name args command runs)

module _ (parse : Text → Parsed) (print : Option WordParts → Text) (left : ℕ) where
  -- What a node writes: one of its redirections is to a file, it calls `tee` on a file, or it hands a shell
  -- a command that is itself found to write in the rounds that are left.
  abbrev pub NodeWrites : Node → Type 0
  NodeWrites (stmt redirs) = Redirects redirs
  NodeWrites (call_expr words) =
      WritesByTee (map print words)
      ⊎ ((command : Text) × Nests words command × ((detect parse print left command).found ≡ true))
  NodeWrites other_node = ⊥

  node_sound :
      (node : Node)
      → node_writes parse print (some (detect parse print left)) node ≡ true
      → NodeWrites node
  unfolding node_writes
  node_sound (stmt redirs) h = Redirects-sound redirs h
  node_sound (call_expr words) h = elim (Bool-cases (is_tee_write (map print words))) [
    | inl tee ↦ inl (tee_sound (map print words) tee)
    | inr other ↦
        let (command, m, k) =
          any_sound (λ command. (detect parse print left command).found)
            (nested_static_shell_commands words) (rw other at h) in
        inr (command, Nests-sound words command m, k)
  ]
  node_sound other_node h = absurd (cc)

  node_complete :
      (node : Node)
      → NodeWrites node
      → node_writes parse print (some (detect parse print left)) node ≡ true
  unfolding node_writes
  node_complete (stmt redirs) (op, m, w) = Redirects-complete redirs op m w
  node_complete (call_expr words) (inl tee) = rw (tee_complete (map print words) tee) refl
  node_complete (call_expr words) (inr (command, nests, k)) =
      let nested =
        any_complete (λ command. (detect parse print left command).found)
          (nested_static_shell_commands words) command (Nests-complete words command nests) k in
      ground arith
  node_complete other_node h = absurd h

  -- With a round of nesting left, a command that parses is reported to write a file exactly if one of its
  -- nodes has a redirection by an operator that writes, calls `tee`, by itself or behind `command`,
  -- `builtin` or `env`, with an argument that names a file, or is a call of static words that hands `sh`,
  -- `bash` or `eval` a command that is itself reported in the rounds that are left.
  pub detect_exact :
      (command : Text) (nodes : List Node)
      → parse command ≡ parsed nodes
      → ((detect parse print (suc left) command).found ≡ true)
        ↔ ((node : Node) × IsIn node nodes × NodeWrites node)
  detect_exact command nodes h =
      let writes = node_writes parse print (some (detect parse print left)) in
      let found = detect-found parse print left command nodes h in
      (
        λ k.
            let (node, m, w) = any_sound writes nodes (sym found ∙ k) in
            (node, m, node_sound node w),
        λ (node, m, w). found ∙ any_complete writes nodes node m (node_complete node w),
      )
