-- ===== src/Commands/Tee.antt =====
-- Calls of `tee` that write files, internal/policy/commands/types.go.
use falken_core.Base.{
  ℕ, ◌+◌, List, [], ◌∷◌, Bool, true, false, ◌||◌, Option, none, some, ◌≡◌, refl, if◌then◌else◌, ltb,
}
use falken_core.Base.Text.{Text, codes, text_eq, has_prefix, contains_char}
use falken_core.Commands.Syntax.{command_base}

unfoldable pub is_process_substitution : Text → Bool
unfolding has_prefix
is_process_substitution arg = has_prefix arg (codes ">(") || has_prefix arg (codes "<(")

unfoldable pub is_tee : Text → Bool
unfolding command_base text_eq
is_tee arg = text_eq (command_base arg) (codes "tee")

unfoldable pub tee_next : List Text → Option (List Text)
unfolding is_tee
tee_next [] = none
tee_next (arg ∷ args) = if is_tee arg then some (arg ∷ args) else none

-- The loop over the arguments of `command`, `builtin` and `env`, with the arguments that it skips.
unfoldable pub tee_after : (Text → Bool) → List Text → Option (List Text)
unfolding tee_next
tee_after skips [] = none
tee_after skips (arg ∷ args) =
    let rest = tee_after skips args in
    if text_eq arg (codes "--")
    then tee_next args
    else if skips arg
    then rest
    else tee_next (arg ∷ args)

abbrev pub is_flag : Text → Bool
is_flag arg = has_prefix arg (codes "-")

unfoldable pub tee_command_args : List Text → Option (List Text)
unfolding is_tee tee_after has_prefix contains_char
tee_command_args [] = none
tee_command_args (name ∷ args) =
    let base = command_base name in
    if text_eq base (codes "tee")
    then some (name ∷ args)
    else if text_eq base (codes "command") || text_eq base (codes "builtin")
    then tee_after is_flag args
    else if text_eq base (codes "env")
    then tee_after (λ arg. is_flag arg || contains_char b'=' arg) args
    else none

-- The arguments that name files; after `--` a dash begins a name too.
unfoldable pub non_flag_args : Bool → List Text → ℕ
unfolding is_process_substitution
non_flag_args stop [] = 0
non_flag_args stop (arg ∷ args) =
    let names = if is_process_substitution arg then 0 else 1 in
    let after = non_flag_args (stop || text_eq arg (codes "--")) args in
    if stop
    then names + after
    else if text_eq arg (codes "--") || is_flag arg
    then after
    else names + after

unfoldable pub is_tee_write : List Text → Bool
unfolding tee_command_args non_flag_args
is_tee_write args = elim (tee_command_args args) [
  | none ↦ false
  | some [] ↦ false
  | some (name ∷ rest) ↦ ltb 0 (non_flag_args false rest)
]

env_tee :
    is_tee_write (codes "env" ∷ codes "FOO=bar" ∷ codes "/usr/bin/tee" ∷ codes "out" ∷ []) ≡ true
unfolding is_tee_write
env_tee = refl

tee_substitution : is_tee_write (codes "tee" ∷ codes "-a" ∷ codes ">(grep err)" ∷ []) ≡ false
unfolding is_tee_write
tee_substitution = refl

tee_dash : is_tee_write (codes "tee" ∷ codes "--" ∷ codes "-a" ∷ []) ≡ true
unfolding is_tee_write
tee_dash = refl
