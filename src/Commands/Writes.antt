-- ===== src/Commands/Writes.antt =====
-- What it is that a command writes, internal/policy/commands, without the program's tests for it.
pub mod Nested
pub mod TeeCalls
use falken_core.Base.{
  ℕ, suc, ◌<◌, List, [], ◌∷◌, ◌++◌, Bool, true, false, not, ◌||◌, Option, none, some, ◌≡◌, ◌≢◌, ◌⊎◌,
  ◌↔◌, inl, inr, refl, ap, arith, any, All, Bool-cases, Option-cases, if◌then◌else◌, map,
}
use falken_core.Base.Text.{Text, codes, text_eq, contains_char}
use falken_core.Base.Text.Laws.{text_eq_iff, text_eq_refl}
use falken_core.Base.Text.Split.{join}
use falken_core.Commands.Syntax.{
  WordParts, RedirOp, other_op, Node, stmt, call_expr, other_node, Parsed, parsed, writes,
  has_shell_write_redirect, static_call_args, command_base, shell_arg_has_c_flag, after_c_flag,
  nested_commands, nested_static_shell_commands,
}
use falken_core.Commands.Tee.{
  is_process_substitution, is_tee, tee_next, tee_after, tee_command_args, is_flag, non_flag_args,
  is_tee_write,
}

abbrev pub IsIn : {A : Type 0} → A → List A → Type 0
IsIn x [] = ⊥
IsIn x (y ∷ ys) = (y ≡ x) ⊎ IsIn x ys

pub any_sound :
    {A : Type 0} (p : A → Bool) (xs : List A) → any p xs ≡ true → (x : A) × IsIn x xs × (p x ≡ true)
any_sound p [] h = absurd (cc)
any_sound p (x ∷ xs) h = elim (Bool-cases (p x)) [
  | inl here ↦ (x, inl refl, here)
  | inr there ↦ let (y, m, k) = any_sound p xs (ground arith) in (y, inr m, k)
]

pub any_complete :
    {A : Type 0} (p : A → Bool) (xs : List A) (x : A) → IsIn x xs → p x ≡ true → any p xs ≡ true
any_complete p [] x m k = absurd m
any_complete p (y ∷ xs) x (inl same) k = ground arith
any_complete p (y ∷ xs) x (inr m) k = ground (arith, any_complete p xs x m k)

-- One of the redirections writes.
abbrev pub Redirects : List (Option RedirOp) → Type 0
Redirects redirs = (op : RedirOp) × IsIn (some op) redirs × (op ≢ other_op)

writes_iff : (op : RedirOp) → (writes op ≡ true) ↔ (op ≢ other_op)
unfolding writes
writes_iff op = ground arith

Redirects-sound :
    (redirs : List (Option RedirOp)) → has_shell_write_redirect redirs ≡ true → Redirects redirs
unfolding has_shell_write_redirect
Redirects-sound [] h = absurd (cc)
Redirects-sound (none ∷ redirs) h = let (op, m, w) = Redirects-sound redirs h in (op, inr m, w)
Redirects-sound (some op ∷ redirs) h = elim (Bool-cases (writes op)) [
  | inl here ↦ (op, inl refl, (writes_iff op).0 here)
  | inr there ↦ let (op', m, w) = Redirects-sound redirs (ground arith) in (op', inr m, w)
]

Redirects-complete :
    (redirs : List (Option RedirOp)) (op : RedirOp)
    → IsIn (some op) redirs
    → op ≢ other_op
    → has_shell_write_redirect redirs ≡ true
unfolding has_shell_write_redirect
Redirects-complete [] op m w = absurd m
Redirects-complete (none ∷ redirs) op (inl same) w = absurd (cc)
Redirects-complete (none ∷ redirs) op (inr m) w = Redirects-complete redirs op m w
Redirects-complete (some op' ∷ redirs) op (inl same) w = ground (arith, writes_iff op)
Redirects-complete (some op' ∷ redirs) op (inr m) w =
    ground (arith, Redirects-complete redirs op m w)
