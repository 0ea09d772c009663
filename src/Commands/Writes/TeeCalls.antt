-- ===== src/Commands/Writes/TeeCalls.antt =====
-- The calls of `tee` that write a file, internal/policy/commands/types.go.
use falken_core.Base.{
  ◌<◌, List, [], ◌∷◌, ◌++◌, Bool, true, false, ◌||◌, some, ◌≡◌, ◌⊎◌, ◌↔◌, inl, inr, refl, ap, arith,
  All, Bool-cases, Option-cases,
}
use falken_core.Base.Text.{Text, codes, text_eq, contains_char}
use falken_core.Base.Text.Laws.{text_eq_iff, text_eq_refl}
use falken_core.Commands.Syntax.{command_base}
use falken_core.Commands.Tee.{
  is_process_substitution, is_tee, tee_next, tee_after, tee_command_args, is_flag, non_flag_args,
  is_tee_write,
}
use falken_core.Commands.Writes.{IsIn}

abbrev dashes : Text
dashes = codes "--"

-- One of the arguments names a file: no process substitution, and no flag where no `--` stands before it.
abbrev pub NamesFile : Bool → List Text → Type 0
NamesFile stop args =
    (before : List Text) × (file : Text) × (after : List Text) × (args ≡ before ++ (file ∷ after))
    × (is_process_substitution file ≡ false)
    × ((stop ≡ true)
        ⊎ (IsIn dashes before ⊎ ((text_eq file dashes ≡ false) × (is_flag file ≡ false))))

behind :
    {X : Type 0} (arg : Text) (before : List Text)
    → (false ≡ true) ⊎ (IsIn dashes before ⊎ X)
    → (false ≡ true) ⊎ (IsIn dashes (arg ∷ before) ⊎ X)
behind arg before (inl h) = absurd (cc)
behind arg before (inr (inl m)) = inr (inl (inr m))
behind arg before (inr (inr x)) = inr (inr x)

names_sound : (stop : Bool) (args : List Text) → 0 < non_flag_args stop args → NamesFile stop args
unfolding non_flag_args
names_sound stop [] h = absurd (ground arith)
names_sound true (arg ∷ args) h = elim (Bool-cases (is_process_substitution arg)) [
  | inr name ↦ ([], arg, args, refl, name, inl refl)
  | inl other ↦
      let (before, file, after, parts, name, free) = names_sound true args (ground arith) in
      (arg ∷ before, file, after, ap (λ xs. arg ∷ xs) parts, name, inl refl)
]
names_sound false (arg ∷ args) h = elim (Bool-cases (text_eq arg dashes)) [
  | inl stops ↦
      let (before, file, after, parts, name, free) = names_sound true args (ground arith) in
      (
        arg ∷ before,
        file,
        after,
        ap (λ xs. arg ∷ xs) parts,
        name,
        inr (inl (inl ((text_eq_iff arg dashes).0 stops))),
      )
  | inr goes ↦ elim (Bool-cases (is_flag arg || is_process_substitution arg)) [
    | inr name ↦ ([], arg, args, refl, ground arith, inr (inr (goes, ground arith)))
    | inl skipped ↦
        let (before, file, after, parts, name, free) = names_sound false args (ground arith) in
        (arg ∷ before, file, after, ap (λ xs. arg ∷ xs) parts, name, behind arg before free)
  ]
]

ahead :
    {X : Type 0} (stop : Bool) (arg : Text) (before : List Text)
    → (stop ≡ true) ⊎ (IsIn dashes (arg ∷ before) ⊎ X)
    → ((stop || text_eq arg dashes) ≡ true) ⊎ (IsIn dashes before ⊎ X)
ahead stop arg before (inl h) = inl (ground arith)
ahead stop arg before (inr (inl (inl same))) = inl (ground (arith, text_eq_iff arg dashes))
ahead stop arg before (inr (inl (inr m))) = inr (inl m)
ahead stop arg before (inr (inr x)) = inr (inr x)

names_complete :
    (stop : Bool) (before : List Text) (file : Text) (after : List Text)
    → is_process_substitution file ≡ false
    → (stop ≡ true)
      ⊎ (IsIn dashes before ⊎ ((text_eq file dashes ≡ false) × (is_flag file ≡ false)))
    → 0 < non_flag_args stop (before ++ (file ∷ after))
unfolding non_flag_args
names_complete stop [] file after name (inl h) = ground arith
names_complete stop [] file after name (inr (inl m)) = absurd m
names_complete stop [] file after name (inr (inr free)) = ground arith
names_complete stop (arg ∷ before) file after name free =
    let ih =
      names_complete (stop || text_eq arg dashes) before file after name
        (ahead stop arg before free) in
    ground arith

-- A call of `tee` with its arguments, behind arguments that are skipped, or behind the `--` after them.
abbrev pub TeeBehind : (Text → Bool) → List Text → List Text → Type 0
TeeBehind skips args call =
    (skipped : List Text) × (tee : Text) × (rest : List Text) × (call ≡ tee ∷ rest)
    × All (λ a. (text_eq a dashes ≡ false) × (skips a ≡ true)) skipped
    × (is_tee tee ≡ true)
    × (((args ≡ skipped ++ (tee ∷ rest)) × (text_eq tee dashes ≡ false) × (skips tee ≡ false))
        ⊎ (args ≡ skipped ++ (dashes ∷ (tee ∷ rest))))

next_sound :
    (args call : List Text)
    → tee_next args ≡ some call
    → (tee : Text) × (rest : List Text) × (args ≡ tee ∷ rest)
      × (call ≡ tee ∷ rest)
      × (is_tee tee ≡ true)
unfolding tee_next
next_sound [] call h = absurd (cc)
next_sound (arg ∷ args) call h = (arg, args, refl, ground arith, ground arith)

skip_more :
    (skips : Text → Bool) (arg : Text) (args call : List Text)
    → text_eq arg dashes ≡ false
    → skips arg ≡ true
    → TeeBehind skips args call
    → TeeBehind skips (arg ∷ args) call
skip_more skips arg args call goes skip
      (skipped, tee, rest, same, all, is, inl (parts, free, stay)) =
    (
      arg ∷ skipped,
      tee,
      rest,
      same,
      ((goes, skip), all),
      is,
      inl (ap (λ xs. arg ∷ xs) parts, free, stay),
    )
skip_more skips arg args call goes skip (skipped, tee, rest, same, all, is, inr parts) =
    (arg ∷ skipped, tee, rest, same, ((goes, skip), all), is, inr (ap (λ xs. arg ∷ xs) parts))

behind_sound :
    (skips : Text → Bool) (args call : List Text)
    → tee_after skips args ≡ some call
    → TeeBehind skips args call
unfolding tee_after
behind_sound skips [] call h = absurd (cc)
behind_sound skips (arg ∷ args) call h = elim (Bool-cases (text_eq arg dashes)) [
  | inl stops ↦
      let (tee, rest, parts, same, is) = next_sound args call (ground arith) in
      ([], tee, rest, same, tt, is, inr (ground (arith, text_eq_iff arg dashes)))
  | inr goes ↦ elim (Bool-cases (skips arg)) [
    | inl skip ↦
        skip_more skips arg args call goes skip (behind_sound skips args call (ground arith))
    | inr stay ↦
        let (tee, rest, parts, same, is) = next_sound (arg ∷ args) call (ground arith) in
        ([], tee, rest, same, tt, is, inl (parts, ground arith, ground arith))
  ]
]

behind_complete :
    (skips : Text → Bool) (skipped : List Text) (tee : Text) (rest : List Text)
    → All (λ a. (text_eq a dashes ≡ false) × (skips a ≡ true)) skipped
    → is_tee tee ≡ true
    → text_eq tee dashes ≡ false
    → skips tee ≡ false
    → tee_after skips (skipped ++ (tee ∷ rest)) ≡ some (tee ∷ rest)
unfolding tee_after tee_next
behind_complete skips [] tee rest all is goes stay = ground arith
behind_complete skips (a ∷ skipped) tee rest ((goes', skip), all) is goes stay =
    ground (arith, behind_complete skips skipped tee rest all is goes stay)

stopped_complete :
    (skips : Text → Bool) (skipped : List Text) (tee : Text) (rest : List Text)
    → All (λ a. (text_eq a dashes ≡ false) × (skips a ≡ true)) skipped
    → is_tee tee ≡ true
    → tee_after skips (skipped ++ (dashes ∷ (tee ∷ rest))) ≡ some (tee ∷ rest)
unfolding tee_after tee_next
stopped_complete skips [] tee rest all is = ground (arith, text_eq_refl dashes)
stopped_complete skips (a ∷ skipped) tee rest ((goes, skip), all) is =
    ground (arith, stopped_complete skips skipped tee rest all is)

after_iff :
    (skips : Text → Bool) (args call : List Text)
    → (tee_after skips args ≡ some call) ↔ TeeBehind skips args call
after_iff skips args call = (
  behind_sound skips args call,
  λ (skipped, tee, rest, same, all, is, place). elim place [
    | inl (parts, goes, stay) ↦
        rw (parts, same) (behind_complete skips skipped tee rest all is goes stay)
    | inr parts ↦ rw (parts, same) (stopped_complete skips skipped tee rest all is)
  ],
)

-- The arguments call `tee`: themselves, or behind `command`, `builtin` or `env` with what these take.
abbrev pub CallsTee : List Text → List Text → Type 0
CallsTee [] call = ⊥
CallsTee (name ∷ args) call =
    ((command_base name ≡ codes "tee") × (call ≡ name ∷ args))
    ⊎ ((((command_base name ≡ codes "command") ⊎ (command_base name ≡ codes "builtin"))
          × TeeBehind is_flag args call)
        ⊎ ((command_base name ≡ codes "env")
            × TeeBehind (λ arg. is_flag arg || contains_char b'=' arg) args call))

calls_sound : (args call : List Text) → tee_command_args args ≡ some call → CallsTee args call
unfolding tee_command_args
calls_sound [] call h = absurd (cc)
calls_sound (name ∷ args) call h = elim (Bool-cases (text_eq (command_base name) (codes "tee"))) [
  | inl tee ↦ inl ((text_eq_iff (command_base name) (codes "tee")).0 tee, ground arith)
  | inr a ↦ elim (Bool-cases (text_eq (command_base name) (codes "command"))) [
    | inl c ↦ inr (
        inl (
          inl ((text_eq_iff (command_base name) (codes "command")).0 c),
          behind_sound is_flag args call (ground arith),
        ))
    | inr b ↦ elim (Bool-cases (text_eq (command_base name) (codes "builtin"))) [
      | inl d ↦ inr (
          inl (
            inr ((text_eq_iff (command_base name) (codes "builtin")).0 d),
            behind_sound is_flag args call (ground arith),
          ))
      | inr e ↦ elim (Bool-cases (text_eq (command_base name) (codes "env"))) [
        | inl f ↦ inr (
            inr (
              (text_eq_iff (command_base name) (codes "env")).0 f,
              behind_sound _ args call (ground arith),
            ))
        | inr g ↦ absurd (ground arith)
      ]
    ]
  ]
]

calls_complete : (args call : List Text) → CallsTee args call → tee_command_args args ≡ some call
unfolding tee_command_args text_eq
calls_complete [] call h = absurd h
calls_complete (name ∷ args) call (inl (base, same)) = rw (base, same) refl
calls_complete (name ∷ args) call (inr (inl (inl base, tee))) =
    rw base ((after_iff is_flag args call).1 tee)
calls_complete (name ∷ args) call (inr (inl (inr base, tee))) =
    rw base ((after_iff is_flag args call).1 tee)
calls_complete (name ∷ args) call (inr (inr (base, tee))) =
    rw base ((after_iff (λ arg. is_flag arg || contains_char b'=' arg) args call).1 tee)

-- A call of `tee` that is given a file.
abbrev pub WritesByTee : List Text → Type 0
WritesByTee args =
    (tee : Text) × (rest : List Text) × CallsTee args (tee ∷ rest) × NamesFile false rest

pub tee_sound : (args : List Text) → is_tee_write args ≡ true → WritesByTee args
unfolding is_tee_write
tee_sound args h = elim (Option-cases (tee_command_args args)) [
  | inl p ↦ absurd (ground arith)
  | inr ([], p) ↦ absurd (ground arith)
  | inr (tee ∷ rest, p) ↦
      (tee, rest, calls_sound args (tee ∷ rest) p, names_sound false rest (ground arith))
]

pub tee_complete : (args : List Text) → WritesByTee args → is_tee_write args ≡ true
unfolding is_tee_write
tee_complete args (tee, rest, calls, (before, file, after, parts, name, free)) =
    let p = calls_complete args (tee ∷ rest) calls in
    let more = names_complete false before file after name free in
    let more' : 0 < non_flag_args false rest = rw parts more in ground arith
