-- ===== src/Agent/Mode/Offers.antt =====
-- What the tools of a mode declare, internal/agent/mode.go.
use falken_core.Base.{
  List, [], ◌∷◌, ◌++◌, Bool, true, false, not, ◌&&◌, some, ◌≡◌, ◌↔◌, ◌⊎◌, inl, inr, refl, is_nil,
  any, All, Bool-cases, arith,
}
use falken_core.Base.Text.{Text, text_eq}
use falken_core.Base.Text.Laws.{text_eq_iff}
use falken_core.Agent.Mode.{
  Mode, mode_default, mode_plan, FilePermission, Entry, is_no_safety, no_permissions,
  normalize_policy_term, is_mutation_mode, file_capability_block_reason, plan_blocked_tool_name,
  plan_mode_tool_decision, is_plan_only, is_tool_allowed, keep, filter_tools, check_tool_call,
}

-- A permission for files that names its modes, none of which writes or creates.
abbrev pub IsReadOnly : FilePermission → Type 0
IsReadOnly file = (is_nil file.modes ≡ false) × (any is_mutation_mode file.modes ≡ false)

-- Nothing that the entry declares reaches a command, a host or a file other than by reading, and the
-- state of the host only as part of planning.
abbrev pub IsHarmless : Entry → Type 0
IsHarmless entry =
    (entry.safety.mutates_workspace ≡ false)
    × All IsReadOnly entry.permissions.files
    × (entry.safety.executes_shell ≡ false)
    × (is_nil entry.permissions.shell ≡ true)
    × (entry.safety.uses_network ≡ false)
    × (is_nil entry.permissions.network ≡ true)
    × ((entry.safety.mutates_host_state ≡ false) ⊎ (entry.safety.plan_safe ≡ true))

-- The entry says that it is safe, or has a name without a suspicious part and declares something.
abbrev pub IsVouched : Entry → Type 0
IsVouched entry =
    (entry.safety.plan_safe ≡ true)
    ⊎ ((plan_blocked_tool_name (normalize_policy_term entry.name) ≡ false)
        × ((is_no_safety entry.safety && no_permissions entry) ≡ false))

reason_iff :
    (files : List FilePermission)
    → (is_nil (file_capability_block_reason files) ≡ true) ↔ All IsReadOnly files
unfolding file_capability_block_reason
reason_iff [] = ground arith
reason_iff (file ∷ files) =
    let (sound, complete) = reason_iff files in
    elim (Bool-cases (is_nil file.modes)) [
      | inl broad ↦ ground arith
      | inr modes ↦ elim (Bool-cases (any is_mutation_mode file.modes)) [
        | inl mutates ↦ ground arith
        | inr reads ↦ ground arith
      ]
    ]

-- The decision on a tool in the mode of planning allows it exactly if it declares no change of files, no
-- command, no host, and no change of the host's state unless it is safe to use there, and says so or has
-- a name without a blocked part and declares something.
pub plan_mode_exact :
    (entry : Entry)
    → ((is_tool_allowed mode_plan entry).allowed ≡ true) ↔ (IsHarmless entry × IsVouched entry)
unfolding is_tool_allowed plan_mode_tool_decision text_eq
plan_mode_exact entry = let (sound, complete) = reason_iff entry.permissions.files in ground arith

-- The first entry of that name is the one of the statement.
abbrev pub IsFirst : Text → List Entry → Entry → Type 0
IsFirst name available entry =
    (before : List Entry) × (after : List Entry) × (available ≡ before ++ (entry ∷ after))
    × All (λ e. text_eq e.name name ≡ false) before
    × (text_eq entry.name name ≡ true)

unknown_refused : (name : Text) → (check_tool_call mode_plan name []).allowed ≡ false
unfolding check_tool_call text_eq
unknown_refused name = refl

call_sound :
    (name : Text) (available : List Entry)
    → (check_tool_call mode_plan name available).allowed ≡ true
    → (entry : Entry) × IsFirst name available entry
      × ((is_tool_allowed mode_plan entry).allowed ≡ true)
unfolding check_tool_call
call_sound name [] h = absurd (ground (arith, unknown_refused name))
call_sound name (e ∷ available) h = elim (Bool-cases (text_eq e.name name)) [
  | inl same ↦ (e, ([], available, refl, _, same), rw (same) at h)
  | inr other ↦
      let (entry, (before, after, parts, others, same), allowed) =
        call_sound name available (rw (other) at h) in
      (entry, (e ∷ before, after, rw (parts), (other, others), same), allowed)
]

call_complete :
    (name : Text) (before after : List Entry) (entry : Entry)
    → All (λ e. text_eq e.name name ≡ false) before
    → text_eq entry.name name ≡ true
    → (is_tool_allowed mode_plan entry).allowed ≡ true
    → (check_tool_call mode_plan name (before ++ (entry ∷ after))).allowed ≡ true
unfolding check_tool_call
call_complete name [] after entry others same allowed = rw (same, allowed)
call_complete name (e ∷ before) after entry (other, others) same allowed =
    rw (other, call_complete name before after entry others same allowed)

-- In plan mode a call passes exactly if a tool of that name is known, and the first of them is one that
-- plan mode offers: it declares nothing harmful and is vouched for.
pub plan_call_exact :
    (name : Text) (available : List Entry)
    → ((check_tool_call mode_plan name available).allowed ≡ true)
      ↔ ((entry : Entry) × IsFirst name available entry × (IsHarmless entry × IsVouched entry))
plan_call_exact name available = (
  λ h.
      let (entry, first, allowed) = call_sound name available h in
      (entry, first, (plan_mode_exact entry).0 allowed),
  λ (entry, (before, after, parts, others, same), offered). rw (
    parts,
    call_complete name before after entry others same ((plan_mode_exact entry).1 offered),
  ),
)

default_allowed :
    (entry : Entry) → (is_tool_allowed mode_default entry).allowed ≡ not (is_plan_only entry)
unfolding is_tool_allowed text_eq
default_allowed entry = ground arith

keep-same :
    (p q : Entry → Bool) (entries : List Entry)
    → ((e : Entry) → p e ≡ q e)
    → keep p entries ≡ keep q entries
keep-same p q [] same = refl
keep-same p q (e ∷ entries) same = rw (same e, keep-same p q entries same)

default_lists :
    (available : List Entry)
    → filter_tools mode_default available
      ≡ some (keep (λ e. (is_tool_allowed mode_default e).allowed) available)
unfolding filter_tools text_eq
default_lists available = rw (
    keep-same (λ e. (is_tool_allowed mode_default e).allowed) (λ e. not (is_plan_only e)) available
      default_allowed)

-- The two modes alone list tools, and what they list are those that their decision on each tool allows,
-- in their order.
pub filter_tools_exact :
    (mode : Mode) (available offered : List Entry)
    → (filter_tools mode available ≡ some offered) ↔ (
        ((mode ≡ mode_default) ⊎ (mode ≡ mode_plan))
        × (offered ≡ keep (λ e. (is_tool_allowed mode e).allowed) available))
unfolding filter_tools
filter_tools_exact mode available offered = elim (Bool-cases (text_eq mode mode_default)) [
  | inl default ↦
      rw ((text_eq_iff mode mode_default).0 default) (ground (arith, default_lists available))
  | inr other ↦ elim (Bool-cases (text_eq mode mode_plan)) [
    | inl plan ↦ ground (arith, (text_eq_iff mode mode_plan).0 plan, text_eq_iff mode mode_default)
    | inr neither ↦ ground (arith, text_eq_iff mode mode_plan, text_eq_iff mode mode_default)
  ]
]
