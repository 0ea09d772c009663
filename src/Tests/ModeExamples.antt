-- ===== src/Tests/ModeExamples.antt =====
-- Modes at two tools, and the mode's plan over a store that is the text itself.
use falken_core.Base.Text.Fields.{contains}
use falken_core.Base.{List, [], ◌∷◌, true, none, some, ◌≡◌, ◌↔◌, ◌⊎◌, refl}
use falken_core.Base.Text.{trim_space, to_lower, replace_char, text_eq, Text, codes}
use falken_core.Agent.Mode.{
  normalize_policy_term, plan_blocked_tool_name, file_capability_block_reason,
  plan_mode_tool_decision, mode_default, mode_plan, Entry, named, is_tool_allowed, keep,
  filter_tools, check_tool_call,
}
use falken_core.Agent.Mode.Offers.{
  IsFirst, IsHarmless, IsVouched, plan_call_exact, filter_tools_exact,
}
use falken_core.Agent.Mode.State.{
  ModeError, plan_refused, enter_plan, exit_plan, started_plan_stays,
}
use falken_core.Conversation.Plan.{not_meaningful}
use falken_core.Conversation.State.{found, PlanBackend}

abbrev lookup_tool : Entry
lookup_tool =
    let entry = named (codes "lookup") in
    record entry { safety = record entry.safety { reads_workspace = true } }

abbrev deploy_tool : Entry
deploy_tool =
    let entry = named (codes "deploy") in
    record entry { safety = record entry.safety { executes_shell = true } }

abbrev two_tools : List Entry
two_tools = deploy_tool ∷ lookup_tool ∷ []

abbrev text_store : PlanBackend Text
text_store = record { read = λ w. found w; write = λ v w. (none, v); clear = λ w. (none, []) }

lookup_passes : (check_tool_call mode_plan (codes "lookup") two_tools).allowed ≡ true
unfolding check_tool_call text_eq is_tool_allowed plan_mode_tool_decision
    file_capability_block_reason plan_blocked_tool_name contains normalize_policy_term replace_char
    to_lower trim_space
lookup_passes = refl

plan_call_exact_example :
    ((check_tool_call mode_plan (codes "lookup") two_tools).allowed ≡ true) ↔ (
      (entry : Entry) × IsFirst (codes "lookup") two_tools entry
      × (IsHarmless entry × IsVouched entry))
plan_call_exact_example = plan_call_exact (codes "lookup") two_tools

filter_tools_exact_example : (filter_tools mode_plan two_tools ≡ some (lookup_tool ∷ [])) ↔ (
    ((mode_plan ≡ mode_default) ⊎ (mode_plan ≡ mode_plan))
    × ((lookup_tool ∷ []) ≡ keep (λ e. (is_tool_allowed mode_plan e).allowed) two_tools))
filter_tools_exact_example = filter_tools_exact mode_plan two_tools (lookup_tool ∷ [])

started_plan_stays_example :
    ((e : ModeError) × (w' : Text) × (enter_plan text_store mode_default []
        ≡ (some e, mode_default, w')))
    ⊎ ((w' : Text) × (enter_plan text_store mode_default [] ≡ (none, mode_plan, w'))
        × (exit_plan text_store mode_plan w' ≡ (some (plan_refused not_meaningful), mode_plan)))
unfolding enter_plan trim_space
started_plan_stays_example =
    started_plan_stays text_store mode_default [] [] (λ v w done. refl) refl refl
