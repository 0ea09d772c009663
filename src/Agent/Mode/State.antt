-- ===== src/Agent/Mode/State.antt =====
-- The current mode and its plan, the ModeState of internal/agent/mode.go, with the plan store that
-- internal/conversation/plan.go passes calls on to. The receiver and its plan are not nil.
use falken_core.Base.{
  true, not, Option, none, some, ◌≡◌, ◌⊎◌, inl, inr, refl, if◌then◌else◌, is_nil, Option-cases,
  arith, arith,
}
use falken_core.Base.Text.{Text, text_eq, trim_space}
use falken_core.Base.Text.Laws.{text_eq_refl}
use falken_core.Agent.Mode.{Mode, mode_default, mode_plan}
use falken_core.Conversation.State.{PlanBackend, found, unread}
use falken_core.Conversation.Plan.{
  PlanError, not_meaningful, default_plan_starter_text, validate_implementation_plan,
}

pub data ModeError : Type 0 where
  store_failed : Text → ModeError
  plan_refused : PlanError → ModeError

starter_refused : validate_implementation_plan default_plan_starter_text ≡ some not_meaningful
unfolding validate_implementation_plan trim_space text_eq
starter_refused = refl

module _ {W : Type 0} where
  -- A failed operation has kept the mode; the world is what the plan store made of it.
  unfoldable pub enter_plan : PlanBackend W → Mode → W → Option ModeError × Mode × W
  enter_plan plans mode w = elim (plans.read w) [
    | unread e ↦ (some (store_failed e), mode, w)
    | found plan ↦
        if is_nil (trim_space plan)
        then (let (failure, w') = plans.write default_plan_starter_text w in
            elim failure [
              | some e ↦ (some (store_failed e), mode, w')
              | none ↦ (none, mode_plan, w')
            ])
        else (none, mode_plan, w)
  ]

  unfoldable pub exit_plan : PlanBackend W → Mode → W → Option ModeError × Mode
  exit_plan plans mode w =
      if not (text_eq mode mode_plan) then (none, mode) else elim (plans.read w) [
        | unread e ↦ (some (store_failed e), mode)
        | found plan ↦ elim (validate_implementation_plan plan) [
          | some e ↦ (some (plan_refused e), mode)
          | none ↦ (none, mode_default)
        ]
      ]

  -- A plan that EnterPlan has started holds the mode: over a store where a write that succeeds is read
  -- back, from a plan that is blank, EnterPlan either fails and keeps the mode, or ExitPlan right after
  -- it refuses the starter text and stays in plan mode.
  pub started_plan_stays :
      (plans : PlanBackend W) (mode : Mode) (w : W) (plan : Text)
      → ((v : Text) (w : W) → (plans.write v w).0 ≡ none → plans.read (plans.write v w).1 ≡ found v)
      → plans.read w ≡ found plan
      → is_nil (trim_space plan) ≡ true
      → ((e : ModeError) × (w' : W) × (enter_plan plans mode w ≡ (some e, mode, w')))
        ⊎ ((w' : W) × (enter_plan plans mode w ≡ (none, mode_plan, w'))
            × (exit_plan plans mode_plan w' ≡ (some (plan_refused not_meaningful), mode_plan)))
  unfolding enter_plan exit_plan
  started_plan_stays plans mode w plan written read blank =
      elim (Option-cases (plans.write default_plan_starter_text w).0) [
        | inl done ↦ inr (
          (plans.write default_plan_starter_text w).1,
          ground arith,
          ground (
            arith,
            written default_plan_starter_text w done,
            starter_refused,
            text_eq_refl mode_plan,
          ),
        )
        | inr (e, failed) ↦
            inl (store_failed e, (plans.write default_plan_starter_text w).1, ground arith)
      ]
