-- ===== src/Conversation/State/Accepted.antt =====
-- Which plans and todos a conversation takes, internal/conversation/state.go.
use falken_core.Base.{
  List, [], ◌∷◌, false, Option, none, some, ◌≡◌, ◌↔◌, inl, inr, refl, subst, arith, Option-cases,
  map, is_nil,
}
use falken_core.Base.Text.{Text}
use falken_core.Conversation.Todos
use falken_core.Conversation.Todos.{
  Todo, TodoItem, todo_to_store_item, normalize_todo, normalize_todos,
}
use falken_core.Conversation.Todos.Checklist.{IsChecklist, normalize_exact}
use falken_core.Conversation.Todos.Storage.{normalize_todos_idem}
use falken_core.Conversation.Evidence.{CommandEvidenceState, record_plan_baseline}
use falken_core.Conversation.Memory.{MemoryState}
use falken_core.Conversation.Plan.{validate_implementation_plan}
use falken_core.Conversation.State.{
  found, PlanBackend, Backend, edit, edit_if, commit, write_checked, write_plan_and_todos, service,
}
use falken_core.Conversation.State.Atomic.{Result-cases, replace-normal}

-- Every call of the backends succeeds.
pub record IsServing {W : Type 0} (plans : PlanBackend W) (store : Backend (List TodoItem) W)
    (evidence : Option (Backend CommandEvidenceState W)) : Type 0 where
  pub plan_read : (w : W) → (old : Text) × (plans.read w ≡ found old)
  pub plan_write : (v : Text) (w : W) → (plans.write v w).0 ≡ none
  pub todos_write : (v : List TodoItem) (w : W) → (store.write v w).0 ≡ none
  pub evidence_read :
      (ev : Backend CommandEvidenceState W) (w : W)
      → evidence ≡ some ev
      → (state : CommandEvidenceState) × (ev.read w ≡ found state)
  pub evidence_write :
      (ev : Backend CommandEvidenceState W) (v : CommandEvidenceState) (w : W)
      → evidence ≡ some ev
      → (ev.write v w).0 ≡ none

is_nil-map : (ts : List Todo) → is_nil (map normalize_todo ts) ≡ is_nil ts
is_nil-map [] = refl
is_nil-map (t ∷ ts) = refl

module _ {W : Type 0} (plans : PlanBackend W) (store : Backend (List TodoItem) W)
    (evidence : Option (Backend CommandEvidenceState W))
    (serving : IsServing plans store evidence) where
  edit-none :
      (change : CommandEvidenceState → CommandEvidenceState) (w : W)
      → (edit_if change evidence w).0 ≡ none
  unfolding edit
  edit-none change w = elim (Option-cases evidence) [
    | inl p ↦ rw p refl
    | inr (ev, p) ↦
        let (state, r) = serving.evidence_read ev w p in
        ground (arith, serving.evidence_write ev (change state) w p)
  ]

  commit-none :
      (w : W) (old plan : Text) (normalized : List Todo)
      → normalize_todos normalized ≡ Todos.ok normalized
      → (commit plans store evidence old plan normalized w).0 ≡ none
  unfolding commit
  commit-none w old plan normalized n =
      let w1 = (plans.write plan w).1 in
      let items = map todo_to_store_item normalized in
      ground (
        arith,
        serving.plan_write plan w,
        replace-normal store normalized w1 n,
        serving.todos_write items w1,
        edit-none record_plan_baseline (store.write items w1).1,
      )

  module _ (memory : Option (Backend MemoryState W)) (w : W) (plan : Text) (todos : List Todo) where
    -- Where every call of the backends succeeds, a plan and its todos are taken exactly if the plan
    -- is valid and the trimmed todos are a checklist of at least one item.
    pub write_accepted_exact :
        ((write_plan_and_todos (service plans store memory evidence) plan todos w).0 ≡ none) ↔ (
          (validate_implementation_plan plan ≡ none)
          × IsChecklist (map normalize_todo todos)
          × (is_nil todos ≡ false))
    unfolding write_plan_and_todos write_checked
    write_accepted_exact = (
      (λ done. elim (Option-cases (validate_implementation_plan plan)) [
        | inr (e, p) ↦ absurd (ground arith)
        | inl p ↦ elim (Result-cases (normalize_todos todos)) [
          | inr (e, q) ↦ absurd (ground arith)
          | inl (us, q) ↦
              let (same, checked) = (normalize_exact todos us).0 q in
              (p, subst IsChecklist same checked, ground (arith, same, is_nil-map todos))
        ]
      ]),
      (λ (p, checked, some_item).
          let us = map normalize_todo todos in
          let q = (normalize_exact todos us).1 (refl, checked) in
          let (old, r) = serving.plan_read w in
          ground
            (arith, is_nil-map todos, commit-none w old plan us (normalize_todos_idem todos us q))),
    )
