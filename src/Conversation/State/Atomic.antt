-- ===== src/Conversation/State/Atomic.antt =====
-- The plan and the todos of a conversation change together, internal/conversation/state.go.
use falken_core.Base.{
  List, [], Bool, true, false, Option, none, some, ◌≡◌, ◌≢◌, ◌⊎◌, inl, inr, refl, sym, subst, ◌∙◌,
  arith, Option-cases, Bool-cases, map, is_nil,
}
use falken_core.Base.Text.{Text}
use falken_core.Conversation.Todos
use falken_core.Conversation.Todos.{
  Todo, TodoItem, TodoError, normalize_todo, normalize_todos, todo_to_store_item, replace_state,
}
use falken_core.Conversation.Todos.Checklist.{normalize_exact}
use falken_core.Conversation.Todos.Storage.{normalize_todos_idem}
use falken_core.Conversation.Evidence.{
  CommandEvidenceState, record_plan_baseline, reset_review_attempts,
}
use falken_core.Conversation.Memory.{MemoryState}
use falken_core.Conversation.Plan.{validate_implementation_plan}
use falken_core.Conversation.State.{
  Found, found, unread, PlanBackend, Backend, StateError, no_todos, invalid_plan, invalid_todos,
  backend, rollback, call, proceed, replace, edit, edit_if, or_restore, service, commit,
  write_checked, write_plan_and_todos, complete, complete_plan_implementation,
}

-- The error says that the old plan could not be written back.
unfoldable pub is_rollback : Option StateError → Bool
is_rollback (some (rollback e message)) = true
is_rollback _ = false

-- What the backends of plan and todos promise, over the plan and the todos that a world holds: a write
-- that succeeds is in force, one that fails has changed nothing or is in force all the same, as where
-- the sync after a rename fails, and each leaves the other's state alone, as an evidence write does.
pub record IsStored {W : Type 0} (plan_at : W → Text) (todos_at : W → List TodoItem)
    (plans : PlanBackend W) (store : Backend (List TodoItem) W)
    (evidence : Option (Backend CommandEvidenceState W)) : Type 0 where
  pub plan_read : (w : W) (plan : Text) → plans.read w ≡ found plan → plan ≡ plan_at w
  pub plan_written :
      (v : Text) (w : W) → (plans.write v w).0 ≡ none → plan_at (plans.write v w).1 ≡ v
  pub plan_failed :
      (v : Text) (w : W) (m : Text)
      → (plans.write v w).0 ≡ some m
      → (plan_at (plans.write v w).1 ≡ plan_at w) ⊎ (plan_at (plans.write v w).1 ≡ v)
  pub plan_apart : (v : Text) (w : W) → todos_at (plans.write v w).1 ≡ todos_at w
  pub plan_cleared : (w : W) → (plans.clear w).0 ≡ none → plan_at (plans.clear w).1 ≡ []
  pub clear_failed :
      (w : W) (m : Text)
      → (plans.clear w).0 ≡ some m
      → (plan_at (plans.clear w).1 ≡ plan_at w) ⊎ (plan_at (plans.clear w).1 ≡ [])
  pub clear_apart : (w : W) → todos_at (plans.clear w).1 ≡ todos_at w
  pub todos_written :
      (v : List TodoItem) (w : W) → (store.write v w).0 ≡ none → todos_at (store.write v w).1 ≡ v
  pub todos_failed :
      (v : List TodoItem) (w : W) (m : Text)
      → (store.write v w).0 ≡ some m
      → (todos_at (store.write v w).1 ≡ todos_at w) ⊎ (todos_at (store.write v w).1 ≡ v)
  pub todos_apart : (v : List TodoItem) (w : W) → plan_at (store.write v w).1 ≡ plan_at w
  pub evidence_apart :
      (ev : Backend CommandEvidenceState W) (v : CommandEvidenceState) (w : W)
      → evidence ≡ some ev
      → (plan_at (ev.write v w).1 ≡ plan_at w) × (todos_at (ev.write v w).1 ≡ todos_at w)

pub Found-cases :
    {A : Type 0} (f : Found A)
    → ((a : A) × (f ≡ found a)) ⊎ ((message : Text) × (f ≡ unread message))
Found-cases (found a) = inl (a, refl)
Found-cases (unread message) = inr (message, refl)

pub Result-cases :
    {A : Type 0} (r : Todos.Result A)
    → ((a : A) × (r ≡ Todos.ok a)) ⊎ ((e : TodoError) × (r ≡ Todos.err e))
Result-cases (Todos.ok a) = inl (a, refl)
Result-cases (Todos.err e) = inr (e, refl)

pub replace-normal :
    {W : Type 0} (store : Backend (List TodoItem) W) (normalized : List Todo) (w : W)
    → normalize_todos normalized ≡ Todos.ok normalized
    → replace store normalized w ≡ call (store.write (map todo_to_store_item normalized)) w
unfolding replace replace_state
replace-normal store normalized w n = ground arith

module _ {W : Type 0} (plan_at : W → Text) (todos_at : W → List TodoItem) where
  -- By the error of the first call, the write of the plan: nothing has changed, and an error is returned;
  -- or both have their new values; or the first call failed and took effect all the same, and that error
  -- is returned; or it succeeded, and an error is returned with the old plan back and the new todos, whose
  -- write failed and took effect; or the error says that the old plan could not be written back.
  abbrev pub IsAllOrNothing :
      Option Text → W → Text → List TodoItem → Option StateError × W → Type 0
  IsAllOrNothing first w plan todos r =
      ((plan_at r.1 ≡ plan_at w) × (todos_at r.1 ≡ todos_at w) × (r.0 ≢ none))
      ⊎ (((plan_at r.1 ≡ plan) × (todos_at r.1 ≡ todos))
          ⊎ (((m : Text) × (first ≡ some m)
                × (plan_at r.1 ≡ plan)
                × (todos_at r.1 ≡ todos_at w)
                × (r.0 ≡ some (backend m)))
              ⊎ (((first ≡ none)
                    × (plan_at r.1 ≡ plan_at w)
                    × (todos_at r.1 ≡ todos)
                    × (r.0 ≢ none))
                  ⊎ (is_rollback r.0 ≡ true))))

  failed_first :
      (m : Text) (w w1 : W) (plan : Text) (todos : List TodoItem)
      → (plan_at w1 ≡ plan_at w) ⊎ (plan_at w1 ≡ plan)
      → todos_at w1 ≡ todos_at w
      → IsAllOrNothing (some m) w plan todos (some (backend m), w1)
  failed_first m w w1 plan todos (inl kept) t = inl (kept, t, cc)
  failed_first m w w1 plan todos (inr new) t = inr (inr (inl (m, refl, new, t, refl)))

  failed_second :
      (w w3 : W) (e : StateError) (plan : Text) (todos : List TodoItem)
      → plan_at w3 ≡ plan_at w
      → (todos_at w3 ≡ todos_at w) ⊎ (todos_at w3 ≡ todos)
      → IsAllOrNothing none w plan todos (some e, w3)
  failed_second w w3 e plan todos p (inl kept) = inl (p, kept, cc)
  failed_second w w3 e plan todos p (inr new) = inr (inr (inr (inl (refl, p, new, cc))))

  edit_apart :
      (evidence : Option (Backend CommandEvidenceState W))
      (change : CommandEvidenceState → CommandEvidenceState) (w : W)
      → ((ev : Backend CommandEvidenceState W) (v : CommandEvidenceState) (w : W)
          → evidence ≡ some ev
          → (plan_at (ev.write v w).1 ≡ plan_at w) × (todos_at (ev.write v w).1 ≡ todos_at w))
      → (plan_at (edit_if change evidence w).1 ≡ plan_at w)
        × (todos_at (edit_if change evidence w).1 ≡ todos_at w)
  unfolding edit
  edit_apart none change w apart = (refl, refl)
  edit_apart (some ev) change w apart = elim (Found-cases (ev.read w)) [
    | inl (state, p) ↦ rw p (apart ev (change state) w refl)
    | inr (message, p) ↦ rw p (refl, refl)
  ]

  module _ (plans : PlanBackend W) (store : Backend (List TodoItem) W)
      (evidence : Option (Backend CommandEvidenceState W))
      (laws : IsStored plan_at todos_at plans store evidence) where
    -- The todos' write, with the old plan written back where it fails, and the evidence's change.
    finish_AllOrNothing :
        (w w1 : W) (old plan : Text) (todos : List TodoItem)
        (change : CommandEvidenceState → CommandEvidenceState)
        → old ≡ plan_at w
        → plan_at w1 ≡ plan
        → todos_at w1 ≡ todos_at w
        → IsAllOrNothing none w plan todos
            (proceed (or_restore plans old (call (store.write todos) w1)) (edit_if change evidence))
    unfolding is_rollback
    finish_AllOrNothing w w1 old plan todos change o p t =
        elim (Option-cases (store.write todos w1).0) [
          | inl done ↦
              let w2 = (store.write todos w1).1 in
              let apart = edit_apart evidence change w2 laws.evidence_apart in
              rw done (
                inr (
                  inl (
                    apart.0 ∙ laws.todos_apart todos w1 ∙ p,
                    apart.1 ∙ laws.todos_written todos w1 done,
                  )))
          | inr (m, bad) ↦
              let w2 = (store.write todos w1).1 in
              elim (Option-cases (plans.write old w2).0) [
                | inl restored ↦
                    let was = laws.plan_apart old w2 in
                    let todos_after =
                      elim (laws.todos_failed todos w1 m bad)
                        as (λ x.
                          (todos_at (plans.write old w2).1 ≡ todos_at w)
                          ⊎ (todos_at (plans.write old w2).1 ≡ todos)) [
                            | inl kept ↦ inl (was ∙ kept ∙ t)
                            | inr new ↦ inr (was ∙ new)
                          ] in
                    rw (bad, restored)
                      (failed_second w (plans.write old w2).1 (backend m) plan todos
                        (laws.plan_written old w2 restored ∙ o) todos_after)
                | inr (m', lost) ↦ rw (bad, lost) (inr (inr (inr (inr refl))))
              ]
        ]

    commit_AllOrNothing :
        (w : W) (old plan : Text) (normalized : List Todo)
        → old ≡ plan_at w
        → normalize_todos normalized ≡ Todos.ok normalized
        → IsAllOrNothing
            (plans.write plan w).0
            w
            plan
            (map todo_to_store_item normalized)
            (commit plans store evidence old plan normalized w)
    unfolding commit is_rollback
    commit_AllOrNothing w old plan normalized o n = elim (Option-cases (plans.write plan w).0) [
      | inl done ↦
          let w1 = (plans.write plan w).1 in
          rw done (
            subst
              (λ r.
                IsAllOrNothing none w plan (map todo_to_store_item normalized)
                  (proceed (or_restore plans old r) (edit_if record_plan_baseline evidence)))
              (sym (replace-normal store normalized w1 n))
              (finish_AllOrNothing w w1 old plan (map todo_to_store_item normalized)
                record_plan_baseline o (laws.plan_written plan w done) (laws.plan_apart plan w)))
      | inr (m, bad) ↦ rw bad (
          failed_first m w (plans.write plan w).1 plan (map todo_to_store_item normalized)
            (laws.plan_failed plan w m bad) (laws.plan_apart plan w))
    ]

    -- What a call of WritePlanAndTodos comes to: an error before any write, or the commit.
    write_checked-cases :
        (w : W) (plan : Text) (todos : List Todo)
        → ((e : StateError) × (write_checked plans store evidence plan todos w ≡ (some e, w)))
          ⊎ ((old : Text) × (us : List Todo) × (plans.read w ≡ found old)
              × (normalize_todos todos ≡ Todos.ok us)
              × (write_checked plans store evidence plan todos w
                  ≡ commit plans store evidence old plan us w))
    unfolding write_checked
    write_checked-cases w plan todos = elim (Option-cases (validate_implementation_plan plan)) [
      | inr (e, p) ↦ inl (invalid_plan e, ground arith)
      | inl p ↦ elim (Result-cases (normalize_todos todos)) [
        | inr (e, q) ↦ inl (invalid_todos e, ground arith)
        | inl (us, q) ↦ elim (Bool-cases (is_nil us)) [
          | inl z ↦ inl (no_todos, ground arith)
          | inr z ↦ elim (Found-cases (plans.read w)) [
            | inr (message, r) ↦ inl (backend message, ground arith)
            | inl (old, r) ↦ inr (old, us, r, q, ground arith)
          ]
        ]
      ]
    ]

    write_AllOrNothing :
        (w : W) (plan : Text) (todos : List Todo)
        → IsAllOrNothing
            (plans.write plan w).0
            w
            plan
            (map todo_to_store_item (map normalize_todo todos))
            (write_checked plans store evidence plan todos w)
    write_AllOrNothing w plan todos =
        let Goal =
          IsAllOrNothing (plans.write plan w).0 w plan
            (map todo_to_store_item (map normalize_todo todos)) in
        elim (write_checked-cases w plan todos) [
          | inl (e, same) ↦ subst Goal (sym same) (inl (refl, refl, cc))
          | inr (old, us, r, q, same) ↦ subst Goal (sym same) (
              subst
                (λ vs.
                  IsAllOrNothing (plans.write plan w).0 w plan (map todo_to_store_item vs)
                    (commit plans store evidence old plan us w))
                (((normalize_exact todos us).0 q).0)
                (commit_AllOrNothing w old plan us (laws.plan_read w old r)
                  (normalize_todos_idem todos us q)))
        ]

    complete_AllOrNothing :
        (w : W) (old : Text)
        → old ≡ plan_at w
        → IsAllOrNothing (plans.clear w).0 w [] [] (complete plans store evidence old w)
    unfolding complete is_rollback
    complete_AllOrNothing w old o = elim (Option-cases (plans.clear w).0) [
      | inl done ↦ rw done (
          finish_AllOrNothing w (plans.clear w).1 old [] [] reset_review_attempts o
            (laws.plan_cleared w done) (laws.clear_apart w))
      | inr (m, bad) ↦ rw bad (
          failed_first m w (plans.clear w).1 [] [] (laws.clear_failed w m bad) (laws.clear_apart w))
    ]

    module _ (memory : Option (Backend MemoryState W)) (w : W) where
      -- Over stores where a write that succeeds is in force, one that fails has changed nothing or is in
      -- force all the same, and none touches another's state, a plan and its todos are committed together:
      -- whichever calls fail, both are as they were and an error is returned; or both are the new ones; or
      -- the write of the plan itself failed and took effect, and its error is returned; or that of the
      -- todos failed and took effect, and an error is returned with the old plan back; or the error says
      -- that the old plan could not be written back.
      pub write-IsAllOrNothing :
          (plan : Text) (todos : List Todo)
          → IsAllOrNothing
              (plans.write plan w).0
              w
              plan
              (map todo_to_store_item (map normalize_todo todos))
              (write_plan_and_todos (service plans store memory evidence) plan todos w)
      unfolding write_plan_and_todos
      write-IsAllOrNothing plan todos = write_AllOrNothing w plan todos

      -- Over the same stores, whose cleared plan reads as empty, a completed implementation clears the
      -- plan and the todos together: whichever calls fail, both are as they were and an error is returned;
      -- or both are empty; or the clear of the plan itself failed and took effect, and its error is
      -- returned; or the write of the todos failed and took effect, and an error is returned with the old
      -- plan back; or the error says that the old plan could not be written back.
      pub complete-IsAllOrNothing :
          IsAllOrNothing
            (plans.clear w).0
            w
            []
            []
            (complete_plan_implementation (service plans store memory evidence) w)
      unfolding complete_plan_implementation
      complete-IsAllOrNothing = elim (Found-cases (plans.read w)) [
        | inr (message, r) ↦ rw r (inl (refl, refl, cc))
        | inl (old, r) ↦ rw r (complete_AllOrNothing w old (laws.plan_read w old r))
      ]
