-- ===== src/Tests/StateExamples.antt =====
-- The state service of internal/conversation/state.go over backends in memory, of which that of the
-- todos fails while the disk is full, after the new items are in force.
use falken_core.Base.{
  inl, inr, List, [], Bool, true, false, none, some, ◌≡◌, ◌↔◌, refl, subst, arith, map, is_nil,
  if◌then◌else◌,
}
use falken_core.Base.Text.{Text, codes}
use falken_core.Conversation.Todos.{TodoItem, normalize_todo, todo_to_store_item}
use falken_core.Conversation.Todos.Checklist.{IsChecklist}
use falken_core.Conversation.Evidence.{CommandEvidenceState, empty_command_evidence_state}
use falken_core.Conversation.Plan.{validate_implementation_plan}
use falken_core.Conversation.State.{
  found, PlanBackend, Backend, service, write_plan_and_todos, complete_plan_implementation,
}
use falken_core.Conversation.State.Atomic.{
  IsStored, IsAllOrNothing, write-IsAllOrNothing, complete-IsAllOrNothing,
}
use falken_core.Conversation.State.Accepted.{IsServing, write_accepted_exact}
use falken_core.Tests.ConversationExamples.{plan, todos}

record World : Type 0 where
  plan_text : Text
  items : List TodoItem
  evidence : CommandEvidenceState
  full : Bool

abbrev plans : PlanBackend World
plans = record {
  read = λ w. found w.plan_text;
  write = λ v w. (none, record w { plan_text = v });
  clear = λ w. (none, record w { plan_text = [] });
}

abbrev store : Backend (List TodoItem) World
store = record {
  read = λ w. found w.items;
  write = λ v w.
      if w.full
      then (some (codes "sync failed"), record w { items = v })
      else (none, record w { items = v });
}

abbrev evidence_store : Backend CommandEvidenceState World
evidence_store = record {
  read = λ w. found w.evidence;
  write = λ v w. (none, record w { evidence = v });
}

is_store :
    (ev : Backend CommandEvidenceState World) → some evidence_store ≡ some ev → evidence_store ≡ ev
is_store ev h = cc

abbrev full_disk : World
full_disk = record {
  plan_text = codes "# Goal";
  items = [];
  evidence = empty_command_evidence_state;
  full = true;
}

abbrev plan_at : World → Text
plan_at w = w.plan_text

abbrev todos_at : World → List TodoItem
todos_at w = w.items

stored : IsStored plan_at todos_at plans store (some evidence_store)
stored = record {
  plan_read = λ w plan h. ground arith;
  plan_written = λ v w h. refl;
  plan_failed = λ v w m h. inl (ground arith);
  plan_apart = λ v w. refl;
  plan_cleared = λ w h. refl;
  clear_failed = λ w m h. inl (ground arith);
  clear_apart = λ w. refl;
  todos_written = λ v w h. ground arith;
  todos_failed = λ v w m h. inr (ground arith);
  todos_apart = λ v w. ground arith;
  evidence_apart = λ ev v w h.
      subst
        (λ (ev : Backend CommandEvidenceState World).
          (plan_at (ev.write v w).1 ≡ plan_at w) × (todos_at (ev.write v w).1 ≡ todos_at w))
        (is_store ev h) (refl, refl);
}

-- A store that never fails.
abbrev sound_store : Backend (List TodoItem) World
sound_store = record { read = λ w. found w.items; write = λ v w. (none, record w { items = v }) }

serving : IsServing plans sound_store (some evidence_store)
serving = record {
  plan_read = λ w. (w.plan_text, refl);
  plan_write = λ v w. refl;
  todos_write = λ v w. refl;
  evidence_read = λ ev w h.
      subst
        (λ (ev : Backend CommandEvidenceState World).
          (state : CommandEvidenceState) × (ev.read w ≡ found state))
        (is_store ev h) (w.evidence, refl);
  evidence_write = λ ev v w h.
      subst (λ (ev : Backend CommandEvidenceState World). (ev.write v w).0 ≡ none) (is_store ev h)
        refl;
}

write-IsAllOrNothing_example :
    IsAllOrNothing plan_at todos_at
      (plans.write plan full_disk).0
      full_disk
      plan
      (map todo_to_store_item (map normalize_todo todos))
      (write_plan_and_todos (service plans store none (some evidence_store)) plan todos full_disk)
write-IsAllOrNothing_example =
    write-IsAllOrNothing plan_at todos_at plans store (some evidence_store) stored none full_disk
      plan todos

complete-IsAllOrNothing_example :
    IsAllOrNothing plan_at todos_at
      (plans.clear full_disk).0
      full_disk
      []
      []
      (complete_plan_implementation (service plans store none (some evidence_store)) full_disk)
complete-IsAllOrNothing_example =
    complete-IsAllOrNothing plan_at todos_at plans store (some evidence_store) stored none full_disk

write_accepted_exact_example :
    ((write_plan_and_todos
        (service plans sound_store none (some evidence_store))
        plan
        todos
        full_disk).0
      ≡ none)
    ↔ ((validate_implementation_plan plan ≡ none)
        × IsChecklist (map normalize_todo todos)
        × (is_nil todos ≡ false))
write_accepted_exact_example =
    write_accepted_exact plans sound_store (some evidence_store) serving none full_disk plan todos
