-- ===== src/Conversation/State.antt =====
-- The state service of a conversation, internal/conversation/state.go, over the store's backends of
-- internal/store/interfaces.go. A backend is what the host supplies: it acts on a world `W`, and an
-- operation returns the text of its error, if there is one. The receiver is not nil.
pub mod Atomic
pub mod Accepted
use falken_core.Base.{List, [], ◌∷◌, Option, none, some, if◌then◌else◌, is_nil, map}
use falken_core.Base.Text.{Text}
use falken_core.Conversation.Todos
use falken_core.Conversation.Todos.{
  Todo, TodoItem, TodoError, normalize_todos, read_state, replace_state,
}
use falken_core.Conversation.Evidence.{
  CommandEvidenceRecord, CommandEvidenceReview, CommandEvidenceState, empty_command_evidence_state,
  append_record, record_review, reset_review_attempts, record_plan_baseline,
  record_workspace_mutation,
}
use falken_core.Conversation.Memory
use falken_core.Conversation.Memory.{MemoryState, MemoryUpdate, MemoryError, update_memory}
use falken_core.Conversation.Plan.{PlanError, validate_implementation_plan}

pub data Found (A : Type 0) : Type 0 where
  found : A → Found A
  unread : Text → Found A

pub record PlanBackend (W : Type 0) : Type 0 where
  pub read : W → Found Text
  pub write : Text → W → Option Text × W
  pub clear : W → Option Text × W

-- The backends of todos, of memory and of command evidence.
pub record Backend (A W : Type 0) : Type 0 where
  pub read : W → Found A
  pub write : A → W → Option Text × W

pub record ConversationState (W : Type 0) : Type 0 where
  pub plan : Option (PlanBackend W)
  pub todos : Option (Backend (List TodoItem) W)
  pub memory : Option (Backend MemoryState W)
  pub evidence : Option (Backend CommandEvidenceState W)

-- A service that has a plan store and a todo store.
abbrev pub service :
    {W : Type 0}
    → PlanBackend W
    → Backend (List TodoItem) W
    → Option (Backend MemoryState W)
    → Option (Backend CommandEvidenceState W)
    → ConversationState W
service plans store memory evidence = record {
  plan = some plans;
  todos = some store;
  memory = memory;
  evidence = evidence;
}

-- `rollback` joins the error of an operation with that of undoing what came before it.
pub data StateError : Type 0 where
  unavailable no_todos : StateError
  invalid_plan : PlanError → StateError
  invalid_todos : TodoError → StateError
  invalid_memory : MemoryError → StateError
  backend : Text → StateError
  rollback : StateError → Text → StateError

-- An operation on the world.
abbrev pub Action : Type 0 → Type 0
Action W = W → Option StateError × W

abbrev pub report : Option Text → Option StateError
report none = none
report (some message) = some (backend message)

-- The error of an operation, with that of its undoing.
abbrev pub join_rollback : StateError → Option Text → StateError
join_rollback e none = e
join_rollback e (some message) = rollback e message

module _ {W : Type 0} where
  abbrev pub fail : StateError → Action W
  fail e w = (some e, w)

  abbrev pub call : (W → Option Text × W) → Action W
  call operation w = let (e, w') = operation w in (report e, w')

  -- The second operation runs where the first one succeeds.
  abbrev pub proceed : Option StateError × W → Action W → Option StateError × W
  proceed (none, w) next = next w
  proceed (some e, w) next = (some e, w)

  abbrev pub load : {A : Type 0} → Found A → (A → Action W) → Action W
  load (found a) next = next a
  load (unread message) next = fail (backend message)

  abbrev pub available : {B : Type 0} → Option B → (B → Action W) → Action W
  available none next = fail unavailable
  available (some b) next = next b

  unfoldable pub replace : Backend (List TodoItem) W → List Todo → Action W
  replace store todos w = elim (replace_state todos) [
    | Todos.err e ↦ (some (invalid_todos e), w)
    | Todos.ok items ↦ call (store.write items) w
  ]

  unfoldable pub clear_todos : Backend (List TodoItem) W → Action W
  clear_todos store = call (store.write [])

  unfoldable pub clear_memory : Backend MemoryState W → Action W
  clear_memory store = call (
      store.write (record {
        entries = [];
        current_goal = [];
        important_files = [];
        decisions = [];
        open_questions = [];
      }))

  -- A change of the command evidence: what is read, changed, is written.
  unfoldable pub edit :
      (CommandEvidenceState → CommandEvidenceState) → Backend CommandEvidenceState W → Action W
  edit change store w = load (store.read w) (λ state. call (store.write (change state))) w

  -- Where there is no evidence store the change is left out.
  abbrev pub edit_if :
      (CommandEvidenceState → CommandEvidenceState)
      → Option (Backend CommandEvidenceState W)
      → Action W
  edit_if change none w = (none, w)
  edit_if change (some store) w = edit change store w

  -- A failed operation is undone by writing the old plan.
  abbrev pub or_restore : PlanBackend W → Text → Option StateError × W → Option StateError × W
  or_restore plans old (none, w) = (none, w)
  or_restore plans old (some e, w) =
      let (message, w') = plans.write old w in (some (join_rollback e message), w')

  -- WritePlanAndTodos from the first write on.
  unfoldable pub commit :
      PlanBackend W
      → Backend (List TodoItem) W
      → Option (Backend CommandEvidenceState W)
      → Text
      → Text
      → List Todo
      → Action W
  unfolding replace edit
  commit plans store evidence old plan normalized w = proceed (call (plans.write plan) w) (λ w1.
      proceed (or_restore plans old (replace store normalized w1))
        (edit_if record_plan_baseline evidence))

  unfoldable pub write_checked :
      PlanBackend W
      → Backend (List TodoItem) W
      → Option (Backend CommandEvidenceState W)
      → Text
      → List Todo
      → Action W
  unfolding commit
  write_checked plans store evidence plan todos w = elim (validate_implementation_plan plan) [
    | some e ↦ (some (invalid_plan e), w)
    | none ↦ elim (normalize_todos todos) [
      | Todos.err e ↦ (some (invalid_todos e), w)
      | Todos.ok normalized ↦
          if is_nil normalized
          then (some no_todos, w)
          else load (plans.read w) (λ old. commit plans store evidence old plan normalized) w
    ]
  ]

  unfoldable pub write_plan_and_todos : ConversationState W → Text → List Todo → Action W
  unfolding write_checked
  write_plan_and_todos s plan todos =
      available s.plan
        (λ plans. available s.todos (λ store. write_checked plans store s.evidence plan todos))

  unfoldable pub complete :
      PlanBackend W
      → Backend (List TodoItem) W
      → Option (Backend CommandEvidenceState W)
      → Text
      → Action W
  unfolding clear_todos edit
  complete plans store evidence old w = proceed (call plans.clear w) (λ w1.
      proceed (or_restore plans old (clear_todos store w1))
        (edit_if reset_review_attempts evidence))

  unfoldable pub complete_plan_implementation : ConversationState W → Action W
  unfolding complete
  complete_plan_implementation s = available s.plan (λ plans.
      available s.todos
        (λ store w. load (plans.read w) (λ old. complete plans store s.evidence old) w))

  -- The operations that pass a call on.
  unfoldable pub replace_todos : ConversationState W → List Todo → Action W
  unfolding replace
  replace_todos s todos = available s.todos (λ store. replace store todos)

  unfoldable pub update_stored_memory : ConversationState W → MemoryUpdate → Action W
  update_stored_memory s update = available s.memory (λ store w.
      load (store.read w)
        (λ stored w. elim (update_memory update stored) [
          | Memory.err e ↦ (some (invalid_memory e), w)
          | Memory.ok next ↦ call (store.write next) w
        ])
        w)

  unfoldable pub append_command_evidence :
      ConversationState W → Text → CommandEvidenceRecord → Action W
  unfolding edit
  append_command_evidence s now r = available s.evidence (edit (append_record now r))

  unfoldable pub record_command_evidence_review :
      ConversationState W → Text → CommandEvidenceReview → Action W
  unfolding edit
  record_command_evidence_review s now review =
      available s.evidence (edit (record_review now review))

  unfoldable pub reset_command_evidence_review_attempts : ConversationState W → Action W
  unfolding edit
  reset_command_evidence_review_attempts s = available s.evidence (edit reset_review_attempts)

  unfoldable pub record_mutation : ConversationState W → Text → Text → Text → Action W
  unfolding edit
  record_mutation s now tool_name recorded_at =
      available s.evidence (edit (record_workspace_mutation now tool_name recorded_at))

  unfoldable pub clear_command_evidence : ConversationState W → Action W
  clear_command_evidence s =
      available s.evidence (λ store. call (store.write empty_command_evidence_state))
