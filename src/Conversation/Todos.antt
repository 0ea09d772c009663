-- ===== src/Conversation/Todos.antt =====
-- The checklist of a conversation, internal/conversation/todos.go and internal/store/todos.go.
pub mod Checklist
pub mod Storage
use falken_core.Base.{
  ℕ, zero, suc, ◌+◌, List, [], ◌∷◌, ◌++◌, Bool, true, false, ◌||◌, Option, none, some, ◌≡◌, refl,
  if◌then◌else◌, length, is_nil, map, ltb,
}
use falken_core.Base.Text.{Text, codes, text_eq, trim_space, has_key, trim_left, trim_right}

abbrev pub max_todos : ℕ
max_todos = 20

abbrev pub max_todo_id_length : ℕ
max_todo_id_length = 64

abbrev pub max_todo_content_length : ℕ
max_todo_content_length = 300

-- A status is a string; three of them are known.
abbrev pub TodoStatus : Type 0
TodoStatus = Text

abbrev pub todo_status_pending : TodoStatus
todo_status_pending = codes "pending"

abbrev pub todo_status_in_progress : TodoStatus
todo_status_in_progress = codes "in_progress"

abbrev pub todo_status_completed : TodoStatus
todo_status_completed = codes "completed"

pub record Todo : Type 0 where
  pub id : Text
  pub content : Text
  pub status : TodoStatus

pub record TodoItem : Type 0 where
  pub id : Text
  pub content : Text
  pub status : Text
  pub text : Text
  pub done : Bool

pub data ItemError : Type 0 where
  missing_id id_too_long missing_content content_too_long : ItemError
  unknown_status : Text → ItemError

-- The errors of a list; the number is the index of the item, or the count.
pub data TodoError : Type 0 where
  too_many : ℕ → TodoError
  invalid_todo : ℕ → ItemError → TodoError
  duplicate_id : ℕ → Text → TodoError
  multiple_in_progress : ℕ → TodoError
  invalid_item : ℕ → ItemError → TodoError

pub data Result {ℓ} (A : Type ℓ) : Type ℓ where
  ok : A → Result A
  err : TodoError → Result A

infixl 5 ◌>>=◌
-- An error ends the chain.
abbrev pub ◌>>=◌ {ℓ κ} :
    {A : Type ℓ} {B : Type κ} (result : Result A) (next : A → Result B) → Result B
result >>= next = elim result [ err failure ↦ err failure | ok value ↦ next value ]

unfoldable pub known_status : TodoStatus → Bool
unfolding text_eq
known_status status =
    text_eq status todo_status_pending
    || text_eq status todo_status_in_progress
    || text_eq status todo_status_completed

unfoldable pub validate_todo : Todo → Option ItemError
unfolding known_status
validate_todo todo =
    if is_nil (trim_space todo.id)
    then some missing_id
    else if ltb max_todo_id_length (length todo.id)
    then some id_too_long
    else if is_nil (trim_space todo.content)
    then some missing_content
    else if ltb max_todo_content_length (length todo.content)
    then some content_too_long
    else if known_status todo.status
    then none
    else some (unknown_status todo.status)

unfoldable pub normalize_todo : Todo → Todo
normalize_todo todo = record todo { id = trim_space todo.id; content = trim_space todo.content }

unfoldable pub is_in_progress : Todo → Bool
is_in_progress todo = text_eq todo.status todo_status_in_progress

-- The loop of NormalizeTodos from the index `i`, with the identifiers seen and the items in progress.
unfoldable pub normalize_from : ℕ → List Text → ℕ → List Todo → Result (List Todo)
unfolding validate_todo normalize_todo is_in_progress has_key
normalize_from i seen in_progress [] =
    if ltb 1 in_progress then err (multiple_in_progress in_progress) else ok []
normalize_from i seen in_progress (item ∷ items) =
    let todo = normalize_todo item in
    let rest =
      normalize_from (i + 1) (todo.id ∷ seen)
        (if is_in_progress todo then in_progress + 1 else in_progress) items in
    elim (validate_todo todo) [
      | some e ↦ err (invalid_todo i e)
      | none ↦
          if has_key todo.id seen
          then err (duplicate_id i todo.id)
          else (do todos ← rest; ok (todo ∷ todos))
    ]

unfoldable pub normalize_todos : List Todo → Result (List Todo)
unfolding normalize_from
normalize_todos todos =
    if ltb max_todos (length todos)
    then err (too_many (length todos))
    else normalize_from 0 [] 0 todos

unfoldable pub todo_from_store_item : TodoItem → Todo
todo_from_store_item item = record {
  id = item.id;
  content = if is_nil item.content then item.text else item.content;
  status =
      if is_nil item.status
      then (if item.done then todo_status_completed else todo_status_pending)
      else item.status;
}

unfoldable pub todo_to_store_item : Todo → TodoItem
todo_to_store_item todo = record {
  id = todo.id;
  content = todo.content;
  status = todo.status;
  text = todo.content;
  done = text_eq todo.status todo_status_completed;
}

-- The items of a stored state, each of them valid as it is stored.
unfoldable pub read_items : ℕ → List TodoItem → Result (List Todo)
unfolding todo_from_store_item
read_items i [] = ok []
read_items i (item ∷ items) =
    let todo = todo_from_store_item item in
    let rest = read_items (i + 1) items in
    elim (validate_todo todo) [
      | some e ↦ err (invalid_item i e)
      | none ↦ do todos ← rest; ok (todo ∷ todos)
    ]

-- Read and Replace, but for the store's own errors.
unfoldable pub read_state : List TodoItem → Result (List Todo)
unfolding read_items
read_state items = do todos ← read_items 0 items; normalize_todos todos

unfoldable pub replace_state : List Todo → Result (List TodoItem)
replace_state todos = do normalized ← normalize_todos todos; ok (map todo_to_store_item normalized)
