-- ===== src/Conversation/Memory.antt =====
-- The memory of a conversation, internal/conversation/memory.go.
pub mod Entries
pub mod Updates
use falken_core.Base.{
  ℕ, zero, suc, ◌+◌, List, [], ◌∷◌, ◌++◌, Bool, true, false, not, ◌&&◌, ◌||◌, Option, none, some,
  if◌then◌else◌, is_nil, length, ltb,
}
use falken_core.Base.Text.{Text, trim_space, has_key}

abbrev pub max_current_goal_runes : ℕ
max_current_goal_runes = 500

-- maxMemoryEntries, maxImportantFiles, maxMemoryDecisions and maxOpenQuestions
abbrev pub max_items : ℕ
max_items = 50

-- maxMemoryEntryRunes, maxMemoryDecisionRunes and maxOpenQuestionRunes
abbrev pub max_item_runes : ℕ
max_item_runes = 500

abbrev pub max_important_file_runes : ℕ
max_important_file_runes = 300

pub record MemoryState : Type 0 where
  pub entries : List Text
  pub current_goal : Text
  pub important_files : List Text
  pub decisions : List Text
  pub open_questions : List Text

pub record MemoryUpdate : Type 0 where
  pub current_goal : Text
  pub clear_current_goal : Bool
  pub add_entries : List Text
  pub remove_entries : List Text
  pub add_important_files : List Text
  pub remove_important_files : List Text
  pub add_decisions : List Text
  pub remove_decisions : List Text
  pub add_open_questions : List Text
  pub remove_open_questions : List Text

pub data Field : Type 0 where
  entries important_files decisions open_questions : Field

-- The numbers are the count of the items, or the index of one.
pub data MemoryError : Type 0 where
  current_goal_too_long : MemoryError
  too_many_items : Field → ℕ → MemoryError
  item_too_long : Field → ℕ → MemoryError

pub data Result {ℓ} (A : Type ℓ) : Type ℓ where
  ok : A → Result A
  err : MemoryError → Result A

-- The loop of normalizeMemoryList, with the values seen.
unfoldable pub normalize_from : List Text → List Text → List Text
unfolding has_key
normalize_from seen [] = []
normalize_from seen (value ∷ values) =
    let trimmed = trim_space value in
    let skip = is_nil trimmed || has_key trimmed seen in
    let rest = normalize_from (if skip then seen else trimmed ∷ seen) values in
    if skip then rest else trimmed ∷ rest

unfoldable pub normalize_memory_list : List Text → List Text
unfolding normalize_from
normalize_memory_list values = normalize_from [] values

unfoldable pub without : List Text → List Text → List Text
unfolding has_key
without removed [] = []
without removed (value ∷ values) =
    let rest = without removed values in if has_key value removed then rest else value ∷ rest

unfoldable pub merge_memory_list : List Text → List Text → List Text → List Text
unfolding normalize_memory_list without
merge_memory_list existing add remove = normalize_memory_list (
    without (normalize_memory_list remove)
      (normalize_memory_list existing ++ normalize_memory_list add))

unfoldable pub normalize_memory : MemoryState → MemoryState
normalize_memory memory = record {
  entries = normalize_memory_list memory.entries;
  current_goal = trim_space memory.current_goal;
  important_files = normalize_memory_list memory.important_files;
  decisions = normalize_memory_list memory.decisions;
  open_questions = normalize_memory_list memory.open_questions;
}

first_too_long : Field → ℕ → ℕ → List Text → Option MemoryError
first_too_long field max_runes i [] = none
first_too_long field max_runes i (value ∷ values) =
    let rest = first_too_long field max_runes (i + 1) values in
    if ltb max_runes (length value) then some (item_too_long field i) else rest

unfoldable pub validate_memory_list : Field → List Text → ℕ → ℕ → Option MemoryError
unfolding first_too_long
validate_memory_list field values max_count max_runes =
    if ltb max_count (length values)
    then some (too_many_items field (length values))
    else first_too_long field max_runes 0 values

-- The first error of a chain of checks.
abbrev pub or_else : Option MemoryError → Option MemoryError → Option MemoryError
or_else none later = later
or_else (some e) later = some e

unfoldable pub validate_memory : MemoryState → Option MemoryError
unfolding normalize_memory validate_memory_list
validate_memory memory =
    let m = normalize_memory memory in
    if ltb max_current_goal_runes (length m.current_goal)
    then some current_goal_too_long
    else or_else (validate_memory_list Field.entries m.entries max_items max_item_runes) (
        or_else
          (validate_memory_list Field.important_files m.important_files max_items
            max_important_file_runes)
          (or_else (validate_memory_list Field.decisions m.decisions max_items max_item_runes)
            (validate_memory_list Field.open_questions m.open_questions max_items max_item_runes)))

unfoldable pub is_memory_empty : MemoryState → Bool
unfolding normalize_memory
is_memory_empty memory =
    let m = normalize_memory memory in
    is_nil m.current_goal
    && (is_nil m.entries
        && (is_nil m.important_files && (is_nil m.decisions && is_nil m.open_questions)))

abbrev pub checked : Option MemoryError → MemoryState → Result MemoryState
checked none memory = ok memory
checked (some e) memory = err e

-- Read, but for the store's own error.
unfoldable pub read_memory : MemoryState → Result MemoryState
read_memory stored =
    let m = normalize_memory stored in checked (validate_memory m) (normalize_memory m)

unfoldable pub apply_update : MemoryUpdate → MemoryState → MemoryState
apply_update update current =
    let next = normalize_memory current in
    normalize_memory (record {
      current_goal =
          if update.clear_current_goal
          then []
          else if not (is_nil (trim_space update.current_goal))
          then update.current_goal
          else next.current_goal;
      entries = merge_memory_list next.entries update.add_entries update.remove_entries;
      important_files =
          merge_memory_list next.important_files update.add_important_files
            update.remove_important_files;
      decisions = merge_memory_list next.decisions update.add_decisions update.remove_decisions;
      open_questions =
          merge_memory_list next.open_questions update.add_open_questions
            update.remove_open_questions;
    })

-- Update, but for the store's own errors: what it writes. It returns a normalized copy of that.
unfoldable pub update_memory : MemoryUpdate → MemoryState → Result MemoryState
update_memory update stored = elim (read_memory stored) [
  | err e ↦ err e
  | ok current ↦ let next = apply_update update current in checked (validate_memory next) next
]
