-- ===== src/Conversation/Memory/Updates.antt =====
-- What an update of internal/conversation/memory.go stores.
use falken_core.Base.{not, ◌&&◌, ◌||◌, Option, none, some, ◌≡◌, refl, ap, ◌∙◌, arith, is_nil}
use falken_core.Base.Text.{Text, has_key}
use falken_core.Base.Text.Laws.{trim_space_idem}
use falken_core.Conversation.Memory.{
  MemoryState, MemoryUpdate, ok, normalize_memory, validate_memory, read_memory, apply_update,
  update_memory, checked, MemoryError,
}
use falken_core.Conversation.Memory.Entries.{
  written, normalize_list-IsNormal, merge-normalize_exact,
}

-- Normalized memory is normalized to itself.
pub normalize_memory_idem :
    (m : MemoryState) → normalize_memory (normalize_memory m) ≡ normalize_memory m
unfolding normalize_memory
normalize_memory_idem m = ground (
  arith,
  (normalize_list-IsNormal m.entries).1,
  (normalize_list-IsNormal m.important_files).1,
  (normalize_list-IsNormal m.decisions).1,
  (normalize_list-IsNormal m.open_questions).1,
  trim_space_idem m.current_goal,
)

apply-normal :
    (update : MemoryUpdate) (current : MemoryState)
    → normalize_memory (apply_update update current) ≡ apply_update update current
unfolding apply_update
apply-normal update current = normalize_memory_idem _

checked-ok :
    (o : Option MemoryError) (m n : MemoryState) → checked o m ≡ ok n → (o ≡ none) × (m ≡ n)
checked-ok none m n h = ground arith
checked-ok (some e) m n h = absurd (cc)

-- The parts of an update that succeeds.
update-ok :
    (update : MemoryUpdate) (stored next : MemoryState)
    → update_memory update stored ≡ ok next
    → (validate_memory next ≡ none) × (next ≡ apply_update update (normalize_memory stored))
unfolding update_memory read_memory
update-ok update stored next h =
    elim (validate_memory (normalize_memory stored))
        as (λ o.
          o ≡ validate_memory (normalize_memory stored)
          → (validate_memory next ≡ none)
            × (next ≡ apply_update update (normalize_memory stored))) [
              | some e ↦ λ bad. absurd (cc)
              | none ↦ λ fine.
                  let current = normalize_memory (normalize_memory stored) in
                  let (valid, same) =
                    checked-ok (validate_memory (apply_update update current))
                      (apply_update update current) next (ground arith) in
                  (rw (same) at valid, ground (arith, normalize_memory_idem stored))
            ]
      refl

-- What an update stores passes validation when it is read, and is read unchanged.
pub read-update :
    (update : MemoryUpdate) (stored next : MemoryState)
    → update_memory update stored ≡ ok next
    → read_memory next ≡ ok next
unfolding read_memory
read-update update stored next h =
    let (valid, same) = update-ok update stored next h in
    let normal : normalize_memory next ≡ next =
      rw same (apply-normal update (normalize_memory stored)) in
    rw (normal, normal, valid)

-- After an update each list holds exactly the values, up to blanks around them, that were written
-- in it or are added to it, and that are not removed from it.
pub update_lists :
    (k : Text) (update : MemoryUpdate) (stored next : MemoryState)
    → update_memory update stored ≡ ok next
    → (has_key k next.entries ≡ (
        not (is_nil k)
        && ((written k stored.entries || written k update.add_entries)
            && not (written k update.remove_entries))))
      × (has_key k next.important_files ≡ (
          not (is_nil k)
          && ((written k stored.important_files || written k update.add_important_files)
              && not (written k update.remove_important_files))))
      × (has_key k next.decisions ≡ (
          not (is_nil k)
          && ((written k stored.decisions || written k update.add_decisions)
              && not (written k update.remove_decisions))))
      × (has_key k next.open_questions ≡ (
          not (is_nil k)
          && ((written k stored.open_questions || written k update.add_open_questions)
              && not (written k update.remove_open_questions))))
unfolding apply_update normalize_memory
update_lists k update stored next h =
    let same = (update-ok update stored next h).1 in
    (
      ap (λ (m : MemoryState). has_key k m.entries) same
          ∙ merge-normalize_exact k stored.entries update.add_entries update.remove_entries,
      ap (λ (m : MemoryState). has_key k m.important_files) same
          ∙ merge-normalize_exact k stored.important_files update.add_important_files
              update.remove_important_files,
      ap (λ (m : MemoryState). has_key k m.decisions) same
          ∙ merge-normalize_exact k stored.decisions update.add_decisions update.remove_decisions,
      ap (λ (m : MemoryState). has_key k m.open_questions) same
          ∙ merge-normalize_exact k stored.open_questions update.add_open_questions
              update.remove_open_questions,
    )
