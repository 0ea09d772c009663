-- ===== src/Conversation/Todos/Storage.antt =====
-- A checklist is read back as it was stored, internal/conversation/todos.go.
use falken_core.Base.{
  ◌⊎◌, inl, inr, subst, if◌then◌else◌, ℕ, ◌+◌, List, [], ◌∷◌, true, false, none, ◌≡◌, refl, ap, sym,
  ◌∙◌, is_nil, map, arith,
}
use falken_core.Base.Text.{Text, text_eq, trim_space, trim_left, trim_right}
use falken_core.Base.Text.Laws.{trim_space_idem}
use falken_core.Conversation.Todos.{
  Todo, TodoItem, ok, validate_todo, normalize_todo, known_status, normalize_todos,
  todo_status_completed, todo_status_pending, todo_from_store_item, todo_to_store_item, read_items,
  read_state, replace_state,
}
use falken_core.Conversation.Todos.Checklist.{IsFresh, normalize_exact, bind_ok}

trim-nil : (s : Text) → is_nil s ≡ true → is_nil (trim_space s) ≡ true
unfolding trim_space trim_left trim_right
trim-nil [] h = refl
trim-nil (c ∷ s) h = cc

status-nil : (s : Text) → is_nil s ≡ true → known_status s ≡ false
unfolding known_status text_eq
status-nil [] h = refl
status-nil (c ∷ s) h = cc

-- An item as it is stored, or in its older form: with its text in place of its content, or with its flag
-- in place of a status that the flag tells.
abbrev pub IsOlder : TodoItem → TodoItem → Type 0
IsOlder item older =
    (older.id ≡ item.id)
    × ((older.content ≡ item.content) ⊎ ((older.content ≡ []) × (older.text ≡ item.content)))
    × ((older.status ≡ item.status)
        ⊎ ((older.status ≡ [])
            × (item.status ≡ (if older.done then todo_status_completed else todo_status_pending))))

abbrev pub AreOlder : List TodoItem → List TodoItem → Type 0
AreOlder [] [] = Unit
AreOlder [] (o ∷ older) = ⊥
AreOlder (item ∷ items) [] = ⊥
AreOlder (item ∷ items) (o ∷ older) = IsOlder item o × AreOlder items older

-- A valid item comes back from its stored form, and from its older one.
from-to :
    (t : Todo) (older : TodoItem)
    → IsOlder (todo_to_store_item t) older
    → validate_todo t ≡ none
    → todo_from_store_item older ≡ t
unfolding todo_from_store_item todo_to_store_item validate_todo
from-to t older (id, inl content, inl status) h =
    ground (arith, trim-nil t.content, status-nil t.status)
from-to t older (id, inl content, inr (blank, status)) h =
    ground (arith, trim-nil t.content, status-nil t.status)
from-to t older (id, inr (blank, content), inl status) h =
    ground (arith, trim-nil t.content, status-nil t.status)
from-to t older (id, inr (blank, content), inr (blank', status)) h =
    ground (arith, trim-nil t.content, status-nil t.status)

items-back :
    (i : ℕ) (seen : List Text) (us : List Todo) (older : List TodoItem)
    → AreOlder (map todo_to_store_item us) older
    → IsFresh seen us
    → read_items i older ≡ ok us
unfolding read_items
items-back i seen [] [] old h = refl
items-back i seen [] (o ∷ older) old h = absurd old
items-back i seen (t ∷ us) [] old h = absurd old
items-back i seen (t ∷ us) (o ∷ older) old h =
    ground (arith, from-to t o old.0 h.0, h.0, items-back (i + 1) (t.id ∷ seen) us older old.1 h.2)

normalize_idem : (t : Todo) → normalize_todo (normalize_todo t) ≡ normalize_todo t
unfolding normalize_todo
normalize_idem t = ground (arith, trim_space_idem t.id, trim_space_idem t.content)

map-normalize_idem :
    (ts : List Todo) → map normalize_todo (map normalize_todo ts) ≡ map normalize_todo ts
map-normalize_idem [] = refl
map-normalize_idem (t ∷ ts) = cc (normalize_idem t, map-normalize_idem ts)

-- A normalized checklist is normalized to itself.
pub normalize_todos_idem :
    (ts us : List Todo) → normalize_todos ts ≡ ok us → normalize_todos us ≡ ok us
normalize_todos_idem ts us h =
    let (same, c) = (normalize_exact ts us).0 h in
    (normalize_exact us us).1
      (same ∙ (sym (map-normalize_idem ts)) ∙ ap (map normalize_todo) (sym same), c)

-- What Replace stores, Read returns: the trimmed items, in their order; and the same where stored items
-- are replaced by older forms of them, which have their content as the text only, or a status that their
-- flag alone tells.
pub read-replace :
    (ts : List Todo) (items older : List TodoItem)
    → replace_state ts ≡ ok items
    → AreOlder items older
    → read_state older ≡ ok (map normalize_todo ts)
unfolding replace_state read_state
read-replace ts items older h old =
    let (us, n, e) = bind_ok (normalize_todos ts) (λ us. ok (map todo_to_store_item us)) h in
    let (same, c) = (normalize_exact ts us).0 n in
    let stored : map todo_to_store_item us ≡ items = cc e in
    let old' = subst (λ items'. AreOlder items' older) (sym stored) old in
    rw (items-back 0 [] us older old' c.fresh, ← same) (normalize_todos_idem ts us n)
