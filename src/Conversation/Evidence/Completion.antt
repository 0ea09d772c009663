-- ===== src/Conversation/Evidence/Completion.antt =====
-- The completion gate of internal/conversation/command_evidence.go.
use falken_core.Base.{List, [], ◌∷◌, Bool, true, not, ◌&&◌, ◌||◌, ◌≡◌, refl, is_nil, arith}
use falken_core.Base.Int.{ℤ, is_positive}
use falken_core.Base.Text.{codes, text_eq}
use falken_core.Conversation.Todos.{Todo, todo_status_completed}
use falken_core.Conversation.Evidence.{
  CommandEvidenceReview, incomplete_todo_details, completion_decision_from_review,
}

unfoldable pub all_completed : List Todo → Bool
all_completed [] = true
all_completed (todo ∷ todos) = text_eq todo.status todo_status_completed && all_completed todos

details-all : (todos : List Todo) → is_nil (incomplete_todo_details todos) ≡ all_completed todos
unfolding incomplete_todo_details all_completed
details-all [] = refl
details-all (todo ∷ todos) = ground (arith, details-all todos)

-- A submission is accepted exactly if every item is completed, and the review was sufficient or not
-- applicable or an attempt has been made before; and it is accepted with a warning exactly if only
-- the earlier attempt lets it pass.
pub accepted_exact :
    (todos : List Todo) (review : CommandEvidenceReview) (attempts : ℤ)
    → ((completion_decision_from_review todos review attempts).is_accepted ≡ (
        all_completed todos
        && (text_eq review.verdict (codes "sufficient")
            || text_eq review.verdict (codes "not_applicable")
            || is_positive attempts)))
      × (is_nil (completion_decision_from_review todos review attempts).warnings
          ≡ not (
              all_completed todos
              && (not (
                    text_eq review.verdict (codes "sufficient")
                    || text_eq review.verdict (codes "not_applicable"))
                  && is_positive attempts)))
unfolding completion_decision_from_review
accepted_exact todos review attempts =
    (ground (arith, details-all todos), ground (arith, details-all todos))
