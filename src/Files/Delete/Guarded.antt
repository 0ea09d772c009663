-- ===== src/Files/Delete/Guarded.antt =====
-- Managed deletions are guarded: Delete of internal/files/delete.go.
use falken_core.Base.{◌∙◌, Bool, true, false, not, Option, none, some, ◌≡◌, refl}
use falken_core.Base.Text.{Text}
use falken_core.Policy.Rules
use falken_core.Policy.Runtime.{AccessResult, runtime_evaluate_file}
use falken_core.Files.Fallible.{ok, err, if_both, if_split, not-false, fallible_split}
use falken_core.Files.System.{
  FileSystem, IsReliable, SystemError, not_exist, other_error, Committed, done, exists_already,
  may_have_occurred, not_done,
}
use falken_core.Files.Types.{ReadToken}
use falken_core.Files.Tokens.{lookup, validate_token, same_file_version, token_for_file}
use falken_core.Files.Service.{Service, backup_existing_file}
use falken_core.Files.Write.Commits.{SameFiles, Kept, Kept-after}
use falken_core.Files.Write.Safe.{lookup-path, backup_keeps, answer_split}
use falken_core.Files.Delete.{
  DeleteStatus, deleted, delete_commit_uncertain, DeleteRequest, DeleteResult, DeleteAnswer,
  delete_refused, delete_policy_request, finish_delete, commit_delete, delete_with_token,
  delete_permitted, delete_resolved, delete_file, delete_not_found, delete_unsafe, initial_delete,
}

-- The statuses of a deletion that took place, or may have.
abbrev pub is_deletion : DeleteStatus → Bool
is_deletion deleted = true
is_deletion delete_commit_uncertain = true
is_deletion _ = false

module _ {D : Type 0} (sys : FileSystem D) where
  abbrev pub DeleteJudge : Bool → Type 0 → Type 0 → Type 0
  DeleteJudge true gone kept = gone
  DeleteJudge false gone kept = kept

  -- A result that tells of a deletion comes with G of the disk, another one with untouched files.
  abbrev pub DeleteJudged : (D → Type 0) → D → DeleteAnswer sys → Type 0
  DeleteJudged G d (err e, after) = Unit
  DeleteJudged G d (ok r, (s, d')) = DeleteJudge (is_deletion r.status) (G d') (Kept sys d d')

  -- The disk is what an unlink of the path made of it one turn of other processes after the token was
  -- right; only other processes had touched the files until then.
  abbrev pub Unlinks : D → Text → ReadToken → D → Type 0
  Unlinks d path token disk =
      (before : D) × Kept sys d before
      × (current : ReadToken) × (token_for_file sys before token.scope_id token.path none
          ≡ ok current)
      × (same_file_version token current ≡ true)
      × (disk ≡ (sys.unlink (sys.others before) path).1)

  DeleteJudged-map :
      (G H : D → Type 0) (d d' : D) (out : DeleteAnswer sys)
      → ((disk : D) → G disk → H disk)
      → SameFiles sys d d'
      → DeleteJudged G d' out
      → DeleteJudged H d out
  DeleteJudged-map G H d d' (err e, after) f same j = tt
  DeleteJudged-map G H d d' (ok r, (s, disk)) f same j = pick (is_deletion r.status) j
    where
      pick :
          (b : Bool)
          → DeleteJudge b (G disk) (Kept sys d' disk)
          → DeleteJudge b (H disk) (Kept sys d disk)
      pick true g = f disk g
      pick false kept = Kept-after sys d d' disk same kept

  finish-DeleteJudged :
      (G : D → Type 0) (s : Service) (d d' : D) (path : Text) (result : DeleteResult)
      (c : Committed)
      → G d'
      → DeleteJudged G d (finish_delete sys s d' path result c)
  unfolding finish_delete delete_refused
  finish-DeleteJudged G s d d' path result done g = g
  finish-DeleteJudged G s d d' path result (may_have_occurred reason) g = g
  finish-DeleteJudged G s d d' path result exists_already g = tt
  finish-DeleteJudged G s d d' path result (not_done reason) g = tt

  commit_delete-DeleteJudged :
      (s : Service) (d : D) (path : Text) (token : ReadToken) (result : DeleteResult)
      → DeleteJudged (Unlinks d path token) d (commit_delete sys s d path token result)
  unfolding commit_delete delete_refused
  commit_delete-DeleteJudged s d path token result =
      let P = DeleteJudged (Unlinks d path token) d in
      let before = sys.others d in
      fallible_split P (token_for_file sys before token.scope_id token.path none) _ _ (λ e h. tt)
        (λ current h.
          if_split P (not (same_file_version token current)) _ _
            (λ stale. (1, (d, (λ p o. refl), λ p o. refl)))
            (λ right.
              finish-DeleteJudged (Unlinks d path token) s d _ path result _ (
                before,
                (1, (d, (λ p o. refl), λ p o. refl)),
                current,
                h,
                not-false _ right,
                refl,
              )))

  -- What stands behind a deletion: a registered token for the path.
  abbrev pub TokenUnlinks : D → Text → Option ReadToken → D → Type 0
  TokenUnlinks d path registered disk =
      (token : ReadToken) × (registered ≡ some token) × Unlinks d path token disk

  -- What stands behind a deletion that took place, or may have.
  abbrev pub IsDeletable : Service → DeleteRequest → D → D → Type 0
  IsDeletable s request d disk =
      (path : Text) × (access : AccessResult) × (sys.resolve_existing d request.current_working_dir
          request.path
        ≡ ok path)
      × ((runtime_evaluate_file s.policy (delete_policy_request request path)).0 ≡ Rules.ok access)
      × (access.allowed ≡ true)
      × ((token : ReadToken) × (lookup s.tokens path ≡ some token)
          × (token.path ≡ path)
          × Unlinks d path token disk)

  module _ (reliable : IsReliable sys) where
    delete_with_token-DeleteJudged :
        (s : Service) (d : D) (path : Text) (token : ReadToken) (result : DeleteResult)
        → DeleteJudged (Unlinks d path token) d (delete_with_token sys s d path token result)
    unfolding delete_with_token
    delete_with_token-DeleteJudged s d path token result =
        let P = DeleteJudged (Unlinks d path token) d in
        fallible_split P (backup_existing_file sys s d path).0 _ _ (λ e h. tt)
          (λ backup h.
            DeleteJudged-map (Unlinks (backup_existing_file sys s d path).1 path token)
              (Unlinks d path token) d (backup_existing_file sys s d path).1 _
              (λ disk (before, kept, current, found, right, made). (
                before,
                Kept-after sys d (backup_existing_file sys s d path).1 before
                    (backup_keeps sys reliable s d path) kept,
                current,
                found,
                right,
                made,
              ))
              (backup_keeps sys reliable s d path)
              (commit_delete-DeleteJudged s _ path token
                (record result { backup_created = true; backup_path = backup })))

    delete_permitted-DeleteJudged :
        (s : Service) (d : D) (path : Text) (registered : Option ReadToken) (result : DeleteResult)
        → DeleteJudged
            (TokenUnlinks d path registered)
            d
            (delete_permitted sys s d path registered result)
    unfolding delete_permitted delete_refused
    delete_permitted-DeleteJudged s d path none result = (0, λ p o. refl)
    delete_permitted-DeleteJudged s d path (some token) result =
        let P = DeleteJudged (TokenUnlinks d path (some token)) d in
        fallible_split P (validate_token sys d (some token)) _ _ (λ e h. tt)
          (λ v h. if_both P (not v.found) _ _ ((0, λ p o. refl)) (
            if_both P (not v.matches) _ _ ((0, λ p o. refl)) (
              DeleteJudged-map (Unlinks d path token) (TokenUnlinks d path (some token)) d d
                (delete_with_token sys s d path token result) (λ disk u. (token, refl, u))
                (λ p o. refl) (delete_with_token-DeleteJudged s d path token result))))

    delete_resolved-DeleteJudged :
        (s : Service) (d : D) (request : DeleteRequest) (path : Text) (result : DeleteResult)
        → sys.resolve_existing d request.current_working_dir request.path ≡ ok path
        → DeleteJudged (IsDeletable s request d) d (delete_resolved sys s d request path result)
    unfolding delete_resolved delete_refused
    delete_resolved-DeleteJudged s d request path result place =
        let P = DeleteJudged (IsDeletable s request d) d in
        let answer = runtime_evaluate_file s.policy (delete_policy_request request path) in
        let s' : Service = record s { policy = answer.1 } in
        let whole =
          reliable.resolve_keeps_clean d request.current_working_dir request.path path place in
        fallible_split P (sys.stat d path) _ _ (λ e h. tt)
          (λ info h. if_both P info.is_dir _ _ ((0, λ p o. refl)) (
            answer_split P answer.0 _ _ (λ e. tt)
              (λ access leave.
                if_split P (not access.allowed) _ _ (λ no. (0, λ p o. refl))
                  (λ allowed.
                    DeleteJudged-map (TokenUnlinks d path (lookup s.tokens path))
                      (IsDeletable s request d) d d _
                      (λ disk (token, l, u). (
                        path,
                        access,
                        place,
                        leave,
                        not-false _ allowed,
                        (token, l, lookup-path s.tokens path token l ∙ whole, u),
                      ))
                      (λ p o. refl)
                      (delete_permitted-DeleteJudged s' d path (lookup s.tokens path)
                        (record result { policy = some access }))))))

    -- A managed deletion whose result tells that it took place, or may have, has the leave of the
    -- policy for the path that the workspace has for the request's, and a registered token of that
    -- very path, which was right one turn of other processes before the unlink of the path that made
    -- the disk what it is and until which only other processes had touched the files. After any other
    -- result the files, but for the service's own backups, are as they were, or as turns of other
    -- processes left them. The primitives are reliable. Where an error is returned in place of a
    -- result, nothing is said of the files.
    pub delete_file_guarded :
        (s : Service) (d : D) (request : DeleteRequest)
        → DeleteJudged (IsDeletable s request d) d (delete_file sys s d request)
    unfolding delete_file delete_refused
    delete_file_guarded s d request =
        let P = DeleteJudged (IsDeletable s request d) d in
        fallible_split P (sys.resolve_existing d request.current_working_dir request.path) _ _
          (λ e h. refused e)
          (λ path h.
            delete_resolved-DeleteJudged s d request path
              (record (initial_delete request) { resolved_path = path }) h)
      where
        refused :
            (e : SystemError)
            → DeleteJudged (IsDeletable s request d) d (elim e [
              | not_exist reason ↦
                  (ok (delete_refused (initial_delete request) delete_not_found reason), (s, d))
              | other_error reason ↦
                  (ok (delete_refused (initial_delete request) delete_unsafe reason), (s, d))
            ])
        refused (not_exist reason) = (0, λ p o. refl)
        refused (other_error reason) = (0, λ p o. refl)
