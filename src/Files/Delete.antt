-- ===== src/Files/Delete.antt =====
-- Delete of internal/files/delete.go.
pub mod Guarded
use falken_core.Base.{
  ℕ, [], ◌∷◌, List, Bool, true, false, not, Option, none, some, ◌≡◌, refl, if◌then◌else◌,
}
use falken_core.Base.Text.{Text, codes}
use falken_core.Policy.Rules.{file_access_write, FileRequest}
use falken_core.Policy.Rules
use falken_core.Policy.Runtime.{AccessResult, runtime_evaluate_file}
use falken_core.Files.Fallible.{Fallible, ok, err}
use falken_core.Files.System.{
  FileSystem, FileInfo, SystemError, not_exist, other_error, message, Committed, done,
  exists_already, may_have_occurred, not_done,
}
use falken_core.Files.Types.{ReadToken}
use falken_core.Files.Tokens.{forget, same_file_version, token_for_file, validate_token, lookup}
use falken_core.Files.Service.{Service, backup_existing_file}

pub data DeleteStatus : Type 0 where
  delete_unset deleted delete_denied delete_unsafe delete_not_found delete_directory : DeleteStatus
  delete_missing_read_token delete_stale_read_token delete_commit_uncertain : DeleteStatus

pub record DeleteRequest : Type 0 where
  pub path : Text
  pub current_working_dir : Text
  pub approval_required : Bool

pub record DeleteResult : Type 0 where
  pub status : DeleteStatus
  pub path : Text
  pub resolved_path : Text
  pub is_deleted : Bool
  pub backup_created : Bool
  pub backup_path : Text
  pub policy : Option AccessResult
  pub mutation_may_have_occurred : Bool
  pub error : Text

unfoldable pub delete_refused : DeleteResult → DeleteStatus → Text → DeleteResult
delete_refused result status reason = record result { status = status; error = reason }

unfoldable pub delete_policy_request : DeleteRequest → Text → FileRequest
delete_policy_request request path = record {
  path = path;
  mode = file_access_write;
  approval_required = request.approval_required;
}

abbrev pub initial_delete : DeleteRequest → DeleteResult
initial_delete request = record {
  status = delete_unset;
  path = request.path;
  resolved_path = [];
  is_deleted = false;
  backup_created = false;
  backup_path = [];
  policy = none;
  mutation_may_have_occurred = false;
  error = [];
}

module _ {D : Type 0} (sys : FileSystem D) where
  abbrev pub DeleteAnswer : Type 0
  DeleteAnswer = Fallible Text DeleteResult × (Service × D)

  -- What the unlink was, as a result.
  unfoldable pub finish_delete : Service → D → Text → DeleteResult → Committed → DeleteAnswer
  unfolding forget delete_refused
  finish_delete s d path result done = (
    ok (record result { status = deleted; is_deleted = true }),
    (record s { tokens = forget s.tokens path }, d),
  )
  finish_delete s d path result (may_have_occurred reason) = (
    ok (record (delete_refused result delete_commit_uncertain reason) {
      is_deleted = true;
      mutation_may_have_occurred = true;
    }),
    (s, d),
  )
  finish_delete s d path result exists_already = (err (codes "delete file"), (s, d))
  finish_delete s d path result (not_done reason) = (err reason, (s, d))

  -- The second check of the token, after a turn of other processes, and after another one the unlink.
  unfoldable pub commit_delete : Service → D → Text → ReadToken → DeleteResult → DeleteAnswer
  unfolding token_for_file same_file_version delete_refused finish_delete
  commit_delete s d path expected result =
      let d' = sys.others d in
      let (committed, d'') = sys.unlink (sys.others d') path in
      elim (token_for_file sys d' expected.scope_id expected.path none) [
        | err e ↦ (err (message e), (s, d'))
        | ok current ↦
            if not (same_file_version expected current)
            then (
              ok (
                  delete_refused result delete_stale_read_token
                    (codes "target changed before commit")),
              (s, d'),
            )
            else finish_delete s d'' path result committed
      ]

  -- The backup of a file whose token is right.
  unfoldable pub delete_with_token : Service → D → Text → ReadToken → DeleteResult → DeleteAnswer
  unfolding backup_existing_file commit_delete
  delete_with_token s d path expected result =
      let (backup, d') = backup_existing_file sys s d path in
      elim backup [
        | err e ↦ (err e, (s, d'))
        | ok backup_path ↦
            commit_delete s d' path expected
              (record result { backup_created = true; backup_path = backup_path })
      ]

  -- The check of the registered token, if there is one.
  unfoldable pub delete_permitted :
      Service → D → Text → Option ReadToken → DeleteResult → DeleteAnswer
  unfolding validate_token delete_refused delete_with_token
  delete_permitted s d path registered result = elim (validate_token sys d registered) [
    | err e ↦ (err (message e), (s, d))
    | ok validation ↦
        if not validation.found
        then (ok (delete_refused result delete_missing_read_token validation.reason), (s, d))
        else if not validation.matches
        then (ok (delete_refused result delete_stale_read_token validation.reason), (s, d))
        else elim registered [
          | none ↦ (ok (delete_refused result delete_missing_read_token validation.reason), (s, d))
          | some token ↦ delete_with_token s d path token result
        ]
  ]

  unfoldable pub delete_resolved : Service → D → DeleteRequest → Text → DeleteResult → DeleteAnswer
  unfolding delete_refused lookup delete_permitted
  delete_resolved s d request path result =
      let (answer, engine) = runtime_evaluate_file s.policy (delete_policy_request request path) in
      let s' : Service = record s { policy = engine } in
      elim (sys.stat d path) [
        | err e ↦ (err (message e), (s, d))
        | ok info ↦
            if info.is_dir
            then (ok (delete_refused result delete_directory (codes "path is a directory")), (s, d))
            else elim answer [
              | Rules.err e ↦ (err (codes "evaluate file delete policy"), (s', d))
              | Rules.ok access ↦
                  let result' : DeleteResult = record result { policy = some access } in
                  if not access.allowed
                  then (ok (delete_refused result' delete_denied access.explanation), (s', d))
                  else delete_permitted s' d path (lookup s'.tokens path) result'
            ]
      ]

  unfoldable pub delete_file : Service → D → DeleteRequest → DeleteAnswer
  unfolding delete_refused delete_resolved
  delete_file s d request =
      let result = initial_delete request in
      elim (sys.resolve_existing d request.current_working_dir request.path) [
        | err (not_exist reason) ↦ (ok (delete_refused result delete_not_found reason), (s, d))
        | err (other_error reason) ↦ (ok (delete_refused result delete_unsafe reason), (s, d))
        | ok path ↦ delete_resolved s d request path (record result { resolved_path = path })
      ]
