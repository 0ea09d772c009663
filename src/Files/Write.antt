-- ===== src/Files/Write.antt =====
-- Write of internal/files/write.go. The text of an error that another one wraps is left out.
pub mod Commits
pub mod Safe
use falken_core.Base.{
  ℕ, ◌+◌, ◌%◌, [], ◌∷◌, ◌++◌, List, Bool, true, false, not, ◌&&◌, ◌||◌, Option, none, some, ◌≡◌,
  refl, if◌then◌else◌, ◌==◌, is_nil,
}
use falken_core.Base.Text.{Text, codes, byte_length}
use falken_core.Policy.Rules.{
  FileAccessMode, file_access_write, file_access_create, FileRequest, Engine,
}
use falken_core.Policy.Rules
use falken_core.Policy.Runtime.{AccessResult, runtime_evaluate_file}
use falken_core.Files.Fallible.{Fallible, ok, err, and_then}
use falken_core.Files.System.{
  FileSystem, FileInfo, SystemError, not_exist, other_error, message, Committed, done,
  exists_already, may_have_occurred, not_done,
}
use falken_core.Files.Types.{
  ReadToken, WriteOperation, write_unset, write_create, write_overwrite, write_create_or_overwrite,
  write_other, WriteStatus, status_created, status_overwritten, status_denied, status_unsafe,
  status_already_exists, status_not_found, status_directory, status_missing_read_token,
  status_stale_read_token, status_secret_rejected, status_invalid_operation,
  status_commit_uncertain, WriteRequest, WriteResult, empty_write,
}
use falken_core.Files.Secrets.{scan_secret_content}
use falken_core.Files.Tokens.{
  TokenRegistry, record_token, same_file_version, token_for_file, validate_current,
}
use falken_core.Files.Service.{Service, backup_existing_file}

unfoldable pub is_valid_write_operation : WriteOperation → Bool
is_valid_write_operation write_create = true
is_valid_write_operation write_overwrite = true
is_valid_write_operation write_create_or_overwrite = true
is_valid_write_operation _ = false

abbrev pub default_operation : WriteOperation → WriteOperation
default_operation write_unset = write_create_or_overwrite
default_operation operation = operation

abbrev pub is_create : WriteOperation → Bool
is_create write_create = true
is_create _ = false

abbrev pub is_overwrite : WriteOperation → Bool
is_overwrite write_overwrite = true
is_overwrite _ = false

unfoldable pub write_access_mode : Bool → FileAccessMode
write_access_mode exists = if exists then file_access_write else file_access_create

-- The permission bits are the lowest nine.
unfoldable pub write_mode : ℕ → Option FileInfo → ℕ
write_mode requested info =
    if not (requested == 0)
    then requested % 512
    else elim info [ none ↦ 420 | some stat ↦ stat.mode % 512 ]

-- The errors of a write of a file, errors.Is tells them apart.
pub data WriteFailure : Type 0 where
  target_exists token_stale : WriteFailure
  mutation_uncertain write_failed : Text → WriteFailure

abbrev pub exists_of : Option FileInfo → Bool
exists_of none = false
exists_of (some info) = true

unfoldable pub reject : WriteResult → WriteStatus → Text → WriteResult
reject result status reason = record result { status = status; error = reason }

-- The request of the policy for a path and what is there.
unfoldable pub write_policy_request : WriteRequest → Text → Option FileInfo → FileRequest
unfolding write_access_mode
write_policy_request request path info = record {
  path = path;
  mode = write_access_mode (exists_of info);
  approval_required = request.approval_required;
}

module _ {D : Type 0} (sys : FileSystem D) where
  -- The path, and what is there.
  unfoldable pub resolve_write_target :
      D → WriteOperation → WriteRequest → Fallible SystemError (Text × Option FileInfo)
  resolve_write_target d operation request =
      let resolved =
        if is_overwrite operation
        then sys.resolve_existing d request.current_working_dir request.path
        else sys.resolve_for_create d request.current_working_dir request.path in
      and_then resolved (λ path. elim (sys.stat d path) [
        | ok info ↦ ok (path, some info)
        | err (not_exist text) ↦ ok (path, none)
        | err (other_error text) ↦ err (other_error (codes "stat write target: " ++ text))
      ])

  -- commitReadTokenValidator: what is wrong with the target before the commit.
  unfoldable pub validate_commit : D → Option ReadToken → Option WriteFailure
  unfolding token_for_file same_file_version
  validate_commit d none = none
  validate_commit d (some expected) =
      elim (token_for_file sys d expected.scope_id expected.path none) [
        | err e ↦ some (write_failed (message e))
        | ok current ↦ if same_file_version expected current then none else some token_stale
      ]

  unfoldable pub commit_failure : Committed → Option WriteFailure
  commit_failure done = none
  commit_failure exists_already = some target_exists
  commit_failure (may_have_occurred reason) = some (mutation_uncertain reason)
  commit_failure (not_done reason) = some (write_failed reason)

  -- The temporary file, the check of the token and the commit, with a turn of other processes before the
  -- check and another one between the check and the commit.
  unfoldable pub write_workspace_file :
      D → Text → Text → ℕ → Bool → Option ReadToken → Option WriteFailure × D
  unfolding validate_commit commit_failure
  write_workspace_file d path bytes mode no_replace expected =
      let (prepared, d1) = sys.prepare d path bytes mode in
      let d2 = sys.others d1 in
      let (committed, d3) = sys.commit (sys.others d2) path bytes mode no_replace in
      elim prepared [
        | some reason ↦ (some (write_failed reason), d1)
        | none ↦ elim (validate_commit d2 expected) [
          | some failure ↦ (some failure, d2)
          | none ↦ (commit_failure committed, d3)
        ]
      ]

  abbrev pub WriteAnswer : Type 0
  WriteAnswer = Fallible Text WriteResult × (Service × D)

  -- After the file is written: its new token is recorded.
  unfoldable pub finish_write : Service → D → WriteRequest → Text → Bool → WriteResult → WriteAnswer
  unfolding token_for_file record_token byte_length
  finish_write s d request path exists result =
      elim (token_for_file sys d s.tokens.scope_id path (some (sys.now d))) [
        | err e ↦ (err (message e), (s, d))
        | ok token ↦ (
          ok (record result {
            status = if exists then status_overwritten else status_created;
            created = not exists;
            overwritten = exists;
            bytes_written = byte_length request.content;
            token = some token;
            has_token = true;
          }),
          (record s { tokens = record_token s.tokens token }, d),
        )
      ]

  -- The write, and the result of each of its failures.
  unfoldable pub commit_write :
      Service → D → WriteRequest → Text → Option FileInfo → WriteResult → WriteAnswer
  unfolding reject write_mode write_workspace_file finish_write
  commit_write s d request path info result =
      let operation = default_operation request.operation in
      let exists = exists_of info in
      let no_replace = is_create operation || not (is_overwrite operation) && not exists in
      let expected = if exists then result.token else none in
      let (failure, d') =
        write_workspace_file d path request.content (write_mode request.mode info) no_replace
          expected in
      elim failure [
        | none ↦ finish_write s d' request path exists result
        | some target_exists ↦
            (ok (reject result status_already_exists (codes "target already exists")), (s, d'))
        | some (mutation_uncertain reason) ↦ (
          ok (record (reject result status_commit_uncertain reason) {
            mutation_may_have_occurred = true;
            overwritten = exists;
            created = not exists;
          }),
          (s, d'),
        )
        | some token_stale ↦ (
          ok (reject result status_stale_read_token (codes "target changed before commit")),
          (s, d'),
        )
        | some (write_failed reason) ↦ (err reason, (s, d'))
      ]

  -- The scan of the content, and the backup of a file that exists.
  unfoldable pub write_checked_content :
      Service → D → WriteRequest → Text → Option FileInfo → WriteResult → WriteAnswer
  unfolding reject backup_existing_file commit_write
  write_checked_content s d request path info result =
      let reason = scan_secret_content request.content in
      let (backup, d') = backup_existing_file sys s d path in
      if not (is_nil reason)
      then (ok (reject result status_secret_rejected reason), (s, d))
      else elim info [
        | none ↦ commit_write s d request path none result
        | some stat ↦ elim backup [
          | err e ↦ (err e, (s, d'))
          | ok backup_path ↦
              commit_write s d' request path (some stat)
                (record result { backup_created = true; backup_path = backup_path })
        ]
      ]

  -- A file that exists needs a token that matches it.
  unfoldable pub write_permitted :
      Service → D → WriteRequest → Text → Option FileInfo → WriteResult → WriteAnswer
  unfolding validate_current reject write_checked_content
  write_permitted s d request path none result = write_checked_content s d request path none result
  write_permitted s d request path (some stat) result =
      elim (validate_current sys d s.tokens path) [
        | err e ↦ (err (message e), (s, d))
        | ok validation ↦
            if not validation.found
            then (ok (reject result status_missing_read_token validation.reason), (s, d))
            else if not validation.matches
            then (ok (reject result status_stale_read_token validation.reason), (s, d))
            else write_checked_content s d request path (some stat)
                (record result { token = validation.token })
      ]

  unfoldable pub write_resolved :
      Service → D → WriteRequest → Text → Option FileInfo → WriteResult → WriteAnswer
  unfolding reject write_permitted
  write_resolved s d request path info result =
      let operation = default_operation request.operation in
      let exists = exists_of info in
      let (answer, engine) =
        runtime_evaluate_file s.policy (write_policy_request request path info) in
      let s' : Service = record s { policy = engine } in
      if elim info [ none ↦ false | some stat ↦ stat.is_dir ]
      then (ok (reject result status_directory (codes "path is a directory")), (s, d))
      else if is_create operation && exists
      then (ok (reject result status_already_exists (codes "target already exists")), (s, d))
      else if is_overwrite operation && not exists
      then (ok (reject result status_not_found (codes "target does not exist")), (s, d))
      else elim answer [
        | Rules.err e ↦ (err (codes "evaluate file write policy"), (s', d))
        | Rules.ok access ↦
            let result' : WriteResult = record result { policy = some access } in
            if not access.allowed
            then (ok (reject result' status_denied access.explanation), (s', d))
            else write_permitted s' d request path info result'
      ]

  unfoldable pub write_file : Service → D → WriteRequest → WriteAnswer
  unfolding reject write_resolved
  write_file s d request =
      let operation = default_operation request.operation in
      let result : WriteResult = record empty_write { path = request.path } in
      if not (is_valid_write_operation operation)
      then (ok (reject result status_invalid_operation (codes "invalid write operation")), (s, d))
      else elim (resolve_write_target d operation request) [
        | err (not_exist reason) ↦ (ok (reject result status_not_found reason), (s, d))
        | err (other_error reason) ↦ (ok (reject result status_unsafe reason), (s, d))
        | ok (path, info) ↦
            write_resolved s d request path info (record result { resolved_path = path })
      ]
