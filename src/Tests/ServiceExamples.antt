-- ===== src/Tests/ServiceExamples.antt =====
-- The file service of internal/files over a disk in memory: a list of paths with their contents.
use mathlib.Core.List.{flatten}
use falken_core.Files.Secrets.{scan_secret_content}
use falken_core.Policy.Match.{matches_file_rule, normalize_file_path}
use falken_core.Policy.Engine.{evaluate_file}
use falken_core.Policy.Runtime.{runtime_evaluate_file}
use falken_core.Base.{
  [], ◌∷◌, ◌++◌, List, Bool, true, false, ◌&&◌, none, ◌≡◌, ◌≢◌, refl, ap, arith, if◌then◌else◌,
  length,
}
use falken_core.Base.Int.{pos}
use falken_core.Base.Text.{Text, codes, text_eq, has_prefix, trim_right_char, replace_char, has_key}
use falken_core.Base.Text.Laws.{text_eq_refl, text_eq_iff}
use falken_core.Path.{clean}
use falken_core.Policy.Rules.{session}
use falken_core.Files.Fallible.{Fallible, ok, err}
use falken_core.Files.System.{
  FileSystem, IsReliable, FileInfo, SystemError, not_exist, other_error, Committed, done,
  exists_already, not_done,
}
use falken_core.Files.Types.{write_overwrite, WriteRequest}
use falken_core.Files.Tokens.{new_token_registry}
use falken_core.Files.Service.{Service}
use falken_core.Files.Write.{
  write_file, is_valid_write_operation, resolve_write_target, write_policy_request,
}
use falken_core.Files.Read.{ReadRequest, read_with, validate_line_range, read_policy_request}
use falken_core.Files.Read.Tokened.{ReadJudged, read_with_judged}
use falken_core.Files.Delete.{DeleteRequest, delete_file}
use falken_core.Files.Delete.Guarded.{DeleteJudged, IsDeletable, delete_file_guarded}
use falken_core.Tests.PermitExamples.{engine}

abbrev Disk : Type 0
Disk = List (Text × Text)

info_of : Text → FileInfo
info_of bytes = record {
  is_dir = false;
  mode = 420;
  size = length bytes;
  mod_time = 1;
  device = 1;
  inode = 1;
}

get : Disk → Text → Fallible SystemError (Text × FileInfo)
unfolding text_eq info_of
get [] path = err (not_exist path)
get ((p, bytes) ∷ disk) path =
    let rest = get disk path in if text_eq p path then ok (bytes, info_of bytes) else rest

drop_path : Disk → Text → Disk
unfolding text_eq
drop_path [] path = []
drop_path ((p, bytes) ∷ disk) path =
    let rest = drop_path disk path in if text_eq p path then rest else (p, bytes) ∷ rest

stat_of : Fallible SystemError (Text × FileInfo) → Fallible SystemError FileInfo
stat_of (err e) = err e
stat_of (ok (bytes, info)) = ok info

resolve : Text → Fallible SystemError Text
unfolding text_eq clean
resolve path = if text_eq (clean path) path then ok path else err (other_error path)

is_there : Fallible SystemError (Text × FileInfo) → Bool
is_there (err e) = false
is_there (ok found) = true

put : Disk → Text → Text → Bool → Committed × Disk
unfolding get is_there
put disk path bytes no_replace =
    if is_there (get disk path) && no_replace
    then (exists_already, disk)
    else (done, (path, bytes) ∷ disk)

-- What another process writes.
abbrev other_files : Disk
other_files = (codes "/work/log", codes "y") ∷ []

abbrev mem : FileSystem Disk
mem = record {
  resolve_existing = λ disk cwd path. resolve path;
  resolve_for_create = λ disk cwd path. resolve path;
  stat = λ disk path. stat_of (get disk path);
  snapshot = get;
  write_backup = λ disk path bytes. (ok (codes "/backups" ++ path), disk);
  prepare = λ disk path bytes mode. (none, disk);
  commit = λ disk path bytes mode no_replace. put disk path bytes no_replace;
  unlink = λ disk path. (done, drop_path disk path);
  is_own = λ path. has_prefix path (codes "/backups/");
  others = λ disk. disk ++ other_files;
  now = λ disk. 7;
  sha256_hex = λ bytes. bytes;
  token_id = λ scope path hash size time device inode. b'#' ∷ path;
}

put_done :
    (disk : Disk) (path bytes : Text) (no_replace : Bool)
    → (put disk path bytes no_replace).0 ≡ done
    → get (put disk path bytes no_replace).1 path ≡ ok (bytes, info_of bytes)
unfolding put get
put_done disk path bytes no_replace h = ground (arith, text_eq_refl path)

put_exists :
    (disk : Disk) (path bytes : Text) (no_replace : Bool)
    → (put disk path bytes no_replace).0 ≡ exists_already
    → (put disk path bytes no_replace).1 ≡ disk
unfolding put
put_exists disk path bytes no_replace h = ground arith

put_certain :
    (disk : Disk) (path bytes reason : Text) (no_replace : Bool)
    → (put disk path bytes no_replace).0 ≢ not_done reason
unfolding put
put_certain disk path bytes reason no_replace h = ground arith

resolve-clean : (target path : Text) → resolve target ≡ ok path → clean path ≡ path
unfolding resolve
resolve-clean target path h = ground (arith, text_eq_iff (clean target) target)

abbrev reliable : IsReliable mem
reliable = record {
  backup_keeps = λ d path bytes p o. refl;
  prepare_keeps = λ d path bytes mode p o. refl;
  commit_puts =
      λ d path bytes mode no_replace h. (info_of bytes, put_done d path bytes no_replace h);
  exists_keeps = λ d path bytes mode no_replace p o h.
      ap (λ e. get e p) (put_exists d path bytes no_replace h);
  failed_keeps = λ d path bytes mode no_replace reason p o h.
      absurd (put_certain d path bytes reason no_replace h);
  resolve_keeps_clean = λ d cwd target path h. resolve-clean target path h;
}

abbrev disk : Disk
disk = (codes "/work/a", codes "one\ntwo\n") ∷ []

abbrev fresh : Service
fresh = record {
  backup_root = codes "/backups";
  policy = engine session;
  tokens = new_token_registry [];
}

abbrev look : ReadRequest
look = record {
  path = codes "/work/a";
  current_working_dir = [];
  start_line = pos 2;
  end_line = pos 0;
  approval_required = false;
}

abbrev reader : Service
reader = (read_with mem true fresh disk look).1

read_with_judged_example :
    ReadJudged mem disk true fresh.tokens (read_with mem true fresh disk look)
read_with_judged_example = read_with_judged mem disk true fresh look reliable

abbrev change : WriteRequest
change = record {
  path = codes "/work/a";
  current_working_dir = [];
  content = codes "three\n";
  operation = write_overwrite;
  mode = 0;
  approval_required = false;
}

-- The write goes through.
overwrites :
    (write_file mem reader disk change).1.1
    ≡ (codes "/work/a", codes "three\n") ∷ (disk ++ other_files) ++ other_files
unfolding write_file is_valid_write_operation resolve_write_target resolve stat_of get
    runtime_evaluate_file evaluate_file matches_file_rule read_with validate_line_range
    trim_right_char replace_char normalize_file_path read_policy_request has_key
    write_policy_request scan_secret_content flatten put
overwrites = refl

abbrev removal : DeleteRequest
removal = record { path = codes "/work/a"; current_working_dir = []; approval_required = false }

delete_file_guarded_example :
    DeleteJudged mem
      (IsDeletable mem reader removal disk)
      disk
      (delete_file mem reader disk removal)
delete_file_guarded_example = delete_file_guarded mem reliable reader disk removal
