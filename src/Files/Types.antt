-- ===== src/Files/Types.antt =====
-- The requests and results of internal/files: tokens.go, write.go, delete.go and edit.go. A status that
-- is not set is the empty string.
use falken_core.Base.{ℕ, Bool, false, []}
use falken_core.Base.Text.{Text}
use falken_core.Policy.Runtime.{AccessResult}
use falken_core.Base.{Option, none}

-- Times are nanoseconds of an epoch, in UTC.
pub record ReadToken : Type 0 where
  pub id : Text
  pub scope_id : Text
  pub path : Text
  pub content_hash : Text
  pub size : ℕ
  pub mod_time : ℕ
  pub device : ℕ
  pub inode : ℕ
  pub issued_at : ℕ

pub data WriteOperation : Type 0 where
  write_unset write_create write_overwrite write_create_or_overwrite : WriteOperation
  write_other : Text → WriteOperation

pub data WriteStatus : Type 0 where
  status_unset status_created status_overwritten status_denied status_unsafe : WriteStatus
  status_already_exists status_not_found status_directory : WriteStatus
  status_missing_read_token status_stale_read_token status_secret_rejected : WriteStatus
  status_invalid_operation status_commit_uncertain : WriteStatus

pub record WriteRequest : Type 0 where
  pub path : Text
  pub current_working_dir : Text
  pub content : Text
  pub operation : WriteOperation
  pub mode : ℕ
  pub approval_required : Bool

-- The policy result and the token, which the source holds as values with zero fields at first, are none
-- until they are set.
pub record WriteResult : Type 0 where
  pub status : WriteStatus
  pub path : Text
  pub resolved_path : Text
  pub created : Bool
  pub overwritten : Bool
  pub backup_created : Bool
  pub backup_path : Text
  pub bytes_written : ℕ
  pub policy : Option AccessResult
  pub token : Option ReadToken
  pub has_token : Bool
  pub mutation_may_have_occurred : Bool
  pub error : Text

pub data EditStatus : Type 0 where
  edit_unset edit_changed edit_unchanged edit_unsafe edit_not_found edit_directory : EditStatus
  edit_missing_read_token edit_stale_read_token edit_empty_old_string edit_no_match : EditStatus
  edit_ambiguous_match edit_mutation_rejected edit_invalid_strategy : EditStatus

pub data MatchStrategy : Type 0 where
  match_unset match_exact match_close : MatchStrategy
  match_other : Text → MatchStrategy

pub record EditRequest : Type 0 where
  pub path : Text
  pub current_working_dir : Text
  pub old : Text
  pub new : Text
  pub replace_all : Bool
  pub match_strategy : MatchStrategy
  pub approval_required : Bool

abbrev pub empty_write : WriteResult
empty_write = record {
  status = status_unset;
  path = [];
  resolved_path = [];
  created = false;
  overwritten = false;
  backup_created = false;
  backup_path = [];
  bytes_written = 0;
  policy = none;
  token = none;
  has_token = false;
  mutation_may_have_occurred = false;
  error = [];
}

pub record EditResult : Type 0 where
  pub status : EditStatus
  pub path : Text
  pub resolved_path : Text
  pub replace_all : Bool
  pub replacements : ℕ
  pub changed : Bool
  pub used_fuzzy : Bool
  pub match_strategy : MatchStrategy
  pub write : WriteResult
  pub error : Text
  pub summary : Text
