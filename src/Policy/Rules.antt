-- ===== src/Policy/Rules.antt =====
-- The rules, requests and decisions of internal/policy/policy.go.
use falken_core.Base.{List, Bool, Option}
use falken_core.Base.Int.{ℤ}
use falken_core.Base.Text.{Text, codes}

-- A match kind that the program does not know is treated as `exact`.
pub data MatchKind : Type 0 where
  exact prefix suffix : MatchKind
  other : Text → MatchKind

-- `unknown []` is Go's zero value "".
pub data ApprovalScope : Type 0 where
  once session project deny : ApprovalScope
  unknown : Text → ApprovalScope

pub data DecisionSource : Type 0 where
  blocked_rule : DecisionSource
  allowed_rule : DecisionSource
  project_approval : DecisionSource
  session_approval : DecisionSource
  strict_allowlist_deny : DecisionSource
  missing_approval_handler_deny : DecisionSource
  approval_denied : DecisionSource
  approval_granted_once : DecisionSource
  approval_granted_session : DecisionSource
  approval_granted_project : DecisionSource
  default_allow : DecisionSource

pub data RequestKind : Type 0 where
  file shell network : RequestKind

abbrev pub FileAccessMode : Type 0
FileAccessMode = Text

abbrev pub file_access_read : FileAccessMode
file_access_read = codes "read"

abbrev pub file_access_write : FileAccessMode
file_access_write = codes "write"

abbrev pub file_access_create : FileAccessMode
file_access_create = codes "create"

pub record FileRule : Type 0 where
  pub path : Text
  pub match : MatchKind
  pub modes : List FileAccessMode

pub record ShellRule : Type 0 where
  pub command : Text
  pub match : MatchKind

pub record NetworkRule : Type 0 where
  pub host : Text
  pub match : MatchKind
  pub ports : List ℤ

pub record Config : Type 0 where
  pub blocked_files : List FileRule
  pub allowed_files : List FileRule
  pub project_approved_files : List FileRule
  pub blocked_shell : List ShellRule
  pub approval_required_shell : List ShellRule
  pub allowed_shell : List ShellRule
  pub project_approved_shell : List ShellRule
  pub blocked_network : List NetworkRule
  pub allowed_network : List NetworkRule
  pub project_approved_net : List NetworkRule
  pub strict_file_allowlist : Bool
  pub strict_command_allowlist : Bool
  pub strict_network_allowlist : Bool

pub record FileRequest : Type 0 where
  pub path : Text
  pub mode : FileAccessMode
  pub approval_required : Bool

pub record ShellRequest : Type 0 where
  pub command : Text
  pub approval_required : Bool
  pub force_approval : Bool

pub record NetworkRequest : Type 0 where
  pub host : Text
  pub port : ℤ
  pub method : Text
  pub target : Text
  pub approval_required : Bool

pub record Decision : Type 0 where
  pub kind : RequestKind
  pub allowed : Bool
  pub source : DecisionSource
  pub scope : ApprovalScope

-- The two errors that an evaluation can return, with the error that they wrap.
pub data Error : Type 0 where
  request_approval persist_approval : RequestKind → Text → Error

pub data Result {ℓ} (A : Type ℓ) : Type ℓ where
  ok : A → Result A
  err : Error → Result A

-- The host's handler: an answer, or the text of an error.
pub data Answer : Type 0 where
  answered : ApprovalScope → Answer
  failed : Text → Answer

pub record ApprovalHandler : Type 0 where
  pub approve_file : FileRequest → Answer
  pub approve_shell : ShellRequest → Answer
  pub approve_network : NetworkRequest → Answer

-- The sets of keys that were approved for the session.
pub record SessionApprovals : Type 0 where
  pub files : List Text
  pub shell : List Text
  pub network : List Text

-- The persister returns the text of its error, if there is one.
pub record Engine : Type 0 where
  pub config : Config
  pub handler : Option ApprovalHandler
  pub project_approval_persister : Option (Config → Option Text)
  pub approvals : SessionApprovals
