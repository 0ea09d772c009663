-- ===== src/Files/Read.antt =====
-- Read and its snapshots, internal/files/read.go.
pub mod Tokened
use mathlib.Core.List.{flatten}
use falken_core.Base.{
  ℕ, zero, suc, ◌+◌, ◌-◌, [], ◌∷◌, List, Bool, true, false, not, ◌&&◌, ◌||◌, Option, none, some,
  ◌≡◌, refl, if◌then◌else◌, ◌==◌, ltb, is_nil, length, take, drop,
}
use falken_core.Base.Int.{ℤ, pos, negsuc}
use falken_core.Base.Text.{Text, codes}
use falken_core.Policy.Rules.{file_access_read, FileRequest}
use falken_core.Policy.Rules
use falken_core.Policy.Runtime.{AccessResult, runtime_evaluate_file}
use falken_core.Files.Fallible.{Fallible, ok, err}
use falken_core.Files.Lines.{split_lines}
use falken_core.Files.System.{FileSystem, SystemError, not_exist, other_error, message}
use falken_core.Files.Types.{ReadToken}
use falken_core.Files.Tokens.{record_token, token_for_snapshot}
use falken_core.Files.Service.{Service}

pub data ReadStatus : Type 0 where
  read_unset read_ok read_not_found read_directory read_denied read_unsafe : ReadStatus

pub record ReadRequest : Type 0 where
  pub path : Text
  pub current_working_dir : Text
  pub start_line : ℤ
  pub end_line : ℤ
  pub approval_required : Bool

pub record ReadResult : Type 0 where
  pub status : ReadStatus
  pub path : Text
  pub resolved_path : Text
  pub content : Text
  pub start_line : ℤ
  pub end_line : ℤ
  pub total_lines : ℕ
  pub policy : Option AccessResult
  pub token : Option ReadToken
  pub has_token : Bool
  pub error : Text

-- Whether the range is valid.
unfoldable pub validate_line_range : ℤ → ℤ → Bool
validate_line_range (pos start) (pos end) = not (ltb 0 start && ltb 0 end && ltb end start)
validate_line_range _ _ = false

unfoldable pub normalized_start_line : ℤ → ℤ
normalized_start_line (pos zero) = pos 1
normalized_start_line start = start

-- The lines from start to end, which count from 1; 0 stands for the first and for the last.
unfoldable pub select_line_range : Text → ℕ → ℕ → Text
unfolding split_lines
select_line_range content start end =
    let lines = split_lines content in
    let first = if start == 0 then 1 else start in
    let last = if end == 0 || ltb (length lines) end then length lines else end in
    if start == 0 && end == 0
    then content
    else if length lines == 0
    then []
    else if ltb (length lines) first
    then []
    else flatten (take (last - (first - 1)) (drop (first - 1) lines))

-- The range of a request that was validated.
abbrev pub selected : Text → ℤ → ℤ → Text
selected content (pos start) (pos end) = select_line_range content start end
selected content _ _ = []

unfoldable pub read_refused : ReadResult → ReadStatus → Text → ReadResult
read_refused result status reason = record result { status = status; error = reason }

unfoldable pub initial_read : ReadRequest → ReadResult
unfolding normalized_start_line
initial_read request = record {
  status = read_unset;
  path = request.path;
  resolved_path = [];
  content = [];
  start_line = normalized_start_line request.start_line;
  end_line = request.end_line;
  total_lines = 0;
  policy = none;
  token = none;
  has_token = false;
  error = [];
}

unfoldable pub read_policy_request : ReadRequest → Text → FileRequest
read_policy_request request path = record {
  path = path;
  mode = file_access_read;
  approval_required = request.approval_required;
}

module _ {D : Type 0} (sys : FileSystem D) where
  abbrev pub ReadAnswer : Type 0
  ReadAnswer = Fallible Text ReadResult × Service

  -- The content of a snapshot, with a token that is recorded if one is to be issued.
  unfoldable pub read_snapshot_of :
      Service → D → ReadRequest → Text → Bool → ReadResult → ReadAnswer
  unfolding split_lines select_line_range token_for_snapshot record_token
  read_snapshot_of s d request path issue_token result = elim (sys.snapshot d path) [
    | err e ↦ (err (message e), s)
    | ok (bytes, info) ↦
        let token = token_for_snapshot sys d s.tokens.scope_id path bytes info (some (sys.now d)) in
        let content = selected bytes request.start_line request.end_line in
        let whole : ReadResult = record result {
          total_lines = length (split_lines bytes);
          content = content;
          status = read_ok;
        } in
        if not issue_token
        then (ok whole, s)
        else if is_nil token.id
        then (err (codes "create read token: unavailable file identity"), s)
        else (
          ok (record whole { token = some token; has_token = true }),
          record s { tokens = record_token s.tokens token },
        )
  ]

  -- The checks of the path that was resolved.
  unfoldable pub read_resolved : Service → D → ReadRequest → Text → Bool → ReadResult → ReadAnswer
  unfolding read_refused read_snapshot_of
  read_resolved s d request path issue_token result =
      let (answer, engine) = runtime_evaluate_file s.policy (read_policy_request request path) in
      let s' : Service = record s { policy = engine } in
      elim (sys.stat d path) [
        | err e ↦ (err (message e), s)
        | ok info ↦
            if info.is_dir
            then (ok (read_refused result read_directory (codes "path is a directory")), s)
            else elim answer [
              | Rules.err e ↦ (err (codes "evaluate file read policy"), s')
              | Rules.ok access ↦
                  let result' : ReadResult = record result { policy = some access } in
                  if not access.allowed
                  then (ok (read_refused result' read_denied access.explanation), s')
                  else read_snapshot_of s' d request path issue_token result'
            ]
      ]

  -- read, with the option to issue a token
  unfoldable pub read_with : Bool → Service → D → ReadRequest → ReadAnswer
  unfolding initial_read read_refused read_resolved
  read_with issue_token s d request =
      let result = initial_read request in
      if not (validate_line_range request.start_line request.end_line)
      then (err (codes "invalid line range"), s)
      else elim (sys.resolve_existing d request.current_working_dir request.path) [
        | err (not_exist reason) ↦ (ok (read_refused result read_not_found reason), s)
        | err (other_error reason) ↦ (ok (read_refused result read_unsafe reason), s)
        | ok path ↦
            read_resolved s d request path issue_token (record result { resolved_path = path })
      ]

  -- Read
  unfoldable pub read_file : Service → D → ReadRequest → ReadAnswer
  unfolding read_with
  read_file = read_with true

  -- readSnapshot
  unfoldable pub read_snapshot : Service → D → ReadRequest → ReadAnswer
  unfolding read_with
  read_snapshot = read_with false
