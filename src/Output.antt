-- ===== src/Output.antt =====
-- The capture of a command's output, internal/runtimeexec/output.go. Bytes are numbers. The operating
-- system's part is a parameter: what creating a directory, opening a file, writing to it and closing
-- it return, and the name that is made of the time and a counter.
pub mod Slices
pub mod Spill
pub mod Complete
pub mod Streams
use falken_core.Base.{
  ℕ, zero, suc, ◌+◌, ◌-◌, ◌*◌, List, [], ◌∷◌, ◌++◌, Bool, true, false, not, ◌&&◌, ◌||◌, Option,
  none, some, if◌then◌else◌, length, take, drop, is_nil, ltb, min,
}
use falken_core.Base.Int.{ℤ, pos, is_positive, pos_part}
use falken_core.Base.Text.{Text}

abbrev pub Bytes : Type 0
Bytes = List ℕ

abbrev pub default_max_inline_output : ℕ
default_max_inline_output = 64 * 1024

pub data OutputError : Type 0 where
  output_artifact_root_required : OutputError
  create_directory create_artifact write_artifact close_artifact : Text → OutputError

-- Each operation returns the text of its error, if there is one.
pub record System : Type 0 where
  pub mkdir_all : Text → Option Text
  pub open_file : Text → Option Text
  pub write_file : Text → Bytes → Option Text
  pub close_file : Text → Option Text
  pub artifact_name : Text → Text

-- `artifact_file` is what the open file holds. After a failed write the code makes no claim of it.
pub record OutputCollector : Type 0 where
  pub inline : Bytes
  pub limit : ℕ
  pub total : ℕ
  pub spool : Bool
  pub artifact_root : Text
  pub artifact_path : Text
  pub workspace_accessible : Bool
  pub artifact_file : Option Bytes
  pub artifact_err : Option OutputError
  pub closed : Bool

pub record OutputSummary : Type 0 where
  pub truncated : Bool
  pub artifact_path : Text
  pub artifact_workspace_accessible : Bool
  pub inline_limit : ℕ
  pub original_bytes : ℕ
  pub preview_bytes : ℕ

unfoldable pub normalize_output_limit : ℤ → ℕ
unfolding is_positive
normalize_output_limit limit =
    if is_positive limit then pos_part limit else default_max_inline_output

unfoldable pub new_output_collector : ℤ → Text → Bool → Bool → OutputCollector
unfolding normalize_output_limit
new_output_collector limit artifact_root spool workspace_accessible = record {
  inline = [];
  limit = normalize_output_limit limit;
  total = 0;
  spool = spool;
  artifact_root = artifact_root;
  artifact_path = [];
  workspace_accessible = workspace_accessible;
  artifact_file = none;
  artifact_err = none;
  closed = false;
}

module _ (sys : System) where
  -- The file with what was kept inline, once there is a directory for it.
  unfoldable pub open_artifact : OutputCollector → OutputCollector
  open_artifact c =
      let path = sys.artifact_name c.artifact_root in
      elim (sys.mkdir_all c.artifact_root) [
        | some message ↦ record c { artifact_err = some (create_directory message) }
        | none ↦ elim (sys.open_file path) [
          | some message ↦ record c { artifact_err = some (create_artifact message) }
          | none ↦ elim (sys.write_file path c.inline) [
            | some message ↦ record c { artifact_err = some (write_artifact message) }
            | none ↦ record c { artifact_path = path; artifact_file = some c.inline }
          ]
        ]
      ]

  -- An error is kept in the collector, and the file stays closed.
  unfoldable pub ensure_artifact : OutputCollector → OutputCollector
  unfolding open_artifact
  ensure_artifact c = elim c.artifact_file [
    | some content ↦ c
    | none ↦ elim c.artifact_err [
      | some e ↦ c
      | none ↦
          if is_nil c.artifact_root
          then record c { artifact_err = some output_artifact_root_required }
          else open_artifact c
    ]
  ]

  unfoldable pub append_artifact : OutputCollector → Bytes → OutputCollector
  append_artifact c overflow = elim c.artifact_file [
    | none ↦ c
    | some content ↦ if is_nil overflow then c else elim (sys.write_file c.artifact_path overflow) [
      | some message ↦ record c { artifact_err = some (write_artifact message) }
      | none ↦ record c { artifact_file = some (content ++ overflow) }
    ]
  ]

  -- What is kept inline of a chunk.
  unfoldable pub write_inline : OutputCollector → Bytes → OutputCollector
  write_inline c chunk =
      if ltb c.total c.limit
      then record c {
        inline = c.inline ++ take (min (length chunk) (c.limit - c.total)) chunk;
        total = c.total + length chunk;
      }
      else record c { total = c.total + length chunk }

  unfoldable pub write : OutputCollector → Bytes → OutputCollector
  unfolding ensure_artifact append_artifact write_inline
  write c chunk =
      let c' = write_inline c chunk in
      let overflow_offset = if ltb c.total c.limit then c.limit - c.total else 0 in
      if c.spool && ltb c'.limit c'.total
      then append_artifact (ensure_artifact c') (drop overflow_offset chunk)
      else c'

  unfoldable pub close_artifact_file : OutputCollector → OutputCollector
  close_artifact_file c = elim c.artifact_file [
    | none ↦ c
    | some content ↦ if c.closed then c else elim c.artifact_err [
      | some e ↦ record c { closed = true }
      | none ↦ elim (sys.close_file c.artifact_path) [
        | some message ↦ record c { artifact_err = some (close_artifact message); closed = true }
        | none ↦ record c { closed = true }
      ]
    ]
  ]

pub data Snapshot : Type 0 where
  captured : Bytes → OutputSummary → Snapshot
  failed : OutputError → Snapshot

unfoldable pub summarize : OutputCollector → Snapshot
summarize c = elim c.artifact_err [
  | some e ↦ failed e
  | none ↦ captured c.inline (record {
    truncated = ltb c.limit c.total;
    artifact_path = c.artifact_path;
    artifact_workspace_accessible = not (is_nil c.artifact_path) && c.workspace_accessible;
    inline_limit = c.limit;
    original_bytes = c.total;
    preview_bytes = length c.inline;
  })
]

unfoldable pub snapshot : System → OutputCollector → Snapshot × OutputCollector
unfolding close_artifact_file summarize
snapshot sys c = let c' = close_artifact_file sys c in (summarize c', c')

unfoldable pub write_all : System → OutputCollector → List Bytes → OutputCollector
unfolding write
write_all sys c [] = c
write_all sys c (chunk ∷ chunks) = write_all sys (write sys c chunk) chunks
