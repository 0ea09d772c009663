-- ===== src/Files/Service.antt =====
-- The state of the managed file service, internal/files/service.go, and the backups of backup.go.
use falken_core.Base.{is_nil, if◌then◌else◌}
use falken_core.Base.Text.{Text, codes}
use falken_core.Policy.Rules.{Engine}
use falken_core.Files.Fallible.{Fallible, ok, err}
use falken_core.Files.System.{FileSystem, message}
use falken_core.Files.Tokens.{TokenRegistry}

-- The roots are in the paths of the system; the hooks of the tests are nil. The evaluator is the engine.
pub record Service : Type 0 where
  pub backup_root : Text
  pub policy : Engine
  pub tokens : TokenRegistry

-- The path of the backup: the root, a directory for the time and the content, and the path of the file
-- in the workspace.
unfoldable pub backup_existing_file :
    {D : Type 0} → FileSystem D → Service → D → Text → Fallible Text Text × D
backup_existing_file sys s d path =
    if is_nil s.backup_root
    then (err (codes "backup root is required"), d)
    else elim (sys.snapshot d path) [
      | err e ↦ (err (message e), d)
      | ok (bytes, info) ↦ sys.write_backup d path bytes
    ]
