-- ===== src/Files/System.antt =====
-- The operating system under the file service, and the workspace paths, as the service calls them:
-- internal/files/managed_file_unix.go and internal/workspace. D is the state of the disk.
use falken_core.Base.{ℕ, Bool, false, Option, ◌≡◌}
use falken_core.Base.Text.{Text}
use falken_core.Path.{clean}
use falken_core.Files.Fallible.{Fallible, ok}

-- The parts of os.FileInfo that the service reads, with the identity of the file.
pub record FileInfo : Type 0 where
  pub is_dir : Bool
  pub mode : ℕ
  pub size : ℕ
  pub mod_time : ℕ
  pub device : ℕ
  pub inode : ℕ

-- An error for which errors.Is(err, os.ErrNotExist) holds, or another.
pub data SystemError : Type 0 where
  not_exist other_error : Text → SystemError

abbrev pub message : SystemError → Text
message (not_exist text) = text
message (other_error text) = text

-- What becomes of a link, a rename or an unlink with the sync of its directory.
pub data Committed : Type 0 where
  done exists_already : Committed
  may_have_occurred not_done : Text → Committed

-- `others` is what other processes do to the disk in a turn between two calls of the service.
pub record FileSystem (D : Type 0) : Type 0 where
  pub resolve_existing : D → Text → Text → Fallible SystemError Text
  pub resolve_for_create : D → Text → Text → Fallible SystemError Text
  pub stat : D → Text → Fallible SystemError FileInfo
  -- The bytes and the information of an open file; its trusted root is taken for granted.
  pub snapshot : D → Text → Fallible SystemError (Text × FileInfo)
  pub write_backup : D → Text → Text → Fallible Text Text × D
  pub prepare : D → Text → Text → ℕ → Option Text × D
  pub commit : D → Text → Text → ℕ → Bool → Committed × D
  pub unlink : D → Text → Committed × D
  pub others : D → D
  -- The paths of the service's own temporary files and backups.
  pub is_own : Text → Bool
  pub now : D → ℕ
  pub sha256_hex : Text → Text
  pub token_id : Text → Text → Text → ℕ → ℕ → ℕ → ℕ → Text

-- What the primitives promise: preparation and backups leave the files that are not the service's own, a commit
-- that is done puts the bytes in place, one that is not leaves the files, and a resolved path is clean.
pub record IsReliable {D : Type 0} (sys : FileSystem D) : Type 0 where
  pub backup_keeps :
      (d : D) (path bytes p : Text)
      → sys.is_own p ≡ false
      → sys.snapshot (sys.write_backup d path bytes).1 p ≡ sys.snapshot d p
  pub prepare_keeps :
      (d : D) (path bytes : Text) (mode : ℕ) (p : Text)
      → sys.is_own p ≡ false
      → sys.snapshot (sys.prepare d path bytes mode).1 p ≡ sys.snapshot d p
  pub commit_puts :
      (d : D) (path bytes : Text) (mode : ℕ) (no_replace : Bool)
      → (sys.commit d path bytes mode no_replace).0 ≡ done
      → (info : FileInfo) × (sys.snapshot (sys.commit d path bytes mode no_replace).1 path
          ≡ ok (bytes, info))
  pub exists_keeps :
      (d : D) (path bytes : Text) (mode : ℕ) (no_replace : Bool) (p : Text)
      → sys.is_own p ≡ false
      → (sys.commit d path bytes mode no_replace).0 ≡ exists_already
      → sys.snapshot (sys.commit d path bytes mode no_replace).1 p ≡ sys.snapshot d p
  pub failed_keeps :
      (d : D) (path bytes : Text) (mode : ℕ) (no_replace : Bool) (reason p : Text)
      → sys.is_own p ≡ false
      → (sys.commit d path bytes mode no_replace).0 ≡ not_done reason
      → sys.snapshot (sys.commit d path bytes mode no_replace).1 p ≡ sys.snapshot d p
  pub resolve_keeps_clean :
      (d : D) (cwd target path : Text)
      → sys.resolve_existing d cwd target ≡ ok path
      → clean path ≡ path
