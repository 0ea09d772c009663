-- ===== src/Files/Patch.antt =====
-- Unified patches, internal/files/patch.go: a patch in its parsed form.
pub mod Errors
pub mod Tokens
pub mod Headers
pub mod Parse
pub mod Sides
pub mod Hunks
pub mod Applies
pub mod Balance
use falken_core.Base.{ℕ, List, Bool}
use falken_core.Base.Text.{Text}

-- The parser lets no other kind pass than ' ', '-' and '+'.
pub data LineKind : Type 0 where
  context removal addition : LineKind

pub record PatchLine : Type 0 where
  pub kind : LineKind
  pub text : Text

pub record PatchHunk : Type 0 where
  pub old_start : ℕ
  pub old_count : ℕ
  pub new_start : ℕ
  pub new_count : ℕ
  pub lines : List PatchLine

pub record PatchFile : Type 0 where
  pub old_path : Text
  pub new_path : Text
  pub old_dev_null : Bool
  pub new_dev_null : Bool
  pub new_mode : ℕ
  pub has_new_mode : Bool
  pub saw_mode_metadata : Bool
  pub hunks : List PatchHunk
