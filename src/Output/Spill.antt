-- ===== src/Output/Spill.antt =====
-- The artifact of an output that is longer than its limit, internal/runtimeexec/output.go.
use falken_core.Base.{◌++◌, append-nil, false, none, some, ◌≡◌, arith, is_nil}
use falken_core.Base.Text.{Text}
use falken_core.Output.{Bytes, System, OutputCollector, ensure_artifact, append_artifact}
use falken_core.Output.Slices.{is_nil-eq}

-- The operating system serves every call.
pub record IsServing (sys : System) : Type 0 where
  pub mkdir_all : (path : Text) → sys.mkdir_all path ≡ none
  pub open_file : (path : Text) → sys.open_file path ≡ none
  pub write_file : (path : Text) (content : Bytes) → sys.write_file path content ≡ none
  pub close_file : (path : Text) → sys.close_file path ≡ none

-- A file that is opened and written to.
module _ (sys : System) (serving : IsServing sys) (c : OutputCollector) (overflow : Bytes) where
  unfoldable pub spilled : OutputCollector
  spilled = append_artifact sys (ensure_artifact sys c) overflow

  -- the file holds what was kept, or what it held before, and the overflow
  pub spill_new :
      is_nil c.artifact_root ≡ false
      → c.artifact_file ≡ none
      → c.artifact_err ≡ none
      → spilled ≡ record c {
        artifact_path = sys.artifact_name c.artifact_root;
        artifact_file = some (c.inline ++ overflow);
      }
  unfolding spilled append_artifact ensure_artifact
  spill_new root file err =
      let path = sys.artifact_name c.artifact_root in
      ground (
        arith,
        serving.mkdir_all c.artifact_root,
        serving.open_file path,
        serving.write_file path c.inline,
        serving.write_file path overflow,
        append-nil c.inline,
        is_nil-eq overflow,
      )

  pub spill_more :
      (out : Bytes)
      → c.artifact_file ≡ some out
      → spilled ≡ record c { artifact_file = some (out ++ overflow) }
  unfolding spilled append_artifact ensure_artifact
  spill_more out file =
      ground
        (arith, serving.write_file c.artifact_path overflow, append-nil out, is_nil-eq overflow)
