-- ===== src/Files/Patch/Sides.antt =====
-- The two sides of a hunk, internal/files/patch.go.
use falken_core.Base.{List, [], ◌∷◌, Bool, true, false, if◌then◌else◌}
use falken_core.Base.Text.{Text}
use falken_core.Files.Patch.{LineKind, removal, addition, PatchLine}

-- The lines of a hunk before and after it.
abbrev pub side : (LineKind → Bool) → List PatchLine → List Text
side keeps [] = []
side keeps (line ∷ lines) =
    let rest = side keeps lines in if keeps line.kind then line.text ∷ rest else rest

abbrev pub is_old : LineKind → Bool
is_old addition = false
is_old _ = true

abbrev pub is_new : LineKind → Bool
is_new removal = false
is_new _ = true

abbrev pub old_side : List PatchLine → List Text
old_side = side is_old

abbrev pub new_side : List PatchLine → List Text
new_side = side is_new
