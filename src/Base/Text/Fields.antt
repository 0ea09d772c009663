-- ===== src/Base/Text/Fields.antt =====
-- strings.FieldsFunc, strings.Fields, strings.Contains and strings.Trim.

use falken_core.Base.{ℕ, [], ◌∷◌, List, Bool, ◌||◌, ◌≡◌, refl, if◌then◌else◌, is_nil}
use falken_core.Base.Text.{Text, codes, has_prefix, is_space, trim_left, trim_right}

abbrev onto_head : ℕ → List Text → List Text
onto_head c [] = (c ∷ []) ∷ []
onto_head c (w ∷ ws) = (c ∷ w) ∷ ws

pieces : (ℕ → Bool) → Text → List Text
pieces p [] = [] ∷ []
pieces p (c ∷ s) = let rest = pieces p s in if p c then [] ∷ rest else onto_head c rest

full : List Text → List Text
full [] = []
full (w ∷ ws) = let rest = full ws in if is_nil w then rest else w ∷ rest

unfoldable pub fields_func : (ℕ → Bool) → Text → List Text
unfolding pieces full
fields_func p s = full (pieces p s)

unfoldable pub fields : Text → List Text
unfolding fields_func is_space
fields s = fields_func is_space s

unfoldable pub contains : Text → Text → Bool
unfolding has_prefix
contains [] t = is_nil t
contains (c ∷ s) t = has_prefix (c ∷ s) t || contains s t

-- strings.Trim with a cutset
unfoldable pub trim_set : (ℕ → Bool) → Text → Text
unfolding trim_left trim_right
trim_set p s = trim_right p (trim_left p s)

fields_drop_blanks : fields (codes "  a\tbc  d ") ≡ codes "a" ∷ codes "bc" ∷ codes "d" ∷ []
unfolding fields
fields_drop_blanks = refl
