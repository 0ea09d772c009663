-- ===== src/Path.antt =====
-- Go's filepath.Clean on a Unix host, by its documented rules: the elements between slashes are kept
-- but for the empty ones and `.`, and a `..` removes the element before it.
pub mod Idempotent
pub mod Trailing
use mathlib.Core.List.{foldl, reverse}
use falken_core.Base.{List, [], ◌∷◌, Bool, true, false, ◌||◌, ◌≡◌, refl, if◌then◌else◌, is_nil}
use falken_core.Base.Text.{Text, codes, text_eq, has_prefix}
use falken_core.Base.Text.Split.{split, join}

abbrev pub slash : Text
slash = b'/' ∷ []

abbrev pub dot : Text
dot = b'.' ∷ []

abbrev pub dot_dot : Text
dot_dot = b'.' ∷ b'.' ∷ []

-- The elements kept so far, the last one first.
back : Bool → List Text → List Text
back rooted [] = if rooted then [] else dot_dot ∷ []
back rooted (w ∷ kept) = if text_eq w dot_dot then dot_dot ∷ (w ∷ kept) else kept

pub push : Bool → List Text → Text → List Text
unfolding back
push rooted kept w =
    if is_nil w || text_eq w dot
    then kept
    else if text_eq w dot_dot
    then back rooted kept
    else w ∷ kept

pub reduce : Bool → List Text → List Text
unfolding push
reduce rooted ws = reverse (foldl (push rooted) [] ws)

pub render : Bool → Text → Text
render true body = b'/' ∷ body
render false body = if is_nil body then dot else body

unfoldable pub clean : Text → Text
unfolding reduce render split join text_eq has_prefix
clean p =
    if is_nil p
    then dot
    else let rooted = has_prefix p slash in
      render rooted (join slash (reduce rooted (split b'/' p)))

clean_dots : clean (codes "/w//a/./b/../c/") ≡ codes "/w/a/c"
unfolding clean
clean_dots = refl

clean_up : clean (codes "a/../../b") ≡ codes "../b"
unfolding clean
clean_up = refl

clean_root : clean (codes "/..") ≡ codes "/"
unfolding clean
clean_root = refl
