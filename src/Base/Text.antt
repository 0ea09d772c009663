-- ===== src/Base/Text.antt =====
-- Go's `string` and the functions of its package `strings` that the program calls.
-- A text is the list of the code points of a valid UTF-8 string. Prefixes, suffixes, separators and
-- equality are the same on code points as on bytes; `byte_length` is Go's `len`.
pub mod Laws
pub mod Split
pub mod Decimal
pub mod Fields
use Prim.Native.Nat.{ℕ, zero, suc, ◌+◌, ◌-◌}
use Prim.Native.Char.{code}
use Prim.Native.String.{String}
use mathlib.Core.Bool.{Bool, true, false, ◌&&◌, ◌||◌}
use mathlib.Core.List.{List, [], ◌∷◌, ◌++◌, map}
use falken_core.Base.Tests.{ltb, leb, ◌==◌, if◌then◌else◌}
use falken_core.Base.Lists.{length, drop, is_nil}

abbrev pub Text : Type 0
Text = List ℕ

abbrev pub codes : String → Text
codes String.[] = []
codes (String.◌∷◌ c s) = code c ∷ codes s

unfoldable pub text_eq : Text → Text → Bool
text_eq [] [] = true
text_eq [] (d ∷ t) = false
text_eq (c ∷ s) [] = false
text_eq (c ∷ s) (d ∷ t) = c == d && text_eq s t

-- strings.HasPrefix(s, prefix)
unfoldable pub has_prefix : Text → Text → Bool
has_prefix s [] = true
has_prefix [] (d ∷ t) = false
has_prefix (c ∷ s) (d ∷ t) = c == d && has_prefix s t

-- strings.HasSuffix(s, suffix)
unfoldable pub has_suffix : Text → Text → Bool
unfolding text_eq
has_suffix s t = leb (length t) (length s) && text_eq (drop (length s - length t) s) t

-- strings.TrimLeftFunc, strings.TrimRightFunc
unfoldable pub trim_left : (ℕ → Bool) → Text → Text
trim_left p [] = []
trim_left p (c ∷ s) = let rest = trim_left p s in if p c then rest else c ∷ s

unfoldable pub trim_right : (ℕ → Bool) → Text → Text
trim_right p [] = []
trim_right p (c ∷ s) = let rest = trim_right p s in if p c && is_nil rest then [] else c ∷ rest

-- unicode.IsSpace
unfoldable pub is_space : ℕ → Bool
is_space c =
    leb 9 c && leb c 13
    || c == 32
    || c == 0x85
    || c == 0xa0
    || c == 0x1680
    || leb 0x2000 c && leb c 0x200a
    || c == 0x2028
    || c == 0x2029
    || c == 0x202f
    || c == 0x205f
    || c == 0x3000

-- strings.TrimSpace
unfoldable pub trim_space : Text → Text
unfolding trim_left trim_right is_space
trim_space s = trim_right is_space (trim_left is_space s)

-- strings.TrimRight(s, c) for a cutset of one character
unfoldable pub trim_right_char : ℕ → Text → Text
unfolding trim_right
trim_right_char c s = trim_right (λ d. d == c) s

-- strings.ToLower at texts whose upper-case letters are ASCII
unfoldable pub lower : ℕ → ℕ
lower c = if leb b'A' c && leb c b'Z' then c + 32 else c

unfoldable pub to_lower : Text → Text
unfolding lower
to_lower = map lower

-- strings.ReplaceAll for one character by another
unfoldable pub replace_char : ℕ → ℕ → Text → Text
replace_char old new [] = []
replace_char old new (c ∷ s) = (if c == old then new else c) ∷ replace_char old new s

unfoldable pub contains_char : ℕ → Text → Bool
contains_char c [] = false
contains_char c (d ∷ s) = d == c || contains_char c s

-- Membership in a set of keys, such as the keys of a `map[string]struct{}`.
unfoldable pub has_key : Text → List Text → Bool
unfolding text_eq
has_key k [] = false
has_key k (j ∷ keys) = text_eq j k || has_key k keys

-- len(s), the bytes of the UTF-8 encoding
unfoldable pub utf8_width : ℕ → ℕ
utf8_width c = if ltb c 0x80 then 1 else if ltb c 0x800 then 2 else if ltb c 0x10000 then 3 else 4

unfoldable pub byte_length : Text → ℕ
unfolding utf8_width
byte_length [] = 0
byte_length (c ∷ s) = utf8_width c + byte_length s
