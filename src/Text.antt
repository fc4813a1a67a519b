-- ===== src/Text.antt =====
-- Go strings, and the functions of package `strings` that the program calls.
-- A text is the list of its code points. Lower-casing is written out for the letters whose lower
-- case is ASCII: A to Z, U+0130 and the Kelvin sign U+212A. Any other letter is left as it is: its
-- lower case is not ASCII, and the program compares lower-cased texts with ASCII ones only.
pub mod Trim
pub mod Kept
pub mod Laws
pub mod Format
use Prim.Native.Char.{code}
use Prim.Native.String.{String}
use devflow_service.Base.{
  Bool, List, [], false, if◌then◌else◌, leb, ltb, map, true, ℕ, ◌&&◌, ◌+◌, ◌==◌, ◌||◌, ◌∷◌,
}

abbrev pub Text : Type 0
Text = List ℕ

-- The code points of a literal.
abbrev pub codes : String → Text
codes String.[] = []
codes (String.◌∷◌ c s) = code c ∷ codes s

-- `==` on strings.
unfoldable pub text_eq : Text → Text → Bool
text_eq [] [] = true
text_eq (a ∷ s) (b ∷ t) = a == b && text_eq s t
text_eq _ _ = false

-- `strings.Compare(s, t) <= 0`: UTF-8 keeps the order of the code points.
abbrev pub text_leb : Text → Text → Bool
text_leb [] t = true
text_leb (a ∷ s) [] = false
text_leb (a ∷ s) (b ∷ t) = ltb a b || a == b && text_leb s t

unfoldable pub is_empty : Text → Bool
is_empty [] = true
is_empty (c ∷ s) = false

abbrev within : ℕ → ℕ → ℕ → Bool
within lo hi c = leb lo c && leb c hi

-- `unicode.IsSpace`.
unfoldable pub is_space : ℕ → Bool
is_space c =
    within 9 13 c
    || c == 0x20
    || c == 0x85
    || c == 0xa0
    || c == 0x1680
    || within 0x2000 0x200a c
    || c == 0x2028
    || c == 0x2029
    || c == 0x202f
    || c == 0x205f
    || c == 0x3000

unfoldable pub lower_rune : ℕ → ℕ
lower_rune c =
    if within b'A' b'Z' c
    then c + 32
    else if c == 0x130
    then b'i'
    else if c == 0x212a
    then b'k'
    else c

-- `strings.ToLower`.
unfoldable pub to_lower : Text → Text
unfolding lower_rune
to_lower = map lower_rune

abbrev pub replace_rune : ℕ → ℕ → ℕ → ℕ
replace_rune old new c = if c == old then new else c

-- `strings.ReplaceAll` of one ASCII character by another.
unfoldable pub replace_all : ℕ → ℕ → Text → Text
replace_all old new = map (replace_rune old new)

-- `strings.HasPrefix`.
has_prefix : Text → Text → Bool
has_prefix s [] = true
has_prefix [] (p ∷ prefix) = false
has_prefix (c ∷ s) (p ∷ prefix) = c == p && has_prefix s prefix

-- `strings.Contains`.
unfoldable pub contains : Text → Text → Bool
unfolding has_prefix
contains [] sub = has_prefix [] sub
contains (c ∷ s) sub = has_prefix (c ∷ s) sub || contains s sub

-- `strings.TrimLeft` and `strings.TrimRight` for the characters that satisfy `cut`.
pub trim_left : (ℕ → Bool) → Text → Text
trim_left cut [] = []
trim_left cut (c ∷ s) = if cut c then trim_left cut s else c ∷ s

pub trim_right : (ℕ → Bool) → Text → Text
unfolding is_empty
trim_right cut [] = []
trim_right cut (c ∷ s) =
    let rest = trim_right cut s in if is_empty rest && cut c then [] else c ∷ rest

unfoldable pub trim : (ℕ → Bool) → Text → Text
unfolding trim_left trim_right
trim cut s = trim_right cut (trim_left cut s)

-- `strings.TrimSpace`.
unfoldable pub trim_space : Text → Text
unfolding trim is_space
trim_space = trim is_space

-- `strings.EqualFold` against an ASCII text that is lower-cased already.
unfoldable pub equal_fold : Text → Text → Bool
unfolding to_lower text_eq
equal_fold s t = text_eq (to_lower s) (to_lower t)
