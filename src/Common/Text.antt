-- ===== src/Common/Text.antt =====
-- Text as the list of its code points, and what the program uses of `str`.
use Prim.Native.Char.{code}
use Prim.Native.String.{String}
use laya_codex.Common.{
  Option, none, some, ℕ, ◌+◌, ◌≡◌, refl, ap₂, ◌↔◌, Bool, true, false, ◌&&◌, ◌||◌, List, [], ◌∷◌,
  ◌++◌, arith, leb, ◌==◌, if◌then◌else◌, map, any, keep_if, not,
}
use mathlib.Core.List.{reverse}

abbrev pub Text : Type 0
Text = List ℕ

abbrev pub codes : String → Text
codes String.[] = []
codes (String.◌∷◌ c s) = code c ∷ codes s

unfoldable pub text_eq : Text → Text → Bool
text_eq [] [] = true
text_eq [] (b ∷ t) = false
text_eq (a ∷ s) [] = false
text_eq (a ∷ s) (b ∷ t) = a == b && text_eq s t

pub text_eq→eq : (s t : Text) → text_eq s t ≡ true → s ≡ t
unfolding text_eq
text_eq→eq [] [] h = refl
text_eq→eq [] (b ∷ t) h = cc
text_eq→eq (a ∷ s) [] h = cc
text_eq→eq (a ∷ s) (b ∷ t) h = ap₂ ◌∷◌ (ground arith) (text_eq→eq s t (ground arith))

pub text_eq_refl : (s : Text) → text_eq s s ≡ true
unfolding text_eq
text_eq_refl [] = refl
text_eq_refl (a ∷ s) = ground (arith, text_eq_refl s)

pub text_eq_sym : (s t : Text) → text_eq s t ≡ text_eq t s
unfolding text_eq
text_eq_sym [] [] = refl
text_eq_sym [] (b ∷ t) = refl
text_eq_sym (a ∷ s) [] = refl
text_eq_sym (a ∷ s) (b ∷ t) = ground (arith, text_eq_sym s t)

pub text_eq_iff : (s t : Text) → (text_eq s t ≡ true) ↔ (s ≡ t)
text_eq_iff s t = (text_eq→eq s t, λ e. rw e (text_eq_refl t))

-- `char::is_whitespace`, the Unicode property White_Space.
unfoldable pub is_whitespace : ℕ → Bool
is_whitespace c =
    leb 9 c && leb c 13
    || c == 0x20
    || c == 0x85
    || c == 0xa0
    || c == 0x1680
    || leb 0x2000 c && leb c 0x200a
    || c == 0x2028
    || c == 0x2029
    || c == 0x202f
    || c == 0x205f
    || c == 0x3000

-- Drops the longest prefix on which `p` holds.
unfoldable pub trim_start_by : (ℕ → Bool) → Text → Text
trim_start_by p [] = []
trim_start_by p (c ∷ s) = let rest = trim_start_by p s in if p c then rest else c ∷ s

unfoldable pub trim_start : Text → Text
unfolding trim_start_by is_whitespace
trim_start = trim_start_by is_whitespace

unfoldable pub trim : Text → Text
unfolding trim_start
trim s = reverse (trim_start (reverse (trim_start s)))

unfoldable pub starts_with : Text → Text → Bool
starts_with [] s = true
starts_with (a ∷ p) [] = false
starts_with (a ∷ p) (b ∷ s) = a == b && starts_with p s

unfoldable pub ends_with : Text → Text → Bool
unfolding starts_with
ends_with p s = starts_with (reverse p) (reverse s)

unfoldable pub ascii_lower : ℕ → ℕ
ascii_lower c = if leb b'A' c && leb c b'Z' then c + 32 else c

unfoldable pub to_ascii_lowercase : Text → Text
unfolding ascii_lower
to_ascii_lowercase = map ascii_lower

unfoldable pub add_to_first : ℕ → List Text → List Text
add_to_first a [] = (a ∷ []) ∷ []
add_to_first a (piece ∷ pieces) = (a ∷ piece) ∷ pieces

-- `split(p)`: the pieces between the characters with `p`, one more than there are of these.
unfoldable pub split_by : (ℕ → Bool) → Text → List Text
unfolding add_to_first
split_by p [] = [] ∷ []
split_by p (a ∷ s) = let pieces = split_by p s in if p a then [] ∷ pieces else add_to_first a pieces

unfoldable pub split_on : ℕ → Text → List Text
unfolding split_by
split_on c = split_by (λ a. a == c)

-- `join`, with a separator.
unfoldable pub join : Text → List Text → Text
join sep [] = []
join sep (s ∷ []) = s
join sep (s ∷ t ∷ rest) = s ++ (sep ++ join sep (t ∷ rest))

unfoldable pub is_ascii_digit : ℕ → Bool
is_ascii_digit c = leb b'0' c && leb c b'9'

unfoldable pub is_ascii_uppercase : ℕ → Bool
is_ascii_uppercase c = leb b'A' c && leb c b'Z'

unfoldable pub is_ascii_lowercase : ℕ → Bool
is_ascii_lowercase c = leb b'a' c && leb c b'z'

unfoldable pub is_ascii_alphanumeric : ℕ → Bool
unfolding is_ascii_digit is_ascii_uppercase is_ascii_lowercase
is_ascii_alphanumeric c = is_ascii_digit c || is_ascii_uppercase c || is_ascii_lowercase c

unfoldable pub is_empty : Text → Bool
is_empty [] = true
is_empty (c ∷ s) = false

-- Is the text in the list?
unfoldable pub has : Text → List Text → Bool
unfolding text_eq
has t = any (text_eq t)

-- Without the last piece if it is empty, and each without a carriage return at its end.
strip_cr : Text → Text
strip_cr [] = []
strip_cr (c ∷ []) = if c == b'\r' then [] else c ∷ []
strip_cr (c ∷ d ∷ s) = c ∷ strip_cr (d ∷ s)

lines_of : List Text → List Text
unfolding strip_cr
lines_of [] = []
lines_of ([] ∷ []) = []
lines_of (s ∷ []) = s ∷ []
lines_of (s ∷ t ∷ rest) = strip_cr s ∷ lines_of (t ∷ rest)

-- `str::lines`.
unfoldable pub lines : Text → List Text
unfolding lines_of split_on
lines s = lines_of (split_on b'\n' s)

rsplit_step : ℕ → ℕ → Text → Option (Text × Text) → Option (Text × Text)
rsplit_step sep c s (some parts) = some (c ∷ parts.0, parts.1)
rsplit_step sep c s none = if c == sep then some ([], s) else none

-- `rsplit_once(c)`: before and after the last `c`.
unfoldable pub rsplit_once : ℕ → Text → Option (Text × Text)
unfolding rsplit_step
rsplit_once sep [] = none
rsplit_once sep (c ∷ s) = rsplit_step sep c s (rsplit_once sep s)

-- `trim_end_matches(p)` and `trim_matches(p)`.
unfoldable pub trim_end_by : (ℕ → Bool) → Text → Text
unfolding trim_start_by
trim_end_by p s = reverse (trim_start_by p (reverse s))

unfoldable pub trim_by : (ℕ → Bool) → Text → Text
unfolding trim_start_by trim_end_by
trim_by p s = trim_end_by p (trim_start_by p s)

-- Is the first text a part of the second?
unfoldable pub is_within : Text → Text → Bool
unfolding starts_with
is_within p [] = starts_with p []
is_within p (c ∷ s) = starts_with p (c ∷ s) || is_within p s

-- `split_whitespace`
unfoldable pub split_whitespace : Text → List Text
unfolding split_by is_whitespace is_empty
split_whitespace s = keep_if (λ t. not (is_empty t)) (split_by is_whitespace s)
