-- ===== src/Parse/Lines.antt =====
-- crates/laya-parse/src/lines.rs: the row index of a source. Offsets count characters here and bytes
-- in the source; the rows are the same.
use laya_codex.Common.{
  ℕ, zero, suc, ◌+◌, ◌-◌, Bool, true, false, not, ◌&&◌, none, some, List, [], ◌∷◌, ◌==◌,
  if◌then◌else◌, length, get_elem?, take, drop,
}
use laya_codex.Common.Text.{Text, trim, ends_with}

abbrev newline : ℕ
newline = b'\n'

abbrev carriage_return : ℕ
carriage_return = b'\r'

pub record Lines : Type 0 where
  pub src : Text
  pub starts : List ℕ
  pub blank : List Bool
  pub nonblank : List ℕ

abbrev is_empty : Text → Bool
is_empty [] = true
is_empty (c ∷ s) = false

-- The row starts behind offset `i`, of the rest `s` of the source.
later_starts : ℕ → Text → List ℕ
later_starts i [] = []
later_starts i (c ∷ s) =
    let rest = later_starts (i + 1) s in
    if c == newline && not (is_empty s) then (i + 1) ∷ rest else rest

row_starts : Text → List ℕ
unfolding later_starts
row_starts [] = []
row_starts (c ∷ s) = 0 ∷ later_starts 0 (c ∷ s)

-- Reads of `self.starts[r]`, which the source makes in range.
at : List ℕ → ℕ → ℕ
at [] r = 0
at (x ∷ xs) zero = x
at (x ∷ xs) (suc r) = at xs r

unfoldable pub row_end : Text → List ℕ → ℕ → ℕ
unfolding at ends_with
row_end src starts r = elim (get_elem? starts (r + 1)) [
  | some next ↦ next - 1
  | none ↦ if ends_with (newline ∷ []) src then length src - 1 else length src
]

slice : Text → ℕ → ℕ → Text
slice s a b = take (b - a) (drop a s)

unfoldable pub raw : Text → List ℕ → ℕ → Text
unfolding slice at row_end
raw src starts r = slice src (at starts r) (row_end src starts r)

-- Row numbers `r`, `r + 1`, … as many as there are starts.
blank_from : Text → List ℕ → ℕ → List ℕ → List Bool
unfolding raw trim
blank_from src starts r [] = []
blank_from src starts r (x ∷ xs) =
    is_empty (trim (raw src starts r)) ∷ blank_from src starts (r + 1) xs

-- `nonblank`, from the count so far.
prefix_counts : ℕ → List Bool → List ℕ
prefix_counts acc [] = acc ∷ []
prefix_counts acc (b ∷ bs) = acc ∷ prefix_counts (if b then acc else acc + 1) bs

unfoldable pub new : Text → Lines
unfolding row_starts blank_from prefix_counts
new src =
    let starts = row_starts src in
    let blank = blank_from src starts 0 starts in
    record { src = src; starts = starts; blank = blank; nonblank = prefix_counts 0 blank }

abbrev pub len : Lines → ℕ
len l = length l.starts

-- Reads out of range panic in the source; every caller stays in range.
blank_at : List Bool → ℕ → Bool
blank_at [] r = false
blank_at (b ∷ bs) zero = b
blank_at (b ∷ bs) (suc r) = blank_at bs r

unfoldable pub is_blank : Lines → ℕ → Bool
unfolding blank_at
is_blank l r = blank_at l.blank r

unfoldable pub nonblank_count : Lines → ℕ → ℕ → ℕ
unfolding at
nonblank_count l s e = at l.nonblank (e + 1) - at l.nonblank s

strip_carriage_return : Text → Text
strip_carriage_return t = if ends_with (carriage_return ∷ []) t then take (length t - 1) t else t

unfoldable pub text : Lines → ℕ → ℕ → Text
unfolding slice at row_end strip_carriage_return ends_with
text l s e = strip_carriage_return (slice l.src (at l.starts s) (row_end l.src l.starts e))

unfoldable pub row : Lines → ℕ → Text
unfolding raw
row l r = raw l.src l.starts r
