-- ===== src/Ident.antt =====
-- crates/laya-core/src/ident.rs: the search terms of a text, for indexing and for queries. A text is
-- the list of its code points; on the words that reach `split_ident` these are its bytes.
mod Lossless
pub mod Terms
mod Tests
use laya_codex.Common.{
  ℕ, Bool, true, false, not, ◌&&◌, ◌||◌, Option, none, some, List, [], ◌∷◌, ◌++◌, ltb, ◌==◌,
  if◌then◌else◌, length, keep_if,
}
use laya_codex.Common.Text.{
  Text, split_by, split_on, to_ascii_lowercase, is_ascii_digit, is_ascii_uppercase,
  is_ascii_lowercase, is_ascii_alphanumeric, is_empty,
}

unfoldable pub is_word_char : ℕ → Bool
unfolding is_ascii_alphanumeric
is_word_char c = is_ascii_alphanumeric c || c == b'_'

starts_with_digit : Text → Bool
unfolding is_ascii_digit
starts_with_digit [] = false
starts_with_digit (c ∷ w) = is_ascii_digit c

pub is_word : Text → Bool
unfolding starts_with_digit is_empty
is_word w = not (is_empty w) && not (starts_with_digit w)

unfoldable pub words : Text → List Text
unfolding split_by is_word_char is_word
words text = keep_if is_word (split_by (λ c. not (is_word_char c)) text)

next_is_lowercase : Text → Bool
unfolding is_ascii_lowercase
next_is_lowercase [] = false
next_is_lowercase (c ∷ rest) = is_ascii_lowercase c

-- Does a part begin at `c`, which follows `prev` and comes before `rest`?
boundary : Option ℕ → ℕ → Text → Bool
unfolding is_ascii_uppercase is_ascii_lowercase is_ascii_digit next_is_lowercase
boundary none c rest = false
boundary (some prev) c rest =
    is_ascii_uppercase c
      && (is_ascii_lowercase prev
          || is_ascii_digit prev
          || next_is_lowercase rest && is_ascii_uppercase prev)
    || is_ascii_digit c && not (is_ascii_digit prev)
    || not (is_ascii_digit c) && is_ascii_digit prev

-- `parts.push(take(&mut cur).to_ascii_lowercase())`, if the test holds.
take_part : Bool → List Text → Text → List Text × Text
unfolding to_ascii_lowercase
take_part true parts cur = (parts ++ to_ascii_lowercase cur ∷ [], [])
take_part false parts cur = (parts, cur)

-- The loop over the characters of a segment.
split_loop : Option ℕ → List Text → Text → Text → List Text
unfolding boundary take_part is_empty
split_loop prev parts cur [] = (take_part (not (is_empty cur)) parts cur).0
split_loop prev parts cur (c ∷ rest) =
    let (parts', cur') = take_part (boundary prev c rest && not (is_empty cur)) parts cur in
    split_loop (some c) parts' (cur' ++ c ∷ []) rest

split_segs : List Text → List Text → List Text
unfolding split_loop is_empty
split_segs parts [] = parts
split_segs parts (seg ∷ segs) =
    let parts' = if is_empty seg then parts else split_loop none parts [] seg in
    split_segs parts' segs

unfoldable pub split_ident : Text → List Text
unfolding split_segs split_on
split_ident word = split_segs [] (split_on b'_' word)

long_part : Text → Bool
long_part p = ltb 1 (length p)

-- The terms that one word adds.
unfoldable pub terms_of : Text → List Text
unfolding split_ident long_part to_ascii_lowercase
terms_of word =
    let parts = split_ident word in
    keep_if long_part parts ++ (if ltb 1 (length parts) then to_ascii_lowercase word ∷ [] else [])

unfoldable pub terms_from : List Text → List Text
unfolding terms_of
terms_from [] = []
terms_from (word ∷ more) = terms_of word ++ terms_from more

unfoldable pub terms : Text → List Text
unfolding words terms_from
terms text = terms_from (words text)
