-- ===== src/Ident/Terms.antt =====
-- crates/laya-core/src/ident.rs: the terms of a text suit prepare_terms of
-- crates/laya-store/src/query.rs, which drops those that do not.
use laya_codex.Common.{
  ℕ, ◌≤◌, ◌<◌, ◌≡◌, refl, sym, ap, ap₂, subst, Bool, true, false, Option, none, some, List, [], ◌∷◌,
  ◌++◌, arith, leb, ltb, ◌==◌, Bool-cases, inl, inr, keep_if, not, ltb→lt, All, All-append, All-map,
  All-kept, All-unflatten, length-keep_if, length-flatten, length, length-map, ◌&&◌,
}
use laya_codex.Common.Text.{Text, split_on, to_ascii_lowercase, is_empty, ascii_lower}
use laya_codex.Common.Splitting.{split_by-All}
use laya_codex.Ident.{
  is_word_char, is_word, words, boundary, take_part, split_loop, split_segs, split_ident, long_part,
  terms_of, terms_from, terms,
}
use laya_codex.Ident.Lossless.{flatten-split_ident}
use laya_codex.Query.{is_term_char, all_term_chars, is_term, max_term_len}

-- A character of a term in lower case.
abbrev IsPlain : ℕ → Type 0
IsPlain c = (is_term_char c ≡ true) × (ascii_lower c ≡ c)

abbrev IsWordChar : ℕ → Type 0
IsWordChar c = is_word_char c ≡ true

IsPlain-ascii_lower : (c : ℕ) → IsWordChar c → IsPlain (ascii_lower c)
unfolding is_word_char is_term_char ascii_lower
IsPlain-ascii_lower c h = (ground arith, ground arith)

IsPlain-lowercase : (t : Text) → All IsWordChar t → All IsPlain (to_ascii_lowercase t)
unfolding to_ascii_lowercase
IsPlain-lowercase [] a = tt
IsPlain-lowercase (c ∷ t) a = (IsPlain-ascii_lower c a.0, IsPlain-lowercase t a.1)

IsPlain-parts : (word : Text) → All IsWordChar word → All (All IsPlain) (split_ident word)
IsPlain-parts word a = All-unflatten IsPlain (split_ident word) (
    subst (All IsPlain) (sym (flatten-split_ident word))
      (IsPlain-lowercase _ (All-kept IsWordChar (λ c. not (c == b'_')) word a)))

abbrev IsFilled : Text → Type 0
IsFilled t = 0 < length t

IsFilled-take_part :
    (b : Bool) (parts : List Text) (cur : Text)
    → All IsFilled parts
    → All IsFilled (take_part (b && not (is_empty cur)) parts cur).0
unfolding take_part is_empty to_ascii_lowercase
IsFilled-take_part true parts [] a = a
IsFilled-take_part false parts [] a = a
IsFilled-take_part true parts (c ∷ cur) a = All-append IsFilled parts _ a (omega arith, tt)
IsFilled-take_part false parts (c ∷ cur) a = a

IsFilled-split_loop :
    (prev : Option ℕ) (parts : List Text) (cur rest : Text)
    → All IsFilled parts
    → All IsFilled (split_loop prev parts cur rest)
unfolding split_loop
IsFilled-split_loop prev parts cur [] a = IsFilled-take_part true parts cur a
IsFilled-split_loop prev parts cur (c ∷ rest) a =
    let b = boundary prev c rest in
    let (parts', cur') = take_part (b && not (is_empty cur)) parts cur in
    IsFilled-split_loop (some c) parts' (cur' ++ c ∷ []) rest (IsFilled-take_part b parts cur a)

IsFilled-split_segs :
    (parts segs : List Text) → All IsFilled parts → All IsFilled (split_segs parts segs)
unfolding split_segs is_empty
IsFilled-split_segs parts [] a = a
IsFilled-split_segs parts ([] ∷ segs) a = IsFilled-split_segs parts segs a
IsFilled-split_segs parts ((c ∷ seg) ∷ segs) a =
    IsFilled-split_segs (split_loop none parts [] (c ∷ seg)) segs
      (IsFilled-split_loop none parts [] (c ∷ seg) a)

-- A word is at least as long as it has parts.
length-parts : (word : Text) → length (split_ident word) ≤ length word
unfolding split_ident to_ascii_lowercase
length-parts word =
    let kept = keep_if (λ c. not (c == b'_')) word in
    omega (
      arith,
      length-flatten (split_ident word) (IsFilled-split_segs [] (split_on b'_' word) tt),
      ap length (flatten-split_ident word),
      length-map ascii_lower kept,
      length-keep_if (λ c. not (c == b'_')) word,
    )

-- What every term is.
abbrev IsTerm : Text → Type 0
IsTerm t = (2 ≤ length t) × All IsPlain t

IsTerm-long_parts :
    (parts : List Text) → All (All IsPlain) parts → All IsTerm (keep_if long_part parts)
unfolding long_part
IsTerm-long_parts [] a = tt
IsTerm-long_parts (p ∷ parts) a = elim (Bool-cases (ltb 1 (length p))) [
  | inl e ↦ rw e ((omega (arith, ltb→lt 1 (length p) e), a.0), IsTerm-long_parts parts a.1)
  | inr e ↦ rw e (IsTerm-long_parts parts a.1)
]

IsTerm-terms_of : (word : Text) → All IsWordChar word → All IsTerm (terms_of word)
unfolding terms_of to_ascii_lowercase
IsTerm-terms_of word a =
    All-append IsTerm (keep_if long_part (split_ident word)) _
      (IsTerm-long_parts (split_ident word) (IsPlain-parts word a))
      (elim (Bool-cases (ltb 1 (length (split_ident word)))) [
        | inl e ↦ rw e (
          (
            omega (
              arith,
              ltb→lt 1 (length (split_ident word)) e,
              length-parts word,
              length-map ascii_lower word,
            ),
            IsPlain-lowercase word a,
          ),
          tt,
        )
        | inr e ↦ rw e tt
      ])

IsTerm-terms_from : (ws : List Text) → All (All IsWordChar) ws → All IsTerm (terms_from ws)
unfolding terms_from
IsTerm-terms_from [] a = tt
IsTerm-terms_from (word ∷ ws) a =
    All-append IsTerm (terms_of word) (terms_from ws) (IsTerm-terms_of word a.0)
      (IsTerm-terms_from ws a.1)

IsWordChar-not : (c : ℕ) → not (is_word_char c) ≡ false → IsWordChar c
IsWordChar-not c h = ground arith

IsWordChar-words : (text : Text) → All (All IsWordChar) (words text)
unfolding words
IsWordChar-words text =
    All-map _ (λ w a. All-map w IsWordChar-not a)
      (All-kept _ is_word _ (split_by-All (λ c. not (is_word_char c)) text))

lowercase-IsPlain : (t : Text) → All IsPlain t → to_ascii_lowercase t ≡ t
unfolding to_ascii_lowercase
lowercase-IsPlain [] a = refl
lowercase-IsPlain (c ∷ t) a = ap₂ ◌∷◌ a.0.1 (lowercase-IsPlain t a.1)

all_term_chars-IsPlain : (t : Text) → All IsPlain t → all_term_chars t ≡ true
unfolding all_term_chars
all_term_chars-IsPlain [] a = refl
all_term_chars-IsPlain (c ∷ t) a = rw (a.0.0, all_term_chars-IsPlain t a.1) refl

is_term-IsTerm :
    (t : Text) → IsTerm t → is_term (to_ascii_lowercase t) ≡ leb (length t) max_term_len
unfolding is_term
is_term-IsTerm t a =
    rw (lowercase-IsPlain t a.1, all_term_chars-IsPlain t a.1) (ground (arith, a.0))

-- Of the terms of any text, the filter of a query drops exactly those of more than 64 characters.
pub terms-is_term :
    (text : Text)
    → All (λ t. is_term (to_ascii_lowercase t) ≡ leb (length t) max_term_len) (terms text)
unfolding terms
terms-is_term text =
    All-map _ is_term-IsTerm (IsTerm-terms_from (words text) (IsWordChar-words text))
