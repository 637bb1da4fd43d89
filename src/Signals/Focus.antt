-- ===== src/Signals/Focus.antt =====
-- crates/laya-rank/src/signals.rs: the part of a prompt that describes the task.
use laya_codex.Common.{
  ℕ, Bool, true, not, ◌&&◌, ◌||◌, Option, none, some, List, [], ◌∷◌, ◌++◌, leb, ◌==◌, if◌then◌else◌,
  any, keep_if, map, flatten,
}
use laya_codex.Common.Text.{
  Text, codes, is_empty, join, trim, is_whitespace, ascii_lower, starts_with, is_within,
}
use laya_codex.Signals.{content_terms}
use laya_codex.Signals.Stoplist.{output_format_markers}

abbrev min_quoted_task_terms : ℕ
min_quoted_task_terms = 3

push_trimmed : Text → List Text → List Text
unfolding trim is_empty
push_trimmed s out = let t = trim s in if is_empty t then out else out ++ t ∷ []

-- The loop of `quoted_passages`: the open passage, with the quote that closes it.
quoted_from : Option (ℕ × Text) → List Text → Text → List Text
unfolding push_trimmed
quoted_from state out [] = out
quoted_from none out (c ∷ s) =
    quoted_from
      (if c == b'"' then some (b'"', []) else if c == 0x201c then some (0x201d, []) else none) out s
quoted_from (some (close, q)) out (c ∷ s) =
    let shut = c == close in
    quoted_from (if shut then none else some (close, q ++ c ∷ []))
      (if shut then push_trimmed q out else out) s

unfoldable pub quoted_passages : Text → List Text
unfolding quoted_from
quoted_passages = quoted_from none []

-- `peek().is_none_or(is_whitespace)`.
next_is_space : Text → Bool
unfolding is_whitespace
next_is_space [] = true
next_is_space (c ∷ s) = is_whitespace c

is_stop : ℕ → Bool
is_stop c = c == b'.' || c == b'!' || c == b'?'

-- The loop of `sentences`; `cur` is the text since the last end.
sentences_from : Text → List Text → Text → List Text
unfolding push_trimmed next_is_space is_stop
sentences_from cur out [] = push_trimmed cur out
sentences_from cur out (c ∷ s) =
    let stop = is_stop c && next_is_space s in
    let line = c == b'\n' in
    sentences_from (if line then c ∷ [] else if stop then [] else cur ++ c ∷ [])
      (if line
        then push_trimmed cur out
        else if stop
        then push_trimmed (cur ++ c ∷ []) out
        else out)
      s

unfoldable pub sentences : Text → List Text
unfolding sentences_from
sentences = sentences_from [] []

-- The characters beside A to Z that have an ASCII letter in lower case: the Kelvin sign and the dotted
-- capital I.
lower_char : ℕ → Text
unfolding ascii_lower
lower_char c =
    if c == 0x212a then b'k' ∷ [] else if c == 0x130 then b'i' ∷ 0x307 ∷ [] else ascii_lower c ∷ []

to_lowercase : Text → Text
unfolding lower_char
to_lowercase s = flatten (map lower_char s)

unfoldable pub is_output_instruction : Text → Bool
unfolding to_lowercase starts_with is_within
is_output_instruction sentence =
    let lower = to_lowercase sentence in
    starts_with (codes "files:") lower || any (λ m. is_within m lower) output_format_markers

-- With the sentences that are kept.
unfoldable pub focus_on : Text → List Text → Text
unfolding content_terms join
focus_on prompt [] = prompt
focus_on prompt (s ∷ kept) =
    let joined = join (b' ' ∷ []) (s ∷ kept) in if content_terms joined == 0 then prompt else joined

-- With the quoted passages that are a task.
unfoldable pub focus_with : Text → List Text → Text
unfolding focus_on sentences is_output_instruction join
focus_with prompt [] =
    focus_on prompt (keep_if (λ s. not (is_output_instruction s)) (sentences prompt))
focus_with prompt (q ∷ quoted) = join (b'\n' ∷ []) (q ∷ quoted)

unfoldable pub task_quote : Text → Bool
unfolding content_terms
task_quote q = leb min_quoted_task_terms (content_terms q)

unfoldable pub task_focus : Text → Text
unfolding focus_with quoted_passages task_quote
task_focus prompt = focus_with prompt (keep_if task_quote (quoted_passages prompt))
