-- ===== src/Signals.antt =====
-- crates/laya-rank/src/signals.rs: what a prompt asks for. `to_lowercase` follows Unicode; what is
-- compared with it is ASCII, so the characters that have no ASCII letter below them stay as they are.
pub mod Stoplist
pub mod Tokens
pub mod Focus
mod Content
mod Named
mod Tests
use laya_codex.Common.{
  ℕ, zero, suc, ◌+◌, Bool, true, false, not, ◌&&◌, ◌||◌, Option, none, some, List, [], ◌∷◌, ◌++◌,
  ltb, ◌==◌, if◌then◌else◌, length, any, keep_if,
}
use laya_codex.Common.Ordered.{sort_dedup}
use laya_codex.Common.Text.{
  Text, text_eq, codes, has, is_empty, split_by, split_whitespace, trim_by, to_ascii_lowercase,
  is_ascii_alphanumeric,
}
use laya_codex.Ident.{terms, words}
use laya_codex.Sizing.{FollowUpIntent}
use laya_codex.Signals.Stoplist.{prompt_stoplist, back_references, test_words, caller_words}
use laya_codex.Signals.Tokens.{path_mention, scoped_identifiers}

pub record PromptSignals : Type 0 where
  pub terms : List Text
  pub identifiers : List Text
  pub paths : List Text

unfoldable pub is_stopword : Text → Bool
unfolding has
is_stopword term = has term prompt_stoplist

-- The search terms of a prompt.
unfoldable pub signal_terms : Text → List Text
unfolding terms is_stopword
signal_terms prompt = keep_if (λ t. not (is_stopword t)) (terms prompt)

unfoldable pub is_token_char : ℕ → Bool
unfolding is_ascii_alphanumeric
is_token_char c =
    is_ascii_alphanumeric c
    || c == b'_'
    || c == b'/'
    || c == b'.'
    || c == b':'
    || c == b'('
    || c == b')'

-- The identifiers and the paths found so far.
abbrev pub Mentions : Type 0
Mentions = List Text × List Text

unfoldable pub add_mention : Option Text → Text → Mentions → Mentions
unfolding scoped_identifiers
add_mention (some path) token (identifiers, paths) = (identifiers, paths ++ path ∷ [])
add_mention none token (identifiers, paths) = (identifiers ++ scoped_identifiers token, paths)

unfoldable pub add_token : Text → Mentions → Mentions
unfolding is_empty add_mention path_mention
add_token token found =
    let added = add_mention (path_mention token) token found in
    if is_empty token then found else added

unfoldable pub mentions_from : Mentions → List Text → Mentions
unfolding add_token trim_by is_token_char
mentions_from found [] = found
mentions_from found (raw ∷ more) =
    mentions_from (add_token (trim_by (λ c. not (is_token_char c)) raw) found) more

unfoldable pub extract_signals : Text → PromptSignals
unfolding signal_terms mentions_from split_whitespace sort_dedup
extract_signals prompt =
    let (identifiers, paths) = mentions_from ([], []) (split_whitespace prompt) in
    record {
      terms = signal_terms prompt;
      identifiers = sort_dedup identifiers;
      paths = sort_dedup paths;
    }

unfoldable pub content_terms : Text → ℕ
unfolding sort_dedup signal_terms
content_terms prompt = length (sort_dedup (signal_terms prompt))

no_entries : List Text → Bool
no_entries [] = true
no_entries (t ∷ ts) = false

unfoldable pub is_follow_up : Text → Bool
unfolding content_terms extract_signals words to_ascii_lowercase has no_entries
is_follow_up prompt =
    let sig = extract_signals prompt in
    ltb (content_terms prompt) 4
    || any (λ w. has (to_ascii_lowercase w) back_references) (words prompt)
      && no_entries sig.identifiers
      && no_entries sig.paths

-- `windows(2)`: is there `a` followed by one of `b`?
has_pair : Text → List Text → List Text → Bool
unfolding text_eq has
has_pair a b [] = false
has_pair a b (w ∷ []) = false
has_pair a b (w ∷ x ∷ ws) = text_eq w a && has x b || has_pair a b (x ∷ ws)

prompt_words : Text → List Text
unfolding to_ascii_lowercase split_by is_ascii_alphanumeric is_empty
prompt_words prompt =
    keep_if (λ w. not (is_empty w))
      (split_by (λ c. not (is_ascii_alphanumeric c)) (to_ascii_lowercase prompt))

is_used : Text → Bool
unfolding text_eq
is_used w = text_eq w (codes "used") || text_eq w (codes "referenced")

asks_callers : List Text → Bool
unfolding has has_pair is_used
asks_callers ws =
    any (λ w. has w caller_words) ws
    || has_pair (codes "call") (codes "site" ∷ codes "sites" ∷ []) ws
    || has_pair (codes "used") (codes "by" ∷ []) ws
    || has_pair (codes "referenced") (codes "by" ∷ []) ws
    || has (codes "where") ws && any is_used ws

unfoldable pub follow_up_intent : Text → FollowUpIntent
unfolding prompt_words asks_callers has
follow_up_intent prompt = record {
  tests = any (λ w. has w test_words) (prompt_words prompt);
  callers = asks_callers (prompt_words prompt);
}
