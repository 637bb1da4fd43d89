-- ===== src/Signals/Tokens.antt =====
-- crates/laya-rank/src/signals.rs: paths and identifiers named in a prompt.
use laya_codex.Common.{
  ℕ, ◌-◌, Bool, true, false, not, ◌&&◌, ◌||◌, Option, none, some, List, [], ◌∷◌, ◌==◌,
  if◌then◌else◌, length, any, take, drop,
}
use laya_codex.Common.Options.{◌>>=◌}
use laya_codex.Common.Text.{
  Text, codes, has, is_empty, split_on, add_to_first, rsplit_once, ends_with, trim_end_by,
  to_ascii_lowercase, is_ascii_uppercase, is_ascii_lowercase,
}
use laya_codex.Ident.{is_word_char}
use laya_codex.Signals.Stoplist.{path_extensions}

pub ends_path : ℕ → Bool
ends_path c = c == b',' || c == b';' || c == b')' || c == b'(' || c == b'.'

pub last_of : Text → List Text → Text
last_of t [] = t
last_of t (u ∷ us) = last_of u us

-- What stands before the last dot, or all.
pub base_of : Text → Option (Text × Text) → Text
base_of name none = name
base_of name (some parts) = parts.0

unfoldable pub path_mention : Text → Option Text
unfolding ends_path trim_end_by rsplit_once has to_ascii_lowercase last_of split_on base_of is_empty
path_mention token =
    let core = trim_end_by ends_path token in
    let name = last_of core (split_on b'/' core) in
    do
      parts ← rsplit_once b'.' core
      if not (has (to_ascii_lowercase parts.1) path_extensions)
            || is_empty (base_of name (rsplit_once b'.' name))
          then none
          else some core

pub ends_token : ℕ → Bool
ends_token c = c == b',' || c == b';' || c == b'.'

-- `split("::")`.
pub split_scope : Text → List Text
unfolding add_to_first
split_scope [] = [] ∷ []
split_scope (c ∷ []) = (c ∷ []) ∷ []
split_scope (c ∷ d ∷ s) =
    let next = split_scope s in
    let more = split_scope (d ∷ s) in
    if c == b':' && d == b':' then [] ∷ next else add_to_first c more

all_word_chars : Text → Bool
unfolding is_word_char
all_word_chars [] = true
all_word_chars (c ∷ s) = is_word_char c && all_word_chars s

unfoldable pub is_identifier_shaped : Text → Bool
unfolding is_ascii_uppercase is_ascii_lowercase all_word_chars
is_identifier_shaped [] = false
is_identifier_shaped (c ∷ s) =
    (is_ascii_uppercase c || is_ascii_lowercase c || c == b'_') && all_word_chars (c ∷ s)

unfoldable pub is_explicit_identifier : Text → Bool
unfolding is_identifier_shaped is_ascii_lowercase is_ascii_uppercase
is_explicit_identifier word =
    is_identifier_shaped word
    && (any (λ c. c == b'_') word
        || any is_ascii_uppercase (drop 1 word) && any is_ascii_lowercase word)

-- `strip_suffix("()")`.
unfoldable pub strip_call : Text → Option Text
unfolding ends_with
strip_call part = if ends_with (codes "()") part then some (take (length part - 2) part) else none

-- The identifier in one part, if it has one.
unfoldable pub named_in : Bool → Text → Option Text → Option Text
unfolding is_empty is_identifier_shaped is_explicit_identifier
named_in is_scoped part (some name) =
    if not (is_empty name) && is_identifier_shaped name then some name else none
named_in is_scoped part none =
    if not (is_empty part) && is_scoped && is_identifier_shaped part || is_explicit_identifier part
    then some part
    else none

push_named : Option Text → List Text → List Text
push_named none names = names
push_named (some name) names = name ∷ names

unfoldable pub names_in : Bool → List Text → List Text
unfolding named_in strip_call push_named
names_in is_scoped [] = []
names_in is_scoped (part ∷ parts) =
    push_named (named_in is_scoped part (strip_call part)) (names_in is_scoped parts)

-- A text with `::` has more than one part.
pub several : List Text → Bool
several [] = false
several (t ∷ []) = false
several (t ∷ u ∷ ts) = true

unfoldable pub scoped_identifiers : Text → List Text
unfolding ends_token trim_end_by split_scope names_in several
scoped_identifiers token =
    let parts = split_scope (trim_end_by ends_token token) in names_in (several parts) parts
