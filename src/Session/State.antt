-- ===== src/Session/State.antt =====
-- The state of crates/laya-cli/src/session.rs, and what its operations do to parts of a session.
use laya_codex.Common.{
  ℕ, ◌+◌, ◌-◌, ◌%◌, ◌^◌, Bool, true, false, ◌&&◌, Option, none, some, List, [], ◌∷◌, ◌++◌, ltb,
  ◌==◌, if◌then◌else◌, any, drop, length,
}
use laya_codex.Common.Text.{Text, text_eq, join}
use laya_codex.Core.{QueryResult, RankedSpan}

abbrev pub max_sessions : ℕ
max_sessions = 256

abbrev pub max_working_set : ℕ
max_working_set = 40

abbrev pub max_sent : ℕ
max_sent = 200

-- A span whose code was sent: path, first and last line.
pub record Key : Type 0 where
  pub path : Text
  pub start : ℕ
  pub end : ℕ

unfoldable pub key_eq : Key → Key → Bool
unfolding text_eq
key_eq a b = text_eq a.path b.path && a.start == b.start && a.end == b.end

pub record ReadCount : Type 0 where
  pub path : Text
  pub count : ℕ

pub record Session (F : Type 0) : Type 0 where
  pub last : Option (QueryResult F)
  pub working_set : List (RankedSpan F)
  pub reads : List ReadCount
  pub sent : List Key
  pub full_reads : List Text
  pub topic : Option Text
  pub touched : Option ℕ

-- One entry of `map`.
pub record Entry (F : Type 0) : Type 0 where
  pub id : Text
  pub session : Session F

unfoldable pub touched_lt : Option ℕ → Option ℕ → Bool
touched_lt none none = false
touched_lt none (some b) = true
touched_lt (some a) none = false
touched_lt (some a) (some b) = ltb a b

-- `*reads.entry(path).or_insert(0) += 1`.
unfoldable pub count_read : Text → List ReadCount → List ReadCount
unfolding text_eq
count_read path [] = record { path = path; count = 1 } ∷ []
count_read path (r ∷ reads) =
    let rest = count_read path reads in
    if text_eq r.path path then record r { count = (r.count + 1) % 2 ^ 32 } ∷ reads else r ∷ rest

unfoldable pub reads_of : Text → List ReadCount → ℕ
unfolding text_eq
reads_of path [] = 0
reads_of path (r ∷ reads) =
    let rest = reads_of path reads in if text_eq r.path path then r.count else rest

unfoldable pub insert_path : Text → List Text → List Text
unfolding text_eq
insert_path path paths = if any (text_eq path) paths then paths else paths ++ path ∷ []

unfoldable pub push_key : List Key → Key → List Key
unfolding key_eq
push_key sent k = if any (key_eq k) sent then sent else sent ++ k ∷ []

unfoldable pub push_keys : List Key → List Key → List Key
unfolding push_key
push_keys sent [] = sent
push_keys sent (k ∷ keys) = push_keys (push_key sent k) keys

-- `sent.drain(..overflow)`.
unfoldable pub newest : List Key → List Key
newest sent = drop (length sent - max_sent) sent

unfoldable pub whole_file : Text → Key
whole_file path = record { path = path; start = 1; end = 2 ^ 32 - 1 }

unfoldable pub has_some : Option Text → Bool
has_some none = false
has_some (some t) = true

-- What `effective_query` returns: `follow_up` and `named` are what crates/laya-rank says of the prompt.
unfoldable pub effective_text : Option Text → Bool → List Text → Text → Text
unfolding join
effective_text (some topic) true [] prompt = topic
effective_text (some topic) true (n ∷ named) prompt = topic ++ b'\n' ∷ join (b' ' ∷ []) (n ∷ named)
effective_text (some topic) false named prompt = prompt
effective_text none follow_up named prompt = prompt

unfoldable pub new_topic : Option Text → Bool → Text → Option Text
new_topic (some topic) true prompt = some topic
new_topic (some topic) false prompt = some prompt
new_topic none follow_up prompt = some prompt
