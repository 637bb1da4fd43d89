-- ===== src/Session.antt =====
-- crates/laya-cli/src/session.rs: what the daemon holds for each session. `HashMap` and `HashSet` are
-- lists without repeated keys, `Instant::now()` is an argument of each call, and `f32` is a type `F`
-- with the two comparisons that the code makes.
mod State
mod Keys
mod Bounds
mod Oldest
mod Eviction
mod Tests
unfoldable pub use State.*
use laya_codex.Common.{
  ℕ, suc, zero, ◌+◌, ◌-◌, ◌%◌, ◌^◌, Bool, true, false, not, ◌&&◌, ◌||◌, Option, none, some, List,
  [], ◌∷◌, ◌++◌, leb, ltb, ◌==◌, if◌then◌else◌, any, take, drop, length, map,
}
use laya_codex.Common.Sort
use laya_codex.Common.Text.{Text, text_eq, join}
use laya_codex.Core.{QueryResult, RankedSpan}

module _ {F : Type 0} where
  abbrev pub default_session : Session F
  default_session = record {
    last = none;
    working_set = [];
    reads = [];
    sent = [];
    full_reads = [];
    topic = none;
    touched = none;
  }

  abbrev pub contains : Text → List (Entry F) → Bool
  contains id m = any (λ e. text_eq e.id id) m

  unfoldable pub lookup : Text → List (Entry F) → Option (Session F)
  unfolding text_eq
  lookup id [] = none
  lookup id (e ∷ m) = let rest = lookup id m in if text_eq e.id id then some e.session else rest

  -- `map.remove(id)`.
  unfoldable pub remove : Text → List (Entry F) → List (Entry F)
  unfolding text_eq
  remove id [] = []
  remove id (e ∷ m) = let rest = remove id m in if text_eq e.id id then m else e ∷ rest

  -- `f` on `map.entry(id).or_default()`.
  unfoldable pub upsert : Text → (Session F → Session F) → List (Entry F) → List (Entry F)
  unfolding text_eq
  upsert id f [] = record { id = id; session = f default_session } ∷ []
  upsert id f (e ∷ m) =
      let rest = upsert id f m in
      if text_eq e.id id then record e { session = f e.session } ∷ m else e ∷ rest

  -- `min_by_key`: the first of the entries that were touched longest ago.
  unfoldable pub oldest_of : Entry F → List (Entry F) → Entry F
  unfolding touched_lt
  oldest_of best [] = best
  oldest_of best (e ∷ m) =
      let here = oldest_of e m in
      let past = oldest_of best m in
      if touched_lt e.session.touched best.session.touched then here else past

  remove_oldest : List (Entry F) → List (Entry F)
  unfolding oldest_of remove
  remove_oldest [] = []
  remove_oldest (e ∷ m) = remove (oldest_of e m).id (e ∷ m)

  unfoldable pub evict : Text → List (Entry F) → List (Entry F)
  unfolding remove_oldest
  evict id m = if not (contains id m) && leb max_sessions (length m) then remove_oldest m else m

  -- `get(id)`, and then `f` on the session.
  unfoldable pub with_session : ℕ → Text → (Session F → Session F) → List (Entry F) → List (Entry F)
  unfolding evict upsert
  with_session now id f m = upsert id (λ s. f (record s { touched = some now })) (evict id m)

  or_default : Option (Session F) → Session F
  or_default none = default_session
  or_default (some s) = s

  unfoldable pub session_at : Text → List (Entry F) → Session F
  unfolding lookup or_default
  session_at id m = or_default (lookup id m)

  -- The closure of `find` in `record_query`.
  same_span : RankedSpan F → RankedSpan F → Bool
  unfolding text_eq
  same_span w span =
      text_eq w.path span.path && w.start_line == span.start_line && w.end_line == span.end_line

  note_full : Text → Bool → Session F → Session F
  unfolding insert_path
  note_full path full s = record s {
    full_reads = if full then insert_path path s.full_reads else s.full_reads;
  }

  unfoldable pub read_in : Text → Bool → Session F → Session F
  unfolding note_full count_read
  read_in path full s = record (note_full path full s) { reads = count_read path s.reads }

  unfoldable pub send_in : List Key → Session F → Session F
  unfolding push_keys newest
  send_in keys s = record s { sent = newest (push_keys s.sent keys) }

  unfoldable pub topic_in : Bool → Text → Session F → Session F
  unfolding new_topic
  topic_in follow_up prompt s = record s { topic = new_topic s.topic follow_up prompt }

  unfoldable pub clear_context : Session F → Session F
  clear_context s = record s { sent = []; full_reads = [] }

  unfoldable pub note_read : ℕ → Text → Text → Bool → List (Entry F) → ℕ × List (Entry F)
  unfolding with_session read_in reads_of session_at
  note_read now id path full m =
      let m' = with_session now id (read_in path full) m in
      (reads_of path (session_at id m').reads, m')

  unfoldable pub mark_sent : ℕ → Text → List Key → List (Entry F) → List (Entry F)
  unfolding with_session send_in
  mark_sent now id keys m = with_session now id (send_in keys) m

  unfoldable pub reset_context : ℕ → Text → List (Entry F) → List (Entry F)
  unfolding with_session clear_context
  reset_context now id m = with_session now id clear_context m

  unfoldable pub already : ℕ → Text → List (Entry F) → List Key × List (Entry F)
  unfolding with_session session_at whole_file
  already now id m =
      let m' = with_session now id (λ s. s) m in
      ((session_at id m').sent ++ map whole_file (session_at id m').full_reads, m')

  unfoldable pub view :
      ℕ → Text → List (Entry F) → (Option (QueryResult F) × List (RankedSpan F)) × List (Entry F)
  unfolding with_session session_at
  view now id m =
      let m' = with_session now id (λ s. s) m in
      (((session_at id m').last, (session_at id m').working_set), m')

  unfoldable pub effective_query :
      ℕ → Text → Text → Bool → List Text → List (Entry F) → Text × List (Entry F)
  unfolding with_session session_at evict effective_text topic_in
  effective_query now id prompt follow_up named m =
      let topic = (session_at id (evict id m)).topic in
      (
        effective_text topic follow_up named prompt,
        with_session now id (topic_in follow_up prompt) m,
      )

  unfoldable pub has_topic : Text → List (Entry F) → Bool
  unfolding has_some session_at
  has_topic id m = has_some (session_at id m).topic

-- `gt` is `>` on scores, and `after a b` that `b.total_cmp(a)` is `Greater`.
module _ {F : Type 0} (gt after : F → F → Bool) where
  -- One span of a result into the working set.
  unfoldable pub merge_span : RankedSpan F → List (RankedSpan F) → List (RankedSpan F)
  unfolding same_span
  merge_span span [] = span ∷ []
  merge_span span (w ∷ ws) =
      let rest = merge_span span ws in
      if same_span w span then (if gt span.score w.score then span else w) ∷ ws else w ∷ rest

  merge_spans : List (RankedSpan F) → List (RankedSpan F) → List (RankedSpan F)
  unfolding merge_span
  merge_spans [] ws = ws
  merge_spans (span ∷ spans) ws = merge_spans spans (merge_span span ws)

  abbrev pub after_score : RankedSpan F → RankedSpan F → Bool
  after_score a b = after a.score b.score

  unfoldable pub working_set_with : List (RankedSpan F) → List (RankedSpan F) → List (RankedSpan F)
  unfolding merge_spans
  working_set_with spans ws = take max_working_set (Sort.sort after_score (merge_spans spans ws))

  unfoldable pub query_in : QueryResult F → Session F → Session F
  unfolding working_set_with
  query_in result s = record s {
    last = some result;
    working_set = working_set_with result.spans s.working_set;
  }

  unfoldable pub record_query : ℕ → Text → QueryResult F → List (Entry F) → List (Entry F)
  unfolding with_session query_in
  record_query now id result m = with_session now id (query_in result) m

  -- The calls that change a session.
  pub data Call : Type 0 where
    records : ℕ → Text → QueryResult F → Call
    reads_file : ℕ → Text → Text → Bool → Call
    sends : ℕ → Text → List Key → Call
    asks_already : ℕ → Text → Call
    views : ℕ → Text → Call
    resets : ℕ → Text → Call
    asks_query : ℕ → Text → Text → Bool → List Text → Call

  unfoldable pub step : List (Entry F) → Call → List (Entry F)
  unfolding record_query note_read mark_sent already view reset_context effective_query
  step m (records now id result) = record_query now id result m
  step m (reads_file now id path full) = (note_read now id path full m).1
  step m (sends now id keys) = mark_sent now id keys m
  step m (asks_already now id) = (already now id m).1
  step m (views now id) = (view now id m).1
  step m (resets now id) = reset_context now id m
  step m (asks_query now id prompt follow_up named) =
      (effective_query now id prompt follow_up named m).1

  unfoldable pub run : List (Entry F) → List Call → List (Entry F)
  unfolding step
  run m [] = m
  run m (c ∷ cs) = run (step m c) cs
