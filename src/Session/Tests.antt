-- ===== src/Session/Tests.antt =====
-- Runs of the sessions of crates/laya-cli/src/session.rs, with scores that are natural numbers.
use laya_codex.Common.{ℕ, ◌≡◌, refl, true, false, some, List, [], ◌∷◌, arith, ltb}
use laya_codex.Common.Text.{codes}
use laya_codex.Core.{QueryResult, lexical}
use laya_codex.Session.{
  Key, Entry, Call, records, reads_file, sends, lookup, session_at, with_session, send_in,
  note_read, run,
}
use laya_codex.Session.Bounds.{IsBounded, run-IsBounded}
use laya_codex.Session.Eviction.{MakesRoom, with_session-lookup}

abbrev a_key : Key
a_key = record { path = codes "x.rs"; start = 1; end = 20 }

abbrev no_spans : QueryResult ℕ
no_spans = record {
  spans = [];
  mode = lexical;
  elapsed_ms = 1;
  candidates = 3;
  scored = 0;
  offered = 0;
  related = [];
}

abbrev no_sessions : List (Entry ℕ)
no_sessions = []

abbrev three_calls : List (Call ltb ltb)
three_calls =
    sends 1 (codes "a") (a_key ∷ a_key ∷ [])
    ∷ records 2 (codes "b") no_spans
    ∷ reads_file 3 (codes "a") (codes "y.rs") true
    ∷ []

no_sessions-IsBounded : IsBounded no_sessions
no_sessions-IsBounded = record { few = omega arith; distinct = tt; small = tt }

note_read-counts :
    (note_read 4 (codes "a") (codes "y.rs") false (run ltb ltb no_sessions three_calls)).0 ≡ 2
unfolding note_read run
note_read-counts = refl

run-IsBounded_example : IsBounded (run ltb ltb no_sessions three_calls)
run-IsBounded_example = run-IsBounded ltb ltb no_sessions three_calls no_sessions-IsBounded

with_session-lookup_example :
    let m = run ltb ltb no_sessions three_calls in
    let out = with_session 9 (codes "b") (send_in (a_key ∷ [])) m in
    (lookup (codes "b") out
      ≡ some (send_in (a_key ∷ []) (record (session_at (codes "b") m) { touched = some 9 })))
    × MakesRoom (codes "b") m out
with_session-lookup_example =
    with_session-lookup 9 (codes "b") (send_in (a_key ∷ [])) (run ltb ltb no_sessions three_calls)
      (run-IsBounded ltb ltb no_sessions three_calls no_sessions-IsBounded).distinct
