-- ===== src/Store/Tests.antt =====
-- Examples of the operations of the store, on a server in memory.
use laya_codex.Common.{ℕ, zero, suc, ◌≡◌, refl, arith, true, none, List, [], ◌∷◌, map, All}
use laya_codex.Common.Repeats.{NoRepeats}
use laya_codex.Common.Sort
use laya_codex.Common.Text.{Text, text_eq, codes, is_empty}
use laya_codex.Core.{Chunk, rust}
use laya_codex.Store.Keys.{IsPiece, not_empty}
use laya_codex.Store.Codec.Exact.{cleaned}
use laya_codex.Store.Server.{Trip, ok, World, ◌>>=◌}
use laya_codex.Store.Pipeline.{entry_chunk, new_entries}
use laya_codex.Store.Write.{put_file, delete_file}
use laya_codex.Store.Read.{chunks_of_file, chunks_defining, after_range, matches_from, rank_matches}
use laya_codex.Store.Matched.{IsMatched, matches_from-IsMatched}
use laya_codex.Store.RoundTrip.{chunks_of_file-put_file}
use laya_codex.Store.Memory.{hash, memory, memory-IsServer}

-- An id for tests: the start line in unary.
letters : ℕ → Text
letters zero = b'a' ∷ []
letters (suc n) = b'b' ∷ letters n

test_id : Chunk → Text
unfolding letters
test_id c = letters c.start_line

letters-IsPiece : (n : ℕ) → IsPiece b',' (letters n)
unfolding letters not_empty is_empty
letters-IsPiece zero = (refl, (refl, tt))
letters-IsPiece (suc n) = (refl, (refl, (letters-IsPiece n).1))

test_id-IsPiece : (c : Chunk) → IsPiece b',' (test_id c)
unfolding test_id
test_id-IsPiece c = letters-IsPiece c.start_line

abbrev piece : ℕ → ℕ → Chunk
piece first last = record {
  path = codes "a.rs";
  start_line = first;
  end_line = last;
  lang = rust;
  symbol = codes "impl A";
  kind = codes "impl_item";
  defines = codes "Run" ∷ codes "Go" ∷ codes "Run" ∷ [];
  refs = codes "Stop" ∷ [];
  text = codes "fn run_fast() {}";
}

abbrev two_pieces : List Chunk
two_pieces = piece 5 9 ∷ piece 1 4 ∷ piece 5 9 ∷ []

-- Two attempts of every pipeline are lost.
abbrev bumpy : ℕ → Trip
bumpy n = record { lost = 3 ∷ 1 ∷ []; failure = none }

empty_world : World memory
unfolding memory
empty_world = record { db = λ key. hash []; made = 0 }

chunks_of_file-put_file_example :
    ((put_file bumpy test_id (λ d. d) 4 (codes "r") (codes "a.rs") (codes "h") two_pieces >>= λ _.
    chunks_of_file bumpy (codes "r") (codes "a.rs"))
      empty_world).0
    ≡ ok (Sort.sort after_range (map cleaned (map entry_chunk (new_entries test_id [] two_pieces))))
unfolding empty_world memory
chunks_of_file-put_file_example =
    chunks_of_file-put_file memory-IsServer bumpy (λ n. refl) test_id test_id-IsPiece (λ d. d) 4
      (codes "r") (codes "a.rs") (codes "h") two_pieces
      ((omega arith, omega arith), ((omega arith, omega arith), ((omega arith, omega arith), tt)))
      empty_world (λ i. refl) refl

put_file-defining :
    ((put_file bumpy test_id (λ d. d) 4 (codes "r") (codes "a.rs") (codes "h") two_pieces >>= λ _.
    chunks_defining bumpy (codes "r") (codes "Go" ∷ codes "Gone" ∷ []) 8)
      empty_world).0
    ≡ ok (letters 1 ∷ letters 5 ∷ [])
unfolding put_file chunks_defining ◌>>=◌ memory empty_world test_id letters
put_file-defining = refl

delete_file-defining :
    ((put_file bumpy test_id (λ d. d) 4 (codes "r") (codes "a.rs") (codes "h") two_pieces >>= λ _.
    delete_file bumpy (λ d. d) (codes "r") (codes "a.rs") >>= λ _.
    chunks_defining bumpy (codes "r") (codes "Go" ∷ codes "Gone" ∷ []) 8)
      empty_world).0
    ≡ ok []
unfolding put_file delete_file chunks_defining ◌>>=◌ memory empty_world test_id letters
delete_file-defining = refl

abbrev two_sets : List (List Text)
two_sets = (codes "a" ∷ codes "b" ∷ []) ∷ (codes "b" ∷ []) ∷ []

two_sets-NoRepeats : All (NoRepeats text_eq) two_sets
unfolding text_eq
two_sets-NoRepeats = ((refl, (refl, tt)), ((refl, tt), tt))

matches_from-IsMatched_example : IsMatched two_sets true (matches_from 0 two_sets [])
matches_from-IsMatched_example = matches_from-IsMatched two_sets true two_sets-NoRepeats

-- The chunk in both sets stands before the one that is only in the first.
rank_matches-run : rank_matches (matches_from 0 two_sets []) true 8 ≡ codes "b" ∷ codes "a" ∷ []
unfolding rank_matches matches_from
rank_matches-run = refl
