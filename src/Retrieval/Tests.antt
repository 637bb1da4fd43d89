-- ===== src/Retrieval/Tests.antt =====
-- Examples of the gate, with fractions as numbers of millionths.
use laya_codex.Common.{
  ℕ, ◌+◌, ◌-◌, ◌*◌, ◌/◌, ◌≡◌, refl, max, true, Option, none, some, [], ◌∷◌, List, ltb, leb, map,
}
use laya_codex.Common.Text.{Text, codes}
use laya_codex.Core.{Chunk, Lang, RankedSpan, QueryResult}
use laya_codex.Fusion.{Floats}
use laya_codex.Spans.{Scored}
use laya_codex.Retrieval.{
  RetrieverConfig, FusedCandidate, asks_for_non_code, path_matches, cap_per_file, demote_non_code,
}
use laya_codex.Retrieval.Gate.{Answer, laya_gate}
use laya_codex.Retrieval.Query.{Reads, CandidateCapture, query_with_capture}

abbrev fractions : Floats ℕ
fractions = record {
  zero = 0;
  one = 1_000_000;
  half = 500_000;
  add = λ a b. a + b;
  sub = λ a b. a - b;
  mul = λ a b. a * b / 1_000_000;
  div = λ a b. a * 1_000_000 / max b 1;
  of_nat = λ n. n * 1_000_000;
  lt = ltb;
  total_lt = ltb;
  ge = λ a b. leb b a;
  max = λ a b. max a b;
}

abbrev config : RetrieverConfig ℕ
config = record {
  k_candidates = 24;
  top_n = 5;
  p_threshold = 300_000;
  min_keep = 2;
  max_total_lines = 400;
  rrf_k = 60_000_000;
  use_laya = true;
  laya_weight = some 500_000;
  max_related = 8;
  score_top = 3;
  usage_lines = 12;
  usage_per_ident = 4;
  test_refs = 0;
  max_per_file = 3;
}

abbrev in_file : Text → Lang → Text → ℕ → FusedCandidate ℕ
in_file path lang id fused = record {
  chunk_id = id;
  chunk = record {
    path = path;
    start_line = 1;
    end_line = 3;
    lang = lang;
    kind = codes "function_item";
    symbol = codes "f";
    defines = [];
    refs = [];
    text = codes "fn f() {}";
  };
  bm25 = 0;
  fused = fused;
}

abbrev four : List (FusedCandidate ℕ)
four =
    in_file (codes "src/a.rs") Lang.rust (codes "a") 40
    ∷ in_file (codes "README.md") Lang.text (codes "b") 30
    ∷ in_file (codes "src/a.rs") Lang.rust (codes "c") 20
    ∷ in_file (codes "src/d.rs") Lang.rust (codes "d") 10
    ∷ []

-- The scorer reaches the first and the third of the three that it is given.
abbrev answer : Answer ℕ
answer task chunks = some (some 100_000 ∷ none ∷ some 900_000 ∷ [])

-- One candidate passes, which is fewer than min_keep: the two best stay.
laya_gate-run :
    map {B = ℕ}
      (λ (s : Scored ℕ). s.score)
      (laya_gate fractions config (some answer) (codes "fix f") four).scored
    ≡ 700_000 ∷ 550_000 ∷ []
unfolding laya_gate
laya_gate-run = refl

cap_per_file-run :
    map {B = Text} (λ (c : FusedCandidate ℕ). c.chunk_id) (cap_per_file four 1 2)
    ≡ codes "a" ∷ codes "b" ∷ []
unfolding cap_per_file
cap_per_file-run = refl

demote_non_code-run :
    map {B = Text × ℕ}
      (λ (c : FusedCandidate ℕ). (c.chunk_id, c.fused))
      (demote_non_code fractions four (codes "fix f"))
    ≡ (codes "a", 40) ∷ (codes "c", 20) ∷ (codes "d", 10) ∷ (codes "b", 15) ∷ []
unfolding demote_non_code
demote_non_code-run = refl

asks_for_non_code-run : asks_for_non_code (codes "Fix the README.") ≡ true
unfolding asks_for_non_code
asks_for_non_code-run = refl

path_matches-run : path_matches (codes "src/a.rs") (codes "a.rs") ≡ true
unfolding path_matches
path_matches-run = refl

abbrev chunk_id : Chunk → Text
chunk_id chunk = chunk.text

abbrev text_chunk : Text → Text → Chunk
text_chunk path text = record {
  path = path;
  start_line = 1;
  end_line = 2;
  lang = Lang.rust;
  kind = codes "function_item";
  symbol = codes "parse_url";
  defines = codes "parse_url" ∷ [];
  refs = [];
  text = text;
}

-- Three chunks; the lookup of references fails.
abbrev reads : Reads ℕ
reads = record {
  lookups = record {
    chunks_defining = λ names n. some (codes "b" ∷ []);
    chunks_referencing = λ names n. none;
    get_chunks = λ ids. some (
        text_chunk (codes "src/a.rs") (codes "a")
        ∷ text_chunk (codes "src/b.rs") (codes "b")
        ∷ text_chunk (codes "src/c.rs") (codes "c")
        ∷ []);
  };
  ensure_index = some tt;
  bm25 = λ names n. some ((codes "a", 3) ∷ (codes "b", 2) ∷ (codes "c", 1) ∷ []);
  list_files = some (codes "src/a.rs" ∷ codes "src/b.rs" ∷ codes "src/c.rs" ∷ []);
}

abbrev prompt : Text
prompt = codes "Why does parse_url fail in src/b.rs?"

abbrev spans_of_answer : Option (QueryResult ℕ × CandidateCapture ℕ) → List (Text × ℕ)
spans_of_answer none = []
spans_of_answer (some a) = map (λ (s : RankedSpan ℕ). (s.path, s.score)) a.0.spans

-- The scorer reaches the first and the last of the three candidates.
query_with_capture-run :
    spans_of_answer
      (query_with_capture fractions config reads chunk_id (λ gs. gs) (some answer) 7 prompt)
    ≡ (codes "src/c.rs", 700_000) ∷ (codes "src/b.rs", 550_000) ∷ []
unfolding query_with_capture
query_with_capture-run = refl
