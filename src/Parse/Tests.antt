-- ===== src/Parse/Tests.antt =====
-- Runs of the chunkers of crates/laya-parse on small files.
use mathlib.Core.Option
use laya_codex.Core.{Lang}
use laya_codex.Common.Repeats.{NoRepeats}
use laya_codex.Parse.Lines
use laya_codex.Parse.Source.{RefOcc, Parsed, max_refs, at_least_one, chunk_refs, chunk_source_with}
use laya_codex.Parse.Source.Guarantee.{Chunked, HasNested, rows_of, chunk_source_with-Chunked}
use laya_codex.Parse.Source.Refs.{IsRef, refers, chunk_refs-IsRef}
use laya_codex.Common.{
  ◌<◌, ◌≤◌, ◌^◌, ◌⊎◌, All, any, length, ltb, map, ℕ, ◌≡◌, refl, Bool, true, false, none, some, List,
  [], ◌∷◌, ◌||◌, ◌==◌, ◌%◌, arith,
}
use laya_codex.Common.Text.{Text, text_eq, codes}
use laya_codex.Parse.Config.{ChunkConfig, Span, default_config}
use laya_codex.Parse.Chunking.{IsChunking}
use laya_codex.Parse.Windows.{spans_of, chunk_text}
use laya_codex.Parse.Windows.Merge.{spans_of-IsChunking}
use laya_codex.Parse.Tree.{Node, Nodes, node_rows, node, nil, cons}
use laya_codex.Parse.Segments.{Seg}
use laya_codex.Parse.Segments.UnitOrder.{IsNested}
use laya_codex.Parse.Segments.Finish.{chunk_segs, spans}
use laya_codex.Parse.Segments.Finish.Outcome.{limits_of, chunk_segs-IsChunking}

-- Each ninth row is blank.
abbrev some_blank : ℕ → Bool
some_blank r = r % 9 == 8

abbrev rows_node : ℕ → ℕ → Nodes → Node
rows_node s e cs =
    node
      (record {
        kind = codes "function_item";
        named = true;
        trivia = false;
        start_row = s;
        end_row = e;
        end_column = 1;
        declaration = none;
        definition = none;
      })
      cs

-- A file of 100 rows: a small function, and one of 80 rows in two blocks.
abbrev two_functions : Node
two_functions = rows_node 0 99 (
    cons (rows_node 0 15 nil)
      (cons (rows_node 17 97 (cons (rows_node 18 60 nil) (cons (rows_node 61 96 nil) nil))) nil))

abbrev small_config : ChunkConfig
small_config = record { min_lines = 2; max_lines = 4; text_window_lines = 3 }

windows_run :
    spans_of small_config 9 (λ r. r == 1 || r == 5)
    ≡ some (
        record { first = 0; last = 2 }
        ∷ record { first = 3; last = 4 }
        ∷ record { first = 6; last = 8 }
        ∷ [])
unfolding spans_of
windows_run = refl

spans_of-IsChunking_example :
    (spans : List Span) × (spans_of default_config 100 some_blank ≡ some spans)
    × IsChunking default_config 100 some_blank spans
spans_of-IsChunking_example = spans_of-IsChunking default_config 100 some_blank (omega arith)

two_functions-IsNested : IsNested (limits_of default_config 100) two_functions
unfolding IsNested node_rows
two_functions-IsNested =
    (omega arith, tt, (omega arith, (omega arith, tt, (omega arith, tt, tt)), tt))

chunk_segs-IsChunking_example :
    (segs : List Seg) × (chunk_segs default_config 100 some_blank two_functions ≡ some segs)
    × IsChunking default_config 100 some_blank (spans segs)
chunk_segs-IsChunking_example =
    chunk_segs-IsChunking default_config 100 some_blank two_functions (omega arith)
      two_functions-IsNested

abbrev long_names : Text → Bool
long_names t = ltb 2 (length t)

abbrev a_source : Text
a_source = codes "fn main() {\n  helper(id);\n  helper(x);\n}\n"

abbrev three_refs : List RefOcc
three_refs =
    record { row = 1; name = codes "helper" }
    ∷ record { row = 1; name = codes "id" }
    ∷ record { row = 2; name = codes "helper" }
    ∷ []

abbrev a_parse : Parsed
a_parse = record { lang = Lang.rust; root = rows_node 0 3 nil; defs = []; refs = three_refs }

a_source-chunked :
    Option.map
      (map rows_of)
      (chunk_source_with long_names default_config (codes "a.rs") a_source none)
    ≡ some (record { first = 0; last = 3 } ∷ [])
unfolding chunk_source_with spans_of chunk_text Lines.new Lines.is_blank
a_source-chunked = refl

a_source-len : Lines.len (Lines.new a_source) < 2 ^ 32
unfolding Lines.new
a_source-len = omega arith

a_parse-HasNested : HasNested (at_least_one default_config) (Lines.new a_source) (some a_parse)
unfolding IsNested
a_parse-HasNested = tt

chunk_source_with-Chunked_example :
    Chunked
      (at_least_one default_config)
      (Lines.new a_source)
      (chunk_source_with long_names default_config (codes "a.rs") a_source (some a_parse))
chunk_source_with-Chunked_example =
    chunk_source_with-Chunked long_names default_config (codes "a.rs") a_source (some a_parse)
      a_source-len a_parse-HasNested

chunk_refs-IsRef_example :
    let out = chunk_refs long_names three_refs [] 0 3 in
    (length out ≤ max_refs)
    × NoRepeats text_eq out
    × All (IsRef long_names []) out
    × ((u : Text)
        → IsRef long_names [] u
        → refers long_names [] u 0 3 three_refs ≡ true
        → (any (text_eq u) out ≡ true) ⊎ (length out ≡ max_refs))
chunk_refs-IsRef_example =
    chunk_refs-IsRef long_names three_refs [] 0 3
      ((omega arith, (omega arith, tt)), ((omega arith, tt), (tt, tt)))
