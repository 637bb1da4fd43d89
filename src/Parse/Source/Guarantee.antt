-- ===== src/Parse/Source/Guarantee.antt =====
-- The guarantee that `chunk_source_with` of crates/laya-parse/src/lib.rs states for its chunks.
use laya_codex.Common.{
  ℕ, ◌+◌, ◌-◌, ◌%◌, ◌^◌, ◌<◌, ◌≡◌, ◌==◌, refl, sym, subst, ap, ap₂, max, if◌then◌else◌, Bool, inl,
  inr, Option, none, some, List, [], ◌∷◌, arith, map, All, Bool-cases,
}
use mathlib.Core.Option
use laya_codex.Common.Text.{Text}
use laya_codex.Core.{Chunk}
use laya_codex.Parse.Config.{ChunkConfig, Span}
use laya_codex.Parse.Merging.{From}
use laya_codex.Parse.Chunking.{HasEdges, IsChunking}
use laya_codex.Parse.Lines
use laya_codex.Parse.Lines.{Lines}
use laya_codex.Parse.Windows.{chunks_from, scan_headings, chunk_text, is_markdown}
use laya_codex.Parse.Windows.Merge.{spans_of-IsChunking}
use laya_codex.Parse.Segments.{Seg}
use laya_codex.Parse.Segments.UnitOrder.{IsNested}
use laya_codex.Parse.Segments.Finish.{spans}
use laya_codex.Parse.Segments.Finish.Outcome.{limits_of, chunk_segs-IsChunking}
use laya_codex.Parse.Source.{
  Parsed, slashes, chunk_of, chunk_tree, at_least_one, chunk_lines, chunk_source_with,
}

-- The rows of a chunk, whose lines count from 1.
abbrev pub rows_of : Chunk → Span
rows_of c = record { first = c.start_line - 1; last = c.end_line - 1 }

abbrev Small : Span → Type 0
Small x = (x.first < 2 ^ 32 - 1) × (x.last < 2 ^ 32 - 1)

line_of : (r : ℕ) → r < 2 ^ 32 - 1 → (r + 1) % 2 ^ 32 - 1 ≡ r
line_of r h = omega arith

chunks_from-rows :
    (path : Text) (l : Lines) (md : Bool) (scanned : ℕ) (symbol : Text) (xs : List Span)
    → All Small xs
    → map rows_of (chunks_from path l md scanned symbol xs) ≡ xs
unfolding chunks_from
chunks_from-rows path l md scanned symbol [] a = refl
chunks_from-rows path l md scanned symbol (x ∷ xs) a =
    ap₂ ◌∷◌
      (ap₂ (λ p q. record { first = p; last = q }) (line_of x.first a.0.0) (line_of x.last a.0.1))
      (chunks_from-rows path l md (if md then max scanned (x.first + 1) else scanned)
        (if md then scan_headings l scanned (x.first + 1 - scanned) symbol else symbol) xs a.1)

chunk_of-rows :
    (admissible : Text → Bool) (path : Text) (l : Lines) (p : Parsed) (xs : List Seg)
    → All Small (spans xs)
    → map rows_of (map (chunk_of admissible path l p) xs) ≡ spans xs
unfolding chunk_of
chunk_of-rows admissible path l p [] a = refl
chunk_of-rows admissible path l p (x ∷ xs) a =
    ap₂ ◌∷◌
      (ap₂ (λ p q. record { first = p; last = q }) (line_of x.start a.0.0) (line_of x.end a.0.1))
      (chunk_of-rows admissible path l p xs a.1)

spans-Small :
    (cfg : ChunkConfig) (n m : ℕ) (blank : ℕ → Bool) (xs : List Span)
    → n < 2 ^ 32
    → From cfg m xs
    → All (HasEdges n blank) xs
    → All Small xs
spans-Small cfg n m blank [] h f e = tt
spans-Small cfg n m blank (x ∷ xs) h f e =
    let last = e.0.2 in
    ((omega arith, omega arith), spans-Small cfg n (x.last + 1) blank xs h f.2 e.1)

-- What the chunks of a file have to be.
abbrev pub Chunked : ChunkConfig → Lines → Option (List Chunk) → Type 0
Chunked cfg l o =
    (chunks : List Chunk) × (o ≡ some chunks)
    × IsChunking cfg (Lines.len l) (Lines.is_blank l) (map rows_of chunks)

-- The rows of each child end within its parent, as far as there is a tree.
abbrev pub HasNested : ChunkConfig → Lines → Option Parsed → Type 0
HasNested cfg l none = Unit {0}
HasNested cfg l (some p) = IsNested (limits_of cfg (Lines.len l)) p.root

chunk_text-Chunked :
    (cfg : ChunkConfig) (path : Text) (l : Lines)
    → 0 < cfg.max_lines
    → Lines.len l < 2 ^ 32
    → Chunked cfg l (chunk_text cfg path l)
unfolding chunk_text
chunk_text-Chunked cfg path l pos few =
    let (xs, e, c) = spans_of-IsChunking cfg (Lines.len l) (Lines.is_blank l) pos in
    let small = spans-Small cfg (Lines.len l) 0 (Lines.is_blank l) xs few c.ordered c.edges in
    (
      chunks_from path l (is_markdown path) 0 [] xs,
      ap (Option.map (chunks_from path l (is_markdown path) 0 [])) e,
      subst (IsChunking cfg (Lines.len l) (Lines.is_blank l))
          (sym (chunks_from-rows path l (is_markdown path) 0 [] xs small)) c,
    )

chunk_tree-Chunked :
    (admissible : Text → Bool) (cfg : ChunkConfig) (path : Text) (l : Lines) (p : Parsed)
    → 0 < cfg.max_lines
    → Lines.len l < 2 ^ 32
    → HasNested cfg l (some p)
    → Chunked cfg l (chunk_tree admissible cfg path l p)
unfolding chunk_tree
chunk_tree-Chunked admissible cfg path l p pos few nested =
    let (xs, e, c) = chunk_segs-IsChunking cfg (Lines.len l) (Lines.is_blank l) p.root pos nested in
    let small =
      spans-Small cfg (Lines.len l) 0 (Lines.is_blank l) (spans xs) few c.ordered c.edges in
    (
      map (chunk_of admissible path l p) xs,
      ap (Option.map (map (chunk_of admissible path l p))) e,
      subst (IsChunking cfg (Lines.len l) (Lines.is_blank l))
          (sym (chunk_of-rows admissible path l p xs small)) c,
    )

chunk_lines-Chunked :
    (admissible : Text → Bool) (cfg : ChunkConfig) (path : Text) (l : Lines) (o : Option Parsed)
    → 0 < cfg.max_lines
    → Lines.len l < 2 ^ 32
    → HasNested cfg l o
    → Chunked cfg l (chunk_lines admissible cfg path l o)
unfolding chunk_lines
chunk_lines-Chunked admissible cfg path l none pos few h = chunk_text-Chunked cfg path l pos few
chunk_lines-Chunked admissible cfg path l (some p) pos few h =
    chunk_tree-Chunked admissible cfg path l p pos few h

-- Whatever the size policy, on a source of fewer than 2 ^ 32 rows, parsed or not, with a tree in
-- which the rows of each child end within its parent: the chunker ends, and the lines of its chunks
-- are sorted without overlap, span at most `max_lines`, begin and end with lines that are not blank,
-- cover every such line, and no chunk below `min_lines` could join a neighbour within `max_lines`,
-- the limits being those asked for, but at least 1.
pub chunk_source_with-Chunked :
    (admissible : Text → Bool) (cfg : ChunkConfig) (path source : Text) (parsed : Option Parsed)
    → Lines.len (Lines.new source) < 2 ^ 32
    → HasNested (at_least_one cfg) (Lines.new source) parsed
    → Chunked
        (at_least_one cfg)
        (Lines.new source)
        (chunk_source_with admissible cfg path source parsed)
unfolding chunk_source_with
chunk_source_with-Chunked admissible cfg path source parsed few nested =
    elim (Bool-cases (Lines.len (Lines.new source) == 0)) [
      | inl e ↦ rw e (
        [],
        refl,
        record {
          ordered = tt;
          apart = tt;
          fits = tt;
          edges = tt;
          whole = λ r h. absurd (ground arith);
        },
      )
      | inr e ↦ rw e (
          chunk_lines-Chunked admissible (at_least_one cfg) (slashes path) (Lines.new source) parsed
            (omega arith) few nested)
    ]
