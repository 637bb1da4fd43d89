-- ===== src/Parse/Segments/Finish/Outcome.antt =====
-- What `chunk_tree` of crates/laya-parse/src/cast.rs makes of the rows of a file.
use laya_codex.Common.{
  ◌/◌, ◌==◌, ℕ, ◌+◌, ◌*◌, ◌<◌, ◌≡◌, refl, ◌∙◌, max, Bool, true, false, inl, inr, some, List, [],
  ◌∷◌, ◌++◌, arith, All, All-append, length, length-map, rev_onto, Bool-cases,
}
use laya_codex.Common.Sort
use laya_codex.Parse.Config.{ChunkConfig, Span, covers, rows}
use laya_codex.Parse.Tree.{Node}
use laya_codex.Parse.Merging.{From, From-mono, Fits}
use laya_codex.Parse.Merging.Outcome.{Walks-IsMerged, Walks-All}
use laya_codex.Parse.Chunking.{HasEdges, IsChunking}
use laya_codex.Parse.Segments.{Seg, Limits}
use laya_codex.Parse.Segments.UnitOrder.{IsNested}
use laya_codex.Parse.Segments.Walk.{segment}
use laya_codex.Parse.Segments.Walk.Order.{Emitted}
use laya_codex.Parse.Segments.Walk.Descent.{segment-Emitted}
use laya_codex.Parse.Segments.Finish.{
  span_of, spans, after_start, trim_all, extra_from, with_extra, add_extra, finish, chunk_segs,
}
use laya_codex.Parse.Segments.Finish.Trimmed.{IsTrimmed, trim_all-IsTrimmed}
use laya_codex.Parse.Segments.Finish.Extra.{IsExtra, extra_from-IsExtra}
use laya_codex.Parse.Segments.Finish.Sorted.{
  append-Clear, From-Clear, sort-From, covers-sort, covers-append,
}
use laya_codex.Parse.Segments.Finish.Small.{merge_small-Walks}

All-spans {κ} : (P : Span → Type κ) (xs : List Seg) → All P (spans xs) → All (λ s. P (span_of s)) xs
All-spans P [] a = tt
All-spans P (x ∷ xs) a = (a.0, All-spans P xs a.1)

spans-All {κ} : (P : Span → Type κ) (xs : List Seg) → All (λ s. P (span_of s)) xs → All P (spans xs)
spans-All P [] a = tt
spans-All P (x ∷ xs) a = (a.0, spans-All P xs a.1)

-- What holds of all spans of two lists holds of the sorted whole.
All-sorted :
    (P : Span → Type 0) (xs ys : List Seg)
    → All P (spans xs)
    → All P (spans ys)
    → All P (spans (Sort.sort after_start (xs ++ ys)))
All-sorted P xs ys a b = spans-All P (Sort.sort after_start (xs ++ ys)) (
    Sort.All-sort after_start (λ s. P (span_of s)) (xs ++ ys)
      (All-append (λ s. P (span_of s)) xs ys (All-spans P xs a) (All-spans P ys b)))

module _ (cfg : ChunkConfig) (n : ℕ) (blank : ℕ → Bool) where
  -- Before the merge: as afterwards, but for the small ones.
  record IsWhole (segs : List Seg) : Type 0 where
    ordered : From cfg 0 (spans segs)
    fits : All (Fits cfg) (spans segs)
    edges : All (HasEdges n blank) (spans segs)
    whole : (r : ℕ) → r < n → blank r ≡ false → covers (spans segs) r ≡ true

  with_extra-IsWhole :
      (segs extra : List Seg)
      → IsTrimmed n blank cfg 0 segs
      → IsExtra cfg n (covers (spans segs)) blank 0 extra
      → IsWhole (with_extra segs extra)
  unfolding with_extra
  with_extra-IsWhole segs [] t x = record {
    ordered = t.ordered;
    fits = t.fits;
    edges = t.edges;
    whole = λ r h c. elim (Bool-cases (covers (spans segs) r)) [
      | inl e ↦ e
      | inr e ↦ absurd (let k = x.whole r (omega arith) h e c in ground arith)
    ];
  }
  with_extra-IsWhole segs (y ∷ ys) t x = record {
    ordered =
        sort-From cfg (segs ++ y ∷ ys)
          (append-Clear cfg 0 segs (y ∷ ys) t.ordered x.free (From-Clear cfg 0 (y ∷ ys) x.ordered));
    fits = All-sorted (Fits cfg) segs (y ∷ ys) t.fits x.fits;
    edges = All-sorted (HasEdges n blank) segs (y ∷ ys) t.edges x.edges;
    whole = λ r h c. elim (Bool-cases (covers (spans segs) r)) [
      | inl e ↦ covers-sort (segs ++ y ∷ ys) r ∙ covers-append segs (y ∷ ys) r ∙ ground arith
      | inr e ↦
          covers-sort (segs ++ y ∷ ys) r
          ∙ covers-append segs (y ∷ ys) r
          ∙ (let k = x.whole r (omega arith) h e c in ground arith)
    ];
  }

  finish-IsChunking :
      (segs : List Seg)
      → 0 < cfg.max_lines
      → 0 < n
      → From cfg 0 (spans segs)
      → All (Fits cfg) (spans segs)
      → (r : List Seg) × (finish cfg n blank segs ≡ some r) × IsChunking cfg n blank (spans r)
  unfolding finish add_extra
  finish-IsChunking segs pos rows o f =
      let trimmed = trim_all n blank segs in
      let t = trim_all-IsTrimmed n blank cfg 0 segs rows o f in
      let extra = extra_from cfg.max_lines n (covers (spans trimmed)) blank n 0 in
      let x = extra_from-IsExtra cfg n (covers (spans trimmed)) blank n 0 pos (omega arith) in
      let w = with_extra-IsWhole trimmed extra t x in
      let all = with_extra trimmed extra in
      let (r, e, ws) =
        merge_small-Walks cfg (2 * length all + 1) 0 [] all
          (record { before = tt; behind = w.ordered; settled = tt; pending = tt })
          (let e = length-map span_of all in omega arith) in
      let merged = Walks-IsMerged cfg w.ordered w.fits ws in
      (
        r,
        e,
        record {
          ordered = merged.ordered;
          apart = merged.apart;
          fits = merged.fits;
          edges = Walks-All cfg (HasEdges n blank) (λ a b h k. (h.0, k.1, k.2)) ws (tt, w.edges);
          whole = λ i h content. merged.kept i (w.whole i h content);
        },
      )

abbrev pub limits_of : ChunkConfig → ℕ → Limits
limits_of cfg n = record { max = cfg.max_lines; header_max = max (cfg.max_lines / 4) 1; rows = n }

module _ (cfg : ChunkConfig) (n : ℕ) (pos : 0 < cfg.max_lines) where
  Emitted-From :
      (m : ℕ) (out todo : List Seg)
      → Emitted (limits_of cfg n) pos m out
      → From cfg m (spans todo)
      → All (Fits cfg) (spans todo)
      → From cfg 0 (spans (rev_onto out todo)) × All (Fits cfg) (spans (rev_onto out todo))
  Emitted-From m [] todo e f g = (From-mono cfg m 0 (spans todo) (omega arith) f, g)
  Emitted-From m (x ∷ out) todo e f g =
      Emitted-From x.start out (x ∷ todo) e.3
        (omega arith, e.0, From-mono cfg m (x.end + 1) (spans todo) (omega arith) f)
        (omega arith, g)

-- With `max_lines` at least 1, and a syntax tree in which the rows of each child end within its
-- parent, all passes of `chunk_tree` end on every source. Their segments stand in file order without
-- overlap, none is longer than `max_lines`, each begins and ends with a row that has content, every
-- such row of the file is in one, and a segment below `min_lines` has no neighbour that it could
-- join within `max_lines`.
pub chunk_segs-IsChunking :
    (cfg : ChunkConfig) (n : ℕ) (blank : ℕ → Bool) (root : Node)
    → 0 < cfg.max_lines
    → IsNested (limits_of cfg n) root
    → (segs : List Seg) × (chunk_segs cfg n blank root ≡ some segs)
      × IsChunking cfg n blank (spans segs)
unfolding chunk_segs
chunk_segs-IsChunking cfg n blank root pos nested = elim (Bool-cases (n == 0)) [
  | inl e ↦ rw e (
    [],
    refl,
    record {
      ordered = tt;
      apart = tt;
      fits = tt;
      edges = tt;
      whole = λ r h. absurd (ground arith);
    },
  )
  | inr e ↦
      let (o, f) =
        Emitted-From cfg n pos _ (segment (limits_of cfg n) root) []
          (segment-Emitted (limits_of cfg n) pos root nested) tt tt in
      rw e (
        finish-IsChunking cfg n blank (rev_onto (segment (limits_of cfg n) root) []) pos
          (ground arith) o f)
]
