-- ===== src/Parse/Windows/Merge.antt =====
-- The second loop of `chunk_text` (crates/laya-parse/src/text.rs) walks as Parse/Merging says.
use laya_codex.Common.{
  ℕ, zero, suc, ◌+◌, ◌-◌, ◌*◌, ◌≤◌, ◌<◌, ◌≡◌, refl, Bool, some, List, [], ◌∷◌, arith, All-map, inl,
  inr, Bool-cases, leb, ltb, length,
}
use laya_codex.Parse.Chunking.{HasEdges, IsChunking}
use laya_codex.Parse.Config.{ChunkConfig, Span, rows}
use laya_codex.Parse.Merging.{Step, pass, stay, back, ahead, NoRoomBack, Step-shrinks}
use laya_codex.Parse.Merging.Outcome.{Walks, ends, more, Walks-IsMerged, Walks-All}
use laya_codex.Parse.Windows.{join_ahead, join_back, merge_round, merge, window_of, spans_of}
use laya_codex.Parse.Windows.Cut.{cut-IsCut}

module _ (cfg : ChunkConfig) where
  join_ahead-Step :
      (done : List Span) (x : Span) (todo : List Span)
      → NoRoomBack cfg done x
      → Step cfg done (x ∷ todo) (join_ahead cfg done x todo).0 (join_ahead cfg done x todo).1
  unfolding join_ahead
  join_ahead-Step done x [] b = stay x b tt
  join_ahead-Step done x (y ∷ todo) b = elim (Bool-cases (ltb (y.last - x.first) cfg.max_lines)) [
    | inl e ↦ rw e (ahead x y (ground arith))
    | inr e ↦ rw e (stay x b (ground arith))
  ]

  join_back-Step :
      (done : List Span) (x : Span) (todo : List Span)
      → Step cfg done (x ∷ todo) (join_back cfg done x todo).0 (join_back cfg done x todo).1
  unfolding join_back
  join_back-Step [] x todo = join_ahead-Step [] x todo tt
  join_back-Step (p ∷ done) x todo = elim (Bool-cases (ltb (x.last - p.first) cfg.max_lines)) [
    | inl e ↦ rw e (back p x (ground arith))
    | inr e ↦ rw e (join_ahead-Step (p ∷ done) x todo (ground arith))
  ]

  merge_round-Step :
      (done : List Span) (x : Span) (todo : List Span)
      → Step cfg done (x ∷ todo) (merge_round cfg done x todo).0 (merge_round cfg done x todo).1
  unfolding merge_round
  merge_round-Step done x todo = elim (Bool-cases (leb cfg.min_lines (rows x))) [
    | inl e ↦ rw e (pass x (ground arith))
    | inr e ↦ rw e (join_back-Step done x todo)
  ]

  -- Enough fuel ends the walk.
  pub merge-Walks :
      (fuel : ℕ) (done todo : List Span)
      → 2 * length todo + length done < fuel
      → (r : List Span) × (merge cfg fuel done todo ≡ some r) × Walks cfg done todo r
  unfolding merge
  merge-Walks zero done todo h = absurd (omega arith)
  merge-Walks (suc fuel) done [] h = (_, refl, ends done)
  merge-Walks (suc fuel) done (x ∷ todo) h =
      let st = merge_round-Step done x todo in
      let (done', todo') = merge_round cfg done x todo in
      let shrinks = Step-shrinks cfg st in
      let (r, e, ws) = merge-Walks fuel done' todo' (omega arith) in (r, e, more st ws)

module _ (cfg : ChunkConfig) (n : ℕ) (blank : ℕ → Bool) where
  -- With `max_lines` at least 1, the two loops of `chunk_text` end on every source. Their windows
  -- stand in file order without overlap, none is longer than `max_lines`, each begins and ends with
  -- a row that has content, every such row of the file is in one, and a window below `min_lines` has
  -- no neighbour that it could join within `max_lines`.
  pub spans_of-IsChunking :
      0 < cfg.max_lines
      → (spans : List Span) × (spans_of cfg n blank ≡ some spans) × IsChunking cfg n blank spans
  unfolding spans_of window_of
  spans_of-IsChunking pos =
      let (cuts, e, c) = cut-IsCut cfg n blank (n + 1) 0 (omega arith) (omega arith) in
      let (spans, e', ws) = merge-Walks cfg (2 * length cuts + 1) [] cuts (omega arith) in
      let merged =
        Walks-IsMerged cfg c.ordered
          (All-map cuts (λ x (h : rows x ≤ window_of cfg). window_fits x h) c.short) ws in
      (
        spans,
        rw e e',
        record {
          ordered = merged.ordered;
          fits = merged.fits;
          apart = merged.apart;
          edges = Walks-All cfg (HasEdges n blank) (λ a b h k. (h.0, k.1, k.2)) ws (tt, c.edges);
          whole = λ r h content. merged.kept r (c.whole r (omega arith) h content);
        },
      )
    where
      window_fits : (x : Span) → rows x ≤ window_of cfg → rows x ≤ cfg.max_lines
      window_fits x h = omega arith
