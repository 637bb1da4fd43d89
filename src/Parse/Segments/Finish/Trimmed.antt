-- ===== src/Parse/Segments/Finish/Trimmed.antt =====
-- Trimming the blank edges of the segments (`finish` in crates/laya-parse/src/cast.rs).
use laya_codex.Common.{
  ℕ, ◌+◌, ◌-◌, ◌≤◌, ◌<◌, ◌≡◌, min, Bool, false, not, ◌&&◌, ◌⊎◌, inl, inr, Option, none, some, List,
  [], ◌∷◌, arith, All, Bool-cases, leb, leb→le,
}
use laya_codex.Parse.Config.{ChunkConfig}
use laya_codex.Parse.Rows.{skip_blank, trim_end, skip_blank-lem, trim_end-lem}
use laya_codex.Parse.Merging.{From, From-mono, Fits}
use laya_codex.Parse.Chunking.{HasEdges}
use laya_codex.Parse.Segments.{Seg}
use laya_codex.Parse.Segments.Finish.{span_of, spans, trim_seg, trim_all, add_trimmed}

module _ (n : ℕ) (blank : ℕ → Bool) where
  abbrev Trims : Seg → Option Seg → Type 0
  Trims s none = Unit {0}
  Trims s (some t) =
      (s.start ≤ t.start) × (t.start ≤ t.end) × (t.end ≤ s.end) × HasEdges n blank (span_of t)

  last_content :
      (start end last : ℕ)
      → (blank end ≡ false) ⊎ (end + (last - start) ≡ last)
      → start ≤ last
      → blank start ≡ false
      → (end ≤ last)
      → blank end ≡ false
  last_content start end last (inl b) h c k = b
  last_content start end last (inr e) h c k = (let same : end ≡ start = omega arith in rw same c)

  trim_seg-Trims : (s : Seg) → 0 < n → Trims s (trim_seg n blank s)
  unfolding trim_seg
  trim_seg-Trims s pos =
      let last : ℕ = min s.end (n - 1) in
      let start = skip_blank blank (last + 1 - s.start) s.start in
      let end = trim_end blank (last - start) last in
      let (from, _, _, _) = skip_blank-lem blank (last + 1 - s.start) s.start in
      let (below, _, cut) = trim_end-lem blank (last - start) last (omega arith) in
      elim (Bool-cases (leb start end && not (blank start))) [
        | inr e ↦ rw e tt
        | inl e ↦
            let le : start ≤ end = leb→le start end (ground arith) in
            let content : blank start ≡ false = ground arith in
            rw e (
              from,
              le,
              omega arith,
              (content, last_content start end last cut (omega arith) content below, omega arith),
            )
      ]

  module _ (cfg : ChunkConfig) where
    -- What is left stays in file order and within `max_lines`, and has content at its edges.
    pub record IsTrimmed (m : ℕ) (segs : List Seg) : Type 0 where
      pub ordered : From cfg m (spans segs)
      pub fits : All (Fits cfg) (spans segs)
      pub edges : All (HasEdges n blank) (spans segs)

    add_trimmed-IsTrimmed :
        (m : ℕ) (s : Seg) (o : Option Seg) (rest : List Seg)
        → m ≤ s.start
        → s.start ≤ s.end
        → s.end - s.start < cfg.max_lines
        → Trims s o
        → IsTrimmed (s.end + 1) rest
        → IsTrimmed m (add_trimmed o rest)
    unfolding add_trimmed
    add_trimmed-IsTrimmed m s none rest a b f t r = record {
      ordered = From-mono cfg (s.end + 1) m (spans rest) (omega arith) r.ordered;
      fits = r.fits;
      edges = r.edges;
    }
    add_trimmed-IsTrimmed m s (some x) rest a b f t r = record {
      ordered = (
        omega arith,
        t.1,
        From-mono cfg (s.end + 1) (x.end + 1) (spans rest) (omega arith) r.ordered,
      );
      fits = (omega arith, r.fits);
      edges = (t.3, r.edges);
    }

    pub trim_all-IsTrimmed :
        (m : ℕ) (segs : List Seg)
        → 0 < n
        → From cfg m (spans segs)
        → All (Fits cfg) (spans segs)
        → IsTrimmed m (trim_all n blank segs)
    unfolding trim_all
    trim_all-IsTrimmed m [] pos o f = record { ordered = tt; fits = tt; edges = tt }
    trim_all-IsTrimmed m (s ∷ segs) pos o f =
        add_trimmed-IsTrimmed m s (trim_seg n blank s) (trim_all n blank segs) o.0 o.1 (omega arith)
          (trim_seg-Trims s pos) (trim_all-IsTrimmed (s.end + 1) segs pos o.2 f.1)
