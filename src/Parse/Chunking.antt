-- ===== src/Parse/Chunking.antt =====
-- What both chunkers of crates/laya-parse promise of their rows.
use laya_codex.Common.{ℕ, ◌<◌, ◌≡◌, Bool, true, false, List, All}
use laya_codex.Parse.Config.{ChunkConfig, Span, covers}
use laya_codex.Parse.Merging.{From, Fits}
use laya_codex.Parse.Merging.Outcome.{AllApart}

module _ (n : ℕ) (blank : ℕ → Bool) where
  -- A span whose first and last rows have content.
  abbrev pub HasEdges : Span → Type 0
  HasEdges x = (blank x.first ≡ false) × (blank x.last ≡ false) × (x.last < n)

module _ (cfg : ChunkConfig) (n : ℕ) (blank : ℕ → Bool) where
  -- In file order and without overlap; none longer than `max_lines`; of each two neighbours, either
  -- neither is below `min_lines` or they do not fit `max_lines` together; each begins and ends with
  -- a row that has content; and every such row is in one.
  pub record IsChunking (spans : List Span) : Type 0 where
    pub ordered : From cfg 0 spans
    pub apart : AllApart cfg spans
    pub fits : All (Fits cfg) spans
    pub edges : All (HasEdges n blank) spans
    pub whole : (r : ℕ) → r < n → blank r ≡ false → covers spans r ≡ true
