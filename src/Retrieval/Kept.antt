-- ===== src/Retrieval/Kept.antt =====
-- crates/laya-rank/src/retriever.rs: what `laya_gate` returns, by its mode.
use laya_codex.Common.{ℕ, ◌≤◌, ◌<◌, ◌≡◌, min, true, List, length, All}
use laya_codex.Common.Sort
use laya_codex.Common.Text.{Text}
use laya_codex.Core.{RankMode, laya, lexical}
use laya_codex.Fusion.{Floats}
use laya_codex.Spans.{Scored}
use laya_codex.Retrieval.{RetrieverConfig, FusedCandidate}
use laya_codex.Retrieval.Gate.{Gated, to_lexical, passes}

module _ {F : Type 0} (ops : Floats F) (cfg : RetrieverConfig F) where
  pub Passes : Scored F → Type 0
  Passes s = passes ops cfg s ≡ true

  -- Of `n` candidates.
  pub record IsKept (n : ℕ) (scored : List (Scored F)) : Type 0 where
    pub floor : min cfg.min_keep n ≤ length scored
    pub ceiling : length scored ≤ n
    pub above : cfg.min_keep < length scored → All Passes scored

  -- What the mode promises.
  unfoldable pub Keeps : List (FusedCandidate F) → List (Scored F) → RankMode → Type 0
  Keeps candidates scored laya = IsKept (length candidates) scored
  Keeps candidates scored lexical = scored ≡ to_lexical candidates

  pub record IsGated (candidates : List (FusedCandidate F)) (gated : Gated F) : Type 0 where
    pub counted : gated.n_scored ≤ gated.n_offered
    pub offered : gated.n_offered ≤ length candidates
    pub keeps : Keeps candidates gated.scored gated.mode
