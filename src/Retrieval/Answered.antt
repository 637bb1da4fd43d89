-- ===== src/Retrieval/Answered.antt =====
-- crates/laya-rank/src/retriever.rs: the answer to a query, through all its stages.
use laya_codex.Common.{◌≤◌, ◌≡◌, [], length, All}
use laya_codex.Common.Text.{Text}
use laya_codex.Core.{lexical, QueryResult}
use laya_codex.Fusion.{Floats}
use laya_codex.Spans.Budget.{total_lines, Descending}
use laya_codex.Retrieval.{RetrieverConfig}
use laya_codex.Retrieval.Query.{CandidateCapture}
use laya_codex.Retrieval.Stages.{Unscored}

module _ {F : Type 0} where
  -- Of an answer to a query.
  pub record IsAnswer (ops : Floats F) (cfg : RetrieverConfig F) (result : QueryResult F)
      (capture : CandidateCapture F) : Type 0 where
    pub lines : total_lines result.spans ≤ cfg.max_total_lines
    pub few : length result.spans ≤ cfg.top_n
    pub ordered : Descending ops.lt ops.max result.spans
    pub counted : result.scored ≤ result.offered
    pub offered : result.offered ≤ result.candidates
    pub bounded : result.candidates ≤ cfg.k_candidates
    pub whole : length capture.captured ≡ result.candidates
    pub unscored : result.mode ≡ lexical → All Unscored capture.captured
    pub unrelated : cfg.max_related ≡ 0 → result.related ≡ []
