-- ===== src/Retrieval/Gate.antt =====
-- crates/laya-rank/src/retriever.rs: `laya_gate`.
use laya_codex.Common.{
  ℕ, zero, suc, ◌+◌, max, min, Bool, true, false, ◌&&◌, Option, none, some, List, [], ◌∷◌, ◌++◌,
  ltb, ◌==◌, if◌then◌else◌, take, any, keep_if, length, map,
}
use laya_codex.Common.Sort
use laya_codex.Common.Text.{Text, text_eq}
use laya_codex.Core.{Chunk, RankMode, laya, lexical}
use laya_codex.Fusion.{Floats, fuse_ranked_lists}
use laya_codex.Spans.{Scored}
use laya_codex.Retrieval.{RetrieverConfig, FusedCandidate}

-- What `call_scorer_bounded` gives for a task and chunks.
abbrev pub Answer : Type 0 → Type 0
Answer F = Text → List Chunk → Option (List (Option F))

pub record Gated (F : Type 0) : Type 0 where
  pub scored : List (Scored F)
  pub mode : RankMode
  pub n_scored : ℕ
  pub n_offered : ℕ

unfoldable pub is_scored : {F : Type 0} → Option F → Bool
is_scored none = false
is_scored (some p) = true

unfoldable pub to_score_of : ℕ → ℕ → ℕ
to_score_of zero n = n
to_score_of (suc top) n = min (suc top) n

module _ {F : Type 0} where
  unfoldable pub to_lexical : List (FusedCandidate F) → List (Scored F)
  to_lexical =
      map (λ (c : FusedCandidate F). record { chunk = c.chunk; score = c.fused; p_relevant = none })

  -- `resize(n, None)`
  unfoldable pub resize : ℕ → List (Option F) → List (Option F)
  resize zero probs = []
  resize (suc n) [] = none ∷ resize n []
  resize (suc n) (p ∷ probs) = p ∷ resize n probs

  -- The candidates that the scorer reached, each with its probability.
  unfoldable pub reached_of :
      List (FusedCandidate F) → List (Option F) → List (FusedCandidate F × F)
  reached_of [] probs = []
  reached_of (c ∷ candidates) [] = []
  reached_of (c ∷ candidates) (some p ∷ probs) = (c, p) ∷ reached_of candidates probs
  reached_of (c ∷ candidates) (none ∷ probs) = reached_of candidates probs

  unfoldable pub unreached_of : List (FusedCandidate F) → List (Option F) → List (FusedCandidate F)
  unreached_of [] probs = []
  unreached_of (c ∷ candidates) [] = []
  unreached_of (c ∷ candidates) (some p ∷ probs) = unreached_of candidates probs
  unreached_of (c ∷ candidates) (none ∷ probs) = c ∷ unreached_of candidates probs

  reached_ids : List (FusedCandidate F × F) → List Text
  reached_ids = map {B = Text} (λ (r : FusedCandidate F × F). r.0.chunk_id)

  unfoldable pub count_scored : List (Option F) → ℕ
  unfolding is_scored
  count_scored probs = length (keep_if is_scored probs)

  unfoldable pub fall_back : List (FusedCandidate F) → ℕ → Gated F
  unfolding to_lexical
  fall_back candidates offered = record {
    scored = to_lexical candidates;
    mode = lexical;
    n_scored = 0;
    n_offered = offered;
  }

  -- What a map made from the list has for the id, or `found`; a later entry replaces an earlier one.
  unfoldable pub score_of : Text → F → List (Text × F) → F
  unfolding text_eq
  score_of id found [] = found
  score_of id found (e ∷ scores) = score_of id (if text_eq e.0 id then e.1 else found) scores

module _ {F : Type 0} (ops : Floats F) where
  weighted_from : F → F → ℕ → List (FusedCandidate F × F) → List (Text × F)
  weighted_from w n rank [] = []
  weighted_from w n rank (r ∷ reached) =
      (
        r.0.chunk_id,
        ops.add (ops.mul (ops.sub ops.one w) (ops.sub ops.one (ops.div (ops.of_nat rank) n)))
            (ops.mul w r.1),
      )
      ∷ weighted_from w n (rank + 1) reached

  unfoldable pub weighted_scores : F → List (FusedCandidate F × F) → List (Text × F)
  unfolding weighted_from
  weighted_scores w reached = weighted_from w (ops.of_nat (max (length reached) 1)) 0 reached

  abbrev pub after_prob : FusedCandidate F × F → FusedCandidate F × F → Bool
  after_prob a b = ops.lt a.1 b.1

  unfoldable pub final_scores :
      RetrieverConfig F → Option F → List (FusedCandidate F × F) → List (Text × F)
  unfolding fuse_ranked_lists weighted_scores reached_ids Sort.sort
  final_scores cfg none reached =
      fuse_ranked_lists ops (reached_ids reached ∷ reached_ids (Sort.sort after_prob reached) ∷ [])
        cfg.rrf_k
  final_scores cfg (some w) reached = weighted_scores w reached

  unfoldable pub to_scored : List (Text × F) → FusedCandidate F × F → Scored F
  unfolding score_of
  to_scored scores r = record {
    chunk = r.0.chunk;
    score = score_of r.0.chunk_id ops.zero scores;
    p_relevant = some r.1;
  }

  unfoldable pub to_unscored : FusedCandidate F → Scored F
  to_unscored c = record { chunk = c.chunk; score = ops.zero; p_relevant = none }

  abbrev pub after_scored : Scored F → Scored F → Bool
  after_scored a b = ops.lt a.score b.score

  -- All the candidates, re-ranked.
  unfoldable pub re_ranked :
      RetrieverConfig F → List (FusedCandidate F) → List (Option F) → List (Scored F)
  unfolding final_scores to_scored to_unscored reached_of unreached_of Sort.sort
  re_ranked cfg candidates probs =
      let reached = reached_of candidates probs in
      let scores = final_scores cfg cfg.laya_weight reached in
      Sort.sort after_scored (map (to_scored scores) reached)
      ++ map to_unscored (unreached_of candidates probs)

  p_or_zero : Option F → F
  p_or_zero none = ops.zero
  p_or_zero (some p) = p

  unfoldable pub passes : RetrieverConfig F → Scored F → Bool
  unfolding p_or_zero
  passes cfg s = ops.ge (p_or_zero s.p_relevant) cfg.p_threshold

  unfoldable pub keep_passing : RetrieverConfig F → List (Scored F) → List (Scored F)
  unfolding passes
  keep_passing cfg scored =
      if ltb (length (keep_if (passes cfg) scored)) cfg.min_keep
      then take (min cfg.min_keep (length scored)) scored
      else keep_if (passes cfg) scored

  -- With the answer of the scorer for the first `to_score` candidates.
  unfoldable pub gate_with :
      RetrieverConfig F → List (FusedCandidate F) → ℕ → Option (List (Option F)) → Gated F
  unfolding fall_back re_ranked keep_passing count_scored resize is_scored
  gate_with cfg candidates to_score none = fall_back candidates to_score
  gate_with cfg candidates to_score (some probs) =
      let all = resize (length candidates) probs in
      if length probs == to_score && any is_scored probs
      then record {
        scored = keep_passing cfg (re_ranked cfg candidates all);
        mode = laya;
        n_scored = count_scored all;
        n_offered = to_score;
      }
      else fall_back candidates to_score

  unfoldable pub laya_gate :
      RetrieverConfig F → Option (Answer F) → Text → List (FusedCandidate F) → Gated F
  unfolding gate_with fall_back to_score_of
  laya_gate cfg none prompt candidates = fall_back candidates 0
  laya_gate cfg (some scorer) prompt candidates =
      let to_score = to_score_of cfg.score_top (length candidates) in
      if cfg.use_laya
      then gate_with cfg candidates to_score
          (scorer prompt (map (λ (c : FusedCandidate F). c.chunk) (take to_score candidates)))
      else fall_back candidates 0
