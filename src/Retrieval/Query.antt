-- ===== src/Retrieval/Query.antt =====
-- crates/laya-rank/src/retriever.rs: `query_with_capture`, from the store's answers to the result. An
-- error of the store is `none`. Parameters: `Chunk::id`, the iteration order of the hash map in
-- `shape_spans`, what the scorer gives back, and the time that is reported.
use laya_codex.Common.{
  ℕ, ◌+◌, ◌-◌, ◌*◌, ◌^◌, min, max, Bool, not, ◌&&◌, Option, none, some, List, [], ◌∷◌, ◌++◌,
  if◌then◌else◌, ◌==◌, take, keep_if, length, map, flatten,
}
use laya_codex.Common.Options.{◌>>=◌}
use laya_codex.Common.Text.{Text, text_eq, has}
use laya_codex.Core.{Chunk, RankedSpan, lexical, QueryResult, Related}
use laya_codex.Fusion.{Floats, fuse_ranked_lists}
use laya_codex.Ident.{terms}
use laya_codex.Related.{Lookups}
use laya_codex.Related.Expand.{chunk_with, expand_related}
use laya_codex.Related.Pointers.{test_pointers}
use laya_codex.Related.Usages.{usage_list}
use laya_codex.Signals.{PromptSignals, extract_signals}
use laya_codex.Signals.Focus.{task_focus}
use laya_codex.Spans.{Scored, Group, shape_spans}
use laya_codex.Retrieval.{
  RetrieverConfig, FusedCandidate, path_matches, cap_per_file, demote_non_code,
}
use laya_codex.Retrieval.Gate.{Answer, score_of, laya_gate}

-- The operations of `Store` that a query uses, for one repository.
pub record Reads (F : Type 0) : Type 0 where
  pub lookups : Lookups
  pub ensure_index : Option (Unit {0})
  pub bm25 : List Text → ℕ → Option (List (Text × F))
  pub list_files : Option (List Text)

pub record CapturedCandidate (F : Type 0) : Type 0 where
  pub chunk_id : Text
  pub path : Text
  pub start_line : ℕ
  pub end_line : ℕ
  pub lexical_rank : ℕ
  pub fused : F
  pub p : Option F

-- Without the times of the stages.
pub record CandidateCapture (F : Type 0) : Type 0 where
  pub focus : Text
  pub captured : List (CapturedCandidate F)

-- The identifiers and paths of the whole prompt, the terms of its focus.
unfoldable pub query_signals : Text → PromptSignals
unfolding extract_signals task_focus
query_signals prompt = record {
  terms = (extract_signals (task_focus prompt)).terms;
  identifiers = (extract_signals prompt).identifiers;
  paths = (extract_signals prompt).paths;
}

unfoldable pub has_no_signals : PromptSignals → Bool
has_no_signals signals =
    length signals.terms == 0 && length signals.identifiers == 0 && length signals.paths == 0

-- `k_candidates.saturating_mul(2).max(1)`
unfoldable pub bm25_limit : ℕ → ℕ
bm25_limit k = max (min (k * 2) (2 ^ 64 - 1)) 1

push_matches : Text → List Text → List Text → List Text
unfolding path_matches has
push_matches mention resolved [] = resolved
push_matches mention resolved (f ∷ files) =
    let next =
      if path_matches f mention && not (has f resolved) then resolved ++ f ∷ [] else resolved in
    push_matches mention next files

unfoldable pub resolve_paths : List Text → List Text → List Text → List Text
unfolding push_matches
resolve_paths files resolved [] = resolved
resolve_paths files resolved (m ∷ mentions) =
    resolve_paths files (push_matches m resolved files) mentions

-- `idents.push(d)` for each that it does not contain.
unfoldable pub push_idents : List Text → List Text → List Text
unfolding has
push_idents idents [] = idents
push_idents idents (d ∷ defines) =
    let next = if has d idents then idents else idents ++ d ∷ [] in push_idents next defines

-- The identifiers of the task, then those that the seeds define.
unfoldable pub usage_targets : List Text → List Chunk → List Text
unfolding push_idents
usage_targets identifiers seeds = push_idents identifiers (flatten (map (λ c. c.defines) seeds))

-- `unwrap_or_default`
unfoldable pub or_empty : Option (List Related) → List Related
or_empty none = []
or_empty (some places) = places

module _ {F : Type 0} (store : Reads F) where
  unfoldable pub path_hits : List Text → ℕ → Option (List Text)
  path_hits [] n = some []
  path_hits (t ∷ ts) n = do hits ← store.bm25 (t ∷ ts) n; some (map (λ (h : Text × F). h.0) hits)

  unfoldable pub path_signal : List Text → ℕ → Option (List Text)
  unfolding resolve_paths terms path_hits
  path_signal mentions n = do
    files ← store.list_files
    path_hits (flatten (map terms (resolve_paths files [] mentions))) n

  unfoldable pub defining_ids : List Text → ℕ → Option (List Text)
  defining_ids [] n = some []
  defining_ids (i ∷ idents) n = store.lookups.chunks_defining (i ∷ idents) n

  unfoldable pub path_ids : List Text → ℕ → Option (List Text)
  unfolding path_signal
  path_ids [] n = some []
  path_ids (m ∷ mentions) n = path_signal (m ∷ mentions) n

module _ {F : Type 0} where
  -- A chunk is taken out of the map; an id without one is skipped.
  unfoldable pub candidates_of :
      (Chunk → Text) → F → List (Text × F) → List (Text × F) → List Chunk → List (FusedCandidate F)
  unfolding chunk_with score_of text_eq
  candidates_of id zero hits [] chunks = []
  candidates_of id zero hits (e ∷ fused) chunks =
      let rest =
        candidates_of id zero hits fused (keep_if (λ c. not (text_eq (id c) e.0)) chunks) in
      elim (chunk_with id e.0 chunks) [
        | none ↦ rest
        | some chunk ↦
            record { chunk_id = e.0; chunk = chunk; bm25 = score_of e.0 zero hits; fused = e.1 }
            ∷ rest
      ]

  -- The probability of the last scored chunk with the id.
  unfoldable pub p_with : (Chunk → Text) → Text → Option F → List (Scored F) → Option F
  unfolding text_eq
  p_with id i found [] = found
  p_with id i found (s ∷ scored) = elim s.p_relevant [
    | none ↦ p_with id i found scored
    | some p ↦ p_with id i (if text_eq (id s.chunk) i then some p else found) scored
  ]

  unfoldable pub capture_from :
      (Chunk → Text) → ℕ → List (Scored F) → List (FusedCandidate F) → List (CapturedCandidate F)
  unfolding p_with
  capture_from id rank scored [] = []
  capture_from id rank scored (c ∷ candidates) =
      record {
        chunk_id = c.chunk_id;
        path = c.chunk.path;
        start_line = c.chunk.start_line;
        end_line = c.chunk.end_line;
        lexical_rank = rank;
        fused = c.fused;
        p = p_with id c.chunk_id none scored;
      }
      ∷ capture_from id (rank + 1) scored candidates

  unfoldable pub empty_result : Text → ℕ → QueryResult F × CandidateCapture F
  empty_result focus elapsed = (
    record {
      spans = [];
      mode = lexical;
      elapsed_ms = elapsed;
      candidates = 0;
      scored = 0;
      offered = 0;
      related = [];
    },
    record { focus = focus; captured = [] },
  )

  unfoldable pub related_of :
      RetrieverConfig F
      → Reads F
      → (Chunk → Text)
      → List Text
      → List Chunk
      → List (RankedSpan F)
      → List Related
  unfolding expand_related usage_list test_pointers usage_targets or_empty
  related_of cfg store id identifiers seeds spans =
      let places = or_empty (expand_related store.lookups id seeds spans cfg.max_related) in
      let idents = usage_targets identifiers seeds in
      if cfg.max_related == 0
      then places
      else or_empty (test_pointers id store.lookups idents cfg.test_refs)
        ++ places
        ++ or_empty (usage_list id store.lookups cfg.usage_lines cfg.usage_per_ident idents)

module _ {F : Type 0} (ops : Floats F) (cfg : RetrieverConfig F) (store : Reads F)
    (id : Chunk → Text) (iter : List (Group F) → List (Group F)) (scorer : Option (Answer F))
    (elapsed : ℕ) where
  unfoldable pub fetch_candidates :
      List (Text × F) → List (Text × F) → Option (List (FusedCandidate F))
  unfolding candidates_of cap_per_file
  fetch_candidates hits [] = some []
  fetch_candidates hits (e ∷ fused) =
      let top =
        take (if cfg.max_per_file == 0 then cfg.k_candidates else length (e ∷ fused)) (e ∷ fused) in
      do
        chunks ← store.lookups.get_chunks (map (λ (f : Text × F). f.0) top)
        some (
            cap_per_file (candidates_of id ops.zero hits top chunks) cfg.max_per_file
              cfg.k_candidates)

  -- Up to the cap of each file.
  unfoldable pub find_candidates : PromptSignals → Option (List (FusedCandidate F))
  unfolding fetch_candidates defining_ids path_ids fuse_ranked_lists bm25_limit
  find_candidates signals = do
    ready ← store.ensure_index
    hits ← store.bm25 signals.terms (bm25_limit cfg.k_candidates)
    defining ← defining_ids store signals.identifiers (bm25_limit cfg.k_candidates)
    paths ← path_ids store signals.paths (bm25_limit cfg.k_candidates)
    fetch_candidates hits
        (fuse_ranked_lists ops (map (λ (h : Text × F). h.0) hits ∷ defining ∷ paths ∷ []) cfg.rrf_k)

  -- From the gate on.
  unfoldable pub answer_from :
      Text → List Text → List (FusedCandidate F) → QueryResult F × CandidateCapture F
  unfolding laya_gate shape_spans related_of capture_from
  answer_from focus identifiers candidates =
      let gated = laya_gate ops cfg scorer focus candidates in
      let seeds = map (λ (s : Scored F). s.chunk) (take 3 gated.scored) in
      let spans = shape_spans ops.lt ops.max iter gated.scored cfg.top_n cfg.max_total_lines in
      (
        record {
          spans = spans;
          mode = gated.mode;
          elapsed_ms = elapsed;
          candidates = length candidates;
          scored = gated.n_scored;
          offered = gated.n_offered;
          related = related_of cfg store id identifiers seeds spans;
        },
        record { focus = focus; captured = capture_from id 0 gated.scored candidates },
      )

  unfoldable pub answer_of :
      Text → List Text → List (FusedCandidate F) → QueryResult F × CandidateCapture F
  unfolding answer_from demote_non_code empty_result
  answer_of focus identifiers [] = empty_result focus elapsed
  answer_of focus identifiers (c ∷ candidates) =
      answer_from focus identifiers (demote_non_code ops (c ∷ candidates) focus)

  unfoldable pub query_with_capture : Text → Option (QueryResult F × CandidateCapture F)
  unfolding query_signals has_no_signals find_candidates answer_of task_focus empty_result
  query_with_capture prompt =
      let signals = query_signals prompt in
      let focus = task_focus prompt in
      if has_no_signals signals then some (empty_result focus elapsed) else do
        candidates ← find_candidates signals
        some (answer_of focus signals.identifiers candidates)
