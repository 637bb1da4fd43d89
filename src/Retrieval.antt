-- ===== src/Retrieval.antt =====
-- crates/laya-rank/src/retriever.rs: the candidates of a query and the gate that re-ranks them. What
-- the scorer gives back within its budget is an input, `none` for a timeout or an error; an index of
-- the source is carried with what it points to; statistics and times are left out.
pub mod Gate
pub mod Query
mod Stages
mod Answered
mod Kept
mod Tests
use laya_codex.Common.{
  ℕ, zero, suc, ◌+◌, max, Bool, true, false, not, ◌&&◌, ◌||◌, Option, none, some, List, [], ◌∷◌,
  ◌++◌, leb, ◌==◌, if◌then◌else◌, take, any, length, map,
}
use laya_codex.Common.Sort
use laya_codex.Common.Text.{
  Text, text_eq, codes, has, split_by, split_on, ends_with, to_ascii_lowercase,
  is_ascii_alphanumeric,
}
use laya_codex.Core.{Chunk, Lang}
use laya_codex.Fusion.{Floats}
use laya_codex.Related.{PerFile, taken_of}

-- `RetrieverConfig` of src/config.rs, without the time budget.
pub record RetrieverConfig (F : Type 0) : Type 0 where
  pub k_candidates : ℕ
  pub top_n : ℕ
  pub p_threshold : F
  pub min_keep : ℕ
  pub max_total_lines : ℕ
  pub rrf_k : F
  pub use_laya : Bool
  pub laya_weight : Option F
  pub max_related : ℕ
  pub score_top : ℕ
  pub usage_lines : ℕ
  pub usage_per_ident : ℕ
  pub test_refs : ℕ
  pub max_per_file : ℕ

-- `Candidate` of crates/laya-core/src/lib.rs.
pub record FusedCandidate (F : Type 0) : Type 0 where
  pub chunk_id : Text
  pub chunk : Chunk
  pub bm25 : F
  pub fused : F

abbrev non_code_intent : List Text
non_code_intent = map codes (
    "readme" ∷ "doc" ∷ "docs" ∷ "documentation" ∷ "guide" ∷ "markdown" ∷ "changelog" ∷ "config"
    ∷ "configuration" ∷ "toml" ∷ "yaml" ∷ "yml" ∷ "json" ∷ "dockerfile" ∷ "makefile" ∷ "ci"
    ∷ "workflow" ∷ [])

unfoldable pub asks_for_non_code : Text → Bool
unfolding has split_by to_ascii_lowercase is_ascii_alphanumeric
asks_for_non_code prompt =
    let ws = split_by (λ c. not (is_ascii_alphanumeric c)) (to_ascii_lowercase prompt) in
    any (λ w. has w ws) non_code_intent

unfoldable pub is_text : Lang → Bool
is_text Lang.text = true
is_text l = false

-- `file.rsplit('/').next()`
base_name : List Text → Text
base_name [] = []
base_name (t ∷ []) = t
base_name (t ∷ u ∷ ts) = base_name (u ∷ ts)

unfoldable pub path_matches : Text → Text → Bool
unfolding text_eq ends_with split_on base_name
path_matches file mention =
    text_eq file mention
    || ends_with (b'/' ∷ mention) file
    || not (any (λ c. c == b'/') mention) && text_eq (base_name (split_on b'/' file)) mention

module _ {F : Type 0} where
  -- The filter of `cap_per_file`; the counts include the candidates that it drops.
  unfoldable pub cap_from : ℕ → PerFile → List (FusedCandidate F) → List (FusedCandidate F)
  unfolding taken_of
  cap_from cap per_file [] = []
  cap_from cap per_file (c ∷ candidates) =
      let n = taken_of c.chunk.path per_file + 1 in
      let rest = cap_from cap ((c.chunk.path, n) ∷ per_file) candidates in
      if cap == 0 || leb n cap then c ∷ rest else rest

  unfoldable pub cap_per_file : List (FusedCandidate F) → ℕ → ℕ → List (FusedCandidate F)
  unfolding cap_from
  cap_per_file candidates cap k = take k (cap_from cap [] candidates)

  abbrev pub after_code : FusedCandidate F → FusedCandidate F → Bool
  after_code a b = is_text a.chunk.lang && not (is_text b.chunk.lang)

  unfoldable pub halve : Floats F → FusedCandidate F → FusedCandidate F
  unfolding is_text
  halve ops c = if is_text c.chunk.lang then record c { fused = ops.mul c.fused ops.half } else c

  unfoldable pub demote_non_code :
      Floats F → List (FusedCandidate F) → Text → List (FusedCandidate F)
  unfolding asks_for_non_code halve Sort.sort is_text
  demote_non_code ops candidates prompt =
      if asks_for_non_code prompt
      then candidates
      else Sort.sort after_code (map (halve ops) candidates)
