-- ===== src/Retrieval/Stages.antt =====
-- crates/laya-rank/src/retriever.rs: the lengths of the lists of a query, and its lookups.
use laya_codex.Common.{
  ℕ, suc, ◌+◌, ◌≤◌, ◌≡◌, refl, ◌∙◌, ap, none, some, List, [], ◌∷◌, arith, Bool-cases, inl, inr,
  length, map, flatten, All, length-map, length-take,
}
use laya_codex.Common.Sort
use laya_codex.Common.Sort.{IsWeakOrder}
use laya_codex.Common.Text.{Text}
use laya_codex.Core.{Chunk}
use laya_codex.Fusion.{Floats}
use laya_codex.Ident.{terms}
use laya_codex.Spans.{Scored}
use laya_codex.Retrieval.{
  FusedCandidate, asks_for_non_code, cap_per_file, cap_from, demote_non_code, halve, after_code,
}
use laya_codex.Retrieval.Gate.{to_lexical}
use laya_codex.Retrieval.Query.{
  Reads, CapturedCandidate, defining_ids, path_ids, path_signal, path_hits, p_with, capture_from,
  resolve_paths,
}

-- The lookups that find the candidates go through.
pub record Works {F : Type 0} (store : Reads F) : Type 0 where
  pub ready : store.ensure_index ≡ some tt
  pub bm25 : (ts : List Text) (n : ℕ) → (hits : List (Text × F)) × (store.bm25 ts n ≡ some hits)
  pub files : (fs : List Text) × (store.list_files ≡ some fs)
  pub defining :
      (ts : List Text) (n : ℕ) → (is : List Text) × (store.lookups.chunks_defining ts n ≡ some is)
  pub chunks : (is : List Text) → (cs : List Chunk) × (store.lookups.get_chunks is ≡ some cs)

module _ {F : Type 0} where
  pub length-cap_per_file :
      (candidates : List (FusedCandidate F)) (cap k : ℕ)
      → length (cap_per_file candidates cap k) ≤ k
  unfolding cap_per_file
  length-cap_per_file candidates cap k = omega (arith, length-take k (cap_from cap [] candidates))

  pub length-demote_non_code :
      (ops : Floats F) (candidates : List (FusedCandidate F)) (prompt : Text)
      → length (demote_non_code ops candidates prompt) ≡ length candidates
  unfolding demote_non_code
  length-demote_non_code ops candidates prompt = elim (Bool-cases (asks_for_non_code prompt)) [
    | inl e ↦ rw e refl
    | inr e ↦ rw e (
        Sort.length-sort after_code (map (halve ops) candidates)
        ∙ length-map (halve ops) candidates)
  ]

  pub length-capture_from :
      (id : Chunk → Text) (rank : ℕ) (scored : List (Scored F))
      (candidates : List (FusedCandidate F))
      → length (capture_from id rank scored candidates) ≡ length candidates
  unfolding capture_from
  length-capture_from id rank scored [] = refl
  length-capture_from id rank scored (c ∷ candidates) =
      ap suc (length-capture_from id (rank + 1) scored candidates)

  pub p_with-to_lexical :
      (id : Chunk → Text) (i : Text) (candidates : List (FusedCandidate F))
      → p_with id i none (to_lexical candidates) ≡ none
  unfolding p_with to_lexical
  p_with-to_lexical id i [] = refl
  p_with-to_lexical id i (c ∷ candidates) = p_with-to_lexical id i candidates

  pub Unscored : CapturedCandidate F → Type 0
  Unscored c = c.p ≡ none

  pub capture_from-Unscored :
      (id : Chunk → Text) (rank : ℕ) (all candidates : List (FusedCandidate F))
      → All Unscored (capture_from id rank (to_lexical all) candidates)
  unfolding capture_from Unscored
  capture_from-Unscored id rank all [] = tt
  capture_from-Unscored id rank all (c ∷ candidates) =
      (p_with-to_lexical id c.chunk_id all, capture_from-Unscored id (rank + 1) all candidates)

  pub path_hits-answers :
      (store : Reads F)
      → Works store
      → (ts : List Text) (n : ℕ) → (is : List Text) × (path_hits store ts n ≡ some is)
  unfolding path_hits
  path_hits-answers store v [] n = ([], refl)
  path_hits-answers store v (t ∷ ts) n =
      let (hits, h) = v.bm25 (t ∷ ts) n in (map (λ (h : Text × F). h.0) hits, rw h refl)

  pub path_ids-answers :
      (store : Reads F)
      → Works store
      → (ts : List Text) (n : ℕ) → (is : List Text) × (path_ids store ts n ≡ some is)
  unfolding path_ids path_signal
  path_ids-answers store v [] n = ([], refl)
  path_ids-answers store v (t ∷ ts) n =
      let (files, f) = v.files in
      let (is, e) =
        path_hits-answers store v (flatten (map terms (resolve_paths files [] (t ∷ ts)))) n in
      (is, rw f e)

  pub defining_ids-answers :
      (store : Reads F)
      → Works store
      → (ts : List Text) (n : ℕ) → (is : List Text) × (defining_ids store ts n ≡ some is)
  unfolding defining_ids
  defining_ids-answers store v [] n = ([], refl)
  defining_ids-answers store v (t ∷ ts) n = v.defining (t ∷ ts) n
