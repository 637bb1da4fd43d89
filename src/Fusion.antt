-- ===== src/Fusion.antt =====
-- crates/laya-rank/src/fusion.rs, and `fuse_scores` of crates/laya-store/src/query.rs: ids with sums
-- of scores. `f32` is a type `F` with the operations of `Floats`. The map of scores, the ids seen and
-- their order are one list of entries, in the order in which the ids were first seen.
pub mod Sums
mod Exact
mod Tests
use laya_codex.Common.{
  ℕ, ◌+◌, Bool, true, false, ◌&&◌, ◌||◌, not, List, [], ◌∷◌, ◌++◌, if◌then◌else◌, take, any,
}
use laya_codex.Common.Ordered.{text_ltb}
use laya_codex.Common.Sort
use laya_codex.Common.Text.{Text, text_eq}

pub record Floats (F : Type 0) : Type 0 where
  pub zero : F
  pub one : F
  pub half : F
  pub add : F → F → F
  pub sub : F → F → F
  pub mul : F → F → F
  pub div : F → F → F
  pub of_nat : ℕ → F
  pub lt : F → F → Bool
  pub total_lt : F → F → Bool
  pub ge : F → F → Bool
  pub max : F → F → F

module _ {F : Type 0} (ops : Floats F) where
  -- `*scores.entry(id).or_insert(0.0) += gain`
  unfoldable pub add_gain : Text → F → List (Text × F) → List (Text × F)
  unfolding text_eq
  add_gain id gain [] = (id, ops.add ops.zero gain) ∷ []
  add_gain id gain (e ∷ scores) =
      let rest = add_gain id gain scores in
      if text_eq e.0 id then (e.0, ops.add e.1 gain) ∷ scores else e ∷ rest

  unfoldable pub add_gains : List (Text × F) → List (Text × F) → List (Text × F)
  unfolding add_gain
  add_gains scores [] = scores
  add_gains scores (g ∷ gains) = add_gains (add_gain g.0 g.1 scores) gains

  -- What a signal adds, from a rank on.
  unfoldable pub gains_from : F → ℕ → List Text → List (Text × F)
  gains_from rrf_k rank [] = []
  gains_from rrf_k rank (id ∷ signal) =
      (id, ops.div ops.one (ops.add rrf_k (ops.of_nat rank))) ∷ gains_from rrf_k (rank + 1) signal

  unfoldable pub all_gains : F → List (List Text) → List (Text × F)
  unfolding gains_from
  all_gains rrf_k [] = []
  all_gains rrf_k (signal ∷ signals) = gains_from rrf_k 0 signal ++ all_gains rrf_k signals

  abbrev pub after_fused : Text × F → Text × F → Bool
  after_fused a b = ops.lt a.1 b.1

  unfoldable pub fuse_ranked_lists : List (List Text) → F → List (Text × F)
  unfolding add_gains all_gains Sort.sort
  fuse_ranked_lists signals rrf_k = Sort.sort after_fused (add_gains [] (all_gains rrf_k signals))

  -- `total_cmp` on the scores, then the ids.
  unfoldable pub after_hit : Text × F → Text × F → Bool
  unfolding text_ltb
  after_hit a b = ops.total_lt a.1 b.1 || not (ops.total_lt b.1 a.1) && text_ltb b.0 a.0

  unfoldable pub sum_hits : List (Text × F) → List (List (Text × F)) → List (Text × F)
  unfolding add_gains
  sum_hits acc [] = acc
  sum_hits acc (hits ∷ per_term) = sum_hits (add_gains acc hits) per_term

  unfoldable pub fuse_scores : List (List (Text × F)) → ℕ → List (Text × F)
  unfolding sum_hits after_hit Sort.sort
  fuse_scores per_term limit = take limit (Sort.sort after_hit (sum_hits [] per_term))
