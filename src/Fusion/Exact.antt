-- ===== src/Fusion/Exact.antt =====
-- crates/laya-rank/src/fusion.rs: the fused list against a sum for each id.
use laya_codex.Common.{
  ℕ, ◌+◌, ◌≡◌, refl, sym, ◌∙◌, ap, map, flatten, ◌++◌, Option, none, some, List, [], ◌∷◌,
  if◌then◌else◌, Bool-cases, inl, inr,
}
use laya_codex.Common.Sort
use laya_codex.Common.Repeats.{NoRepeats}
use laya_codex.Common.Text.{Text, text_eq}
use laya_codex.Fusion.{Floats, add_gains, gains_from, all_gains, after_fused, fuse_ranked_lists}
use laya_codex.Fusion.Sums.{
  score_in, same_id, sum_from, or_zero, NoRepeats-sort, score_in-sort, NoRepeats-add_gains,
  score_in-add_gains, sum_from-append,
}

-- The places of an id in a signal, counted on from a rank.
pub ranks_from : Text → ℕ → List Text → List ℕ
ranks_from id rank [] = []
ranks_from id rank (x ∷ signal) =
    let rest = ranks_from id (rank + 1) signal in if text_eq x id then rank ∷ rest else rest

module _ {F : Type 0} (ops : Floats F) where
  -- The sum of the reciprocals of ranks, in order, onto what it has.
  pub sum_ranks : F → Option F → List ℕ → Option F
  unfolding or_zero
  sum_ranks rrf_k o [] = o
  sum_ranks rrf_k o (r ∷ ranks) =
      let gain = ops.div ops.one (ops.add rrf_k (ops.of_nat r)) in
      sum_ranks rrf_k (some (ops.add (or_zero ops o) gain)) ranks

  sum_ranks-append :
      (rrf_k : F) (o : Option F) (rs more : List ℕ)
      → sum_ranks rrf_k o (rs ++ more) ≡ sum_ranks rrf_k (sum_ranks rrf_k o rs) more
  unfolding sum_ranks
  sum_ranks-append rrf_k o [] more = refl
  sum_ranks-append rrf_k o (r ∷ rs) more =
      sum_ranks-append rrf_k
        (some (ops.add (or_zero ops o) (ops.div ops.one (ops.add rrf_k (ops.of_nat r))))) rs more

  sum_from-gains_from :
      (rrf_k : F) (o : Option F) (id : Text) (rank : ℕ) (signal : List Text)
      → sum_from ops o id (gains_from ops rrf_k rank signal)
        ≡ sum_ranks rrf_k o (ranks_from id rank signal)
  unfolding sum_from gains_from ranks_from sum_ranks
  sum_from-gains_from rrf_k o id rank [] = refl
  sum_from-gains_from rrf_k o id rank (x ∷ signal) = elim (Bool-cases (text_eq x id)) [
    | inl e ↦
        rw (e, sum_from)
          (sum_from-gains_from rrf_k
            (some (ops.add (or_zero ops o) (ops.div ops.one (ops.add rrf_k (ops.of_nat rank))))) id
            (rank + 1) signal)
    | inr e ↦ rw (e, sum_from) (sum_from-gains_from rrf_k o id (rank + 1) signal)
  ]

  sum_from-all_gains :
      (rrf_k : F) (o : Option F) (id : Text) (signals : List (List Text))
      → sum_from ops o id (all_gains ops rrf_k signals)
        ≡ sum_ranks rrf_k o (flatten (map (ranks_from id 0) signals))
  unfolding all_gains sum_from sum_ranks
  sum_from-all_gains rrf_k o id [] = refl
  sum_from-all_gains rrf_k o id (signal ∷ signals) =
      let gains = gains_from ops rrf_k 0 signal in
      let ranks = ranks_from id 0 signal in
      sum_from-append ops o id gains (all_gains ops rrf_k signals)
      ∙ ap (λ p. sum_from ops p id (all_gains ops rrf_k signals))
          (sum_from-gains_from rrf_k o id 0 signal)
      ∙ sum_from-all_gains rrf_k (sum_ranks rrf_k o ranks) id signals
      ∙ sym (sum_ranks-append rrf_k o ranks (flatten (map (ranks_from id 0) signals)))

  -- What a fused list is: no id twice, each id with the sum of the reciprocals over the ranks that it
  -- has in the signals, and in the order of the scores.
  pub record IsFused (rrf_k : F) (signals : List (List Text)) (fused : List (Text × F))
      : Type 0 where
    pub no_repeats : NoRepeats same_id fused
    pub sums :
        (id : Text)
        → score_in id fused ≡ sum_ranks rrf_k none (flatten (map (ranks_from id 0) signals))
    pub sorted : Sort.IsSorted (λ a b. ops.lt a.1 b.1) fused

-- If scores have a strict weak order, fusion lists each id once, exactly the ids of the signals, with
-- the sum of `1 / (rrf_k + rank)` over its ranks, counted from 0, signal after signal; and no id
-- stands before one with a larger score.
pub fuse_ranked_lists-IsFused :
    {F : Type 0} (ops : Floats F) (signals : List (List Text)) (rrf_k : F)
    → Sort.IsWeakOrder ops.lt
    → IsFused ops rrf_k signals (fuse_ranked_lists ops signals rrf_k)
unfolding fuse_ranked_lists score_in
fuse_ranked_lists-IsFused {F} ops signals rrf_k w =
    let gains = all_gains ops rrf_k signals in
    let n = NoRepeats-add_gains ops [] gains tt in
    let order : Sort.IsWeakOrder (after_fused ops) = record {
      asym = λ a b. w.asym a.1 b.1;
      neg_trans = λ a b c. w.neg_trans a.1 b.1 c.1;
    } in
    record {
      no_repeats = NoRepeats-sort (after_fused ops) (add_gains ops [] gains) n;
      sums = λ id.
          score_in-sort (after_fused ops) id (add_gains ops [] gains) n
          ∙ score_in-add_gains ops id [] gains
          ∙ sum_from-all_gains ops rrf_k none id signals;
      sorted = Sort.sort-IsSorted (after_fused ops) order (add_gains ops [] gains);
    }
