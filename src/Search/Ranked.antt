-- ===== src/Search/Ranked.antt =====
-- crates/laya-store/src/query.rs: what `fuse_scores` returns.
use laya_codex.Common.{
  ℕ, zero, suc, ◌≤◌, ◌<◌, ◌≡◌, refl, sym, ◌∙◌, ap, Bool, false, inl, inr, none, some, List, [], ◌∷◌,
  ◌++◌, arith, Bool-cases, any, take, length, flatten, All-map, length-take,
}
use laya_codex.Common.Ordered.{after_text, after_text-IsWeakOrder}
use laya_codex.Common.Repeats.{NoRepeats}
use laya_codex.Common.Sort
use laya_codex.Common.Text.{Text, text_eq}
use laya_codex.Fusion.{Floats, add_gain, add_gains, after_hit, sum_hits, fuse_scores}
use laya_codex.Fusion.Sums.{
  score_in, same_id, sum_from, NoRepeats-sort, score_in-sort, NoRepeats-add_gains,
  score_in-add_gains,
}

module _ {F : Type 0} where
  any-take :
      (p : Text × F → Bool) (n : ℕ) (xs : List (Text × F))
      → any p xs ≡ false
      → any p (take n xs) ≡ false
  any-take p zero xs h = refl
  any-take p (suc n) [] h = refl
  any-take p (suc n) (x ∷ xs) h = ground (arith, h, any-take p n xs (ground (arith, h)))

  NoRepeats-take :
      (n : ℕ) (xs : List (Text × F)) → NoRepeats same_id xs → NoRepeats same_id (take n xs)
  NoRepeats-take zero xs h = tt
  NoRepeats-take (suc n) [] h = tt
  NoRepeats-take (suc n) (x ∷ xs) h = (any-take (same_id x) n xs h.0, NoRepeats-take n xs h.1)

  score_in-take :
      (id : Text) (n : ℕ) (xs : List (Text × F)) (s : F)
      → score_in id (take n xs) ≡ some s
      → score_in id xs ≡ some s
  unfolding score_in
  score_in-take id zero xs s e = cc
  score_in-take id (suc n) [] s e = cc
  score_in-take id (suc n) (x ∷ xs) s e = elim (Bool-cases (text_eq x.0 id)) [
    | inl h ↦ rw h (rw h at e)
    | inr h ↦ rw h (score_in-take id n xs s (rw h at e))
  ]

  take_all : (n : ℕ) (xs : List (Text × F)) → length (take n xs) < n → take n xs ≡ xs
  take_all zero xs h = absurd (omega (arith, h))
  take_all (suc n) [] h = refl
  take_all (suc n) (x ∷ xs) h = ap (λ t. x ∷ t) (take_all n xs (omega (arith, h)))

module _ {F : Type 0} (ops : Floats F) where
  add_gains-append :
      (acc hits more : List (Text × F))
      → add_gains ops acc (hits ++ more) ≡ add_gains ops (add_gains ops acc hits) more
  unfolding add_gains
  add_gains-append acc [] more = refl
  add_gains-append acc (h ∷ hits) more = add_gains-append (add_gain ops h.0 h.1 acc) hits more

  sum_hits_lem :
      (acc : List (Text × F)) (per_term : List (List (Text × F)))
      → sum_hits ops acc per_term ≡ add_gains ops acc (flatten per_term)
  unfolding sum_hits add_gains
  sum_hits_lem acc [] = refl
  sum_hits_lem acc (hits ∷ per_term) =
      sum_hits_lem (add_gains ops acc hits) per_term
      ∙ sym (add_gains-append acc hits (flatten per_term))

  -- An id is in it once, it is not longer than the limit, and in order: no entry stands before one with
  -- a larger score.
  pub record IsRanking (limit : ℕ) (out : List (Text × F)) : Type 0 where
    pub no_repeats : NoRepeats same_id out
    pub bounded : length out ≤ limit
    pub best_first : Sort.IsSorted (λ a b. ops.total_lt a.1 b.1) out
    pub sorted : Sort.IsSorted (after_hit ops) out

  pub record IsSummed (per_term : List (List (Text × F))) (limit : ℕ) (out : List (Text × F))
      : Type 0 where
    pub ranking : IsRanking limit out
    pub sums :
        (id : Text) (s : F)
        → score_in id out ≡ some s
        → sum_from ops none id (flatten per_term) ≡ some s
    pub all :
        length out < limit → (id : Text) → score_in id out ≡ sum_from ops none id (flatten per_term)

  after_hit-best_first :
      (out : List (Text × F))
      → Sort.IsSorted (after_hit ops) out
      → Sort.IsSorted (λ a b. ops.total_lt a.1 b.1) out
  unfolding after_hit
  after_hit-best_first [] s = tt
  after_hit-best_first (e ∷ out) s =
      (All-map out (λ d h. ground (arith, h)) s.0, after_hit-best_first out s.1)

  after_hit-IsWeakOrder : Sort.IsWeakOrder ops.total_lt → Sort.IsWeakOrder (after_hit ops)
  unfolding after_hit after_text
  after_hit-IsWeakOrder w = record {
    asym = λ x y h. ground (
      arith,
      h,
      w.asym x.1 y.1,
      w.asym y.1 x.1,
      after_text-IsWeakOrder.asym x.0 y.0,
      after_text-IsWeakOrder.asym y.0 x.0,
    );
    neg_trans = λ x y z h k. ground (
      arith,
      h,
      k,
      w.asym x.1 y.1,
      w.asym y.1 z.1,
      w.neg_trans x.1 y.1 z.1,
      w.neg_trans z.1 x.1 y.1,
      w.neg_trans y.1 z.1 x.1,
      after_text-IsWeakOrder.neg_trans x.0 y.0 z.0,
    );
  }

  -- If scores have a strict weak order: the ranking of hits has no id twice, at most `limit` entries,
  -- and the best first, ids in order on a tie; each score is the sum of the hits of its id, term after
  -- term. And if it has fewer than `limit` entries, all ids with hits are in it.
  pub fuse_scores-IsSummed :
      (per_term : List (List (Text × F))) (limit : ℕ)
      → Sort.IsWeakOrder ops.total_lt
      → IsSummed per_term limit (fuse_scores ops per_term limit)
  unfolding fuse_scores score_in
  fuse_scores-IsSummed per_term limit w =
      let gains = flatten per_term in
      let summed = add_gains ops [] gains in
      let n = NoRepeats-add_gains ops [] gains tt in
      let sorted = Sort.sort (after_hit ops) summed in
      let sum = λ (id : Text).
        score_in-sort (after_hit ops) id summed n ∙ score_in-add_gains ops id [] gains in
      rw (sum_hits_lem [] per_term) (record {
        ranking = record {
          no_repeats = NoRepeats-take limit sorted (NoRepeats-sort (after_hit ops) summed n);
          bounded = omega (arith, length-take limit sorted);
          best_first = after_hit-best_first (take limit sorted) (
              Sort.take-IsSorted (after_hit ops) limit sorted
                (Sort.sort-IsSorted (after_hit ops) (after_hit-IsWeakOrder w) summed));
          sorted =
              Sort.take-IsSorted (after_hit ops) limit sorted
                (Sort.sort-IsSorted (after_hit ops) (after_hit-IsWeakOrder w) summed);
        };
        sums = λ id s e. sym (sum id) ∙ score_in-take id limit sorted s e;
        all = λ h id. ap (score_in id) (take_all limit sorted h) ∙ sum id;
      })
