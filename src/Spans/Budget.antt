-- ===== src/Spans/Budget.antt =====
-- What `shape_spans` of crates/laya-rank/src/span.rs may return.
use laya_codex.Common.{
  ℕ, ◌+◌, ◌-◌, ◌≤◌, ◌≡◌, ◌==◌, refl, Bool, false, inl, inr, List, [], ◌∷◌, arith, All, Bool-cases,
  length, length-take, take, leb, map,
}
use laya_codex.Common.Sort
use laya_codex.Common.Sort.{IsWeakOrder, IsSorted, sort-IsSorted, take-IsSorted}
use laya_codex.Core.{RankedSpan}
use laya_codex.Spans.{
  Group, Scored, MergedSpan, merged_lines, enforce_from, enforce_line_budget, merge_same_file,
  after_score, shape_spans, to_ranked,
}

module _ {F : Type 0} where
  -- The lines that spans take in an answer.
  abbrev pub total_lines : List (RankedSpan F) → ℕ
  total_lines [] = 0
  total_lines (s ∷ spans) = s.end_line - s.start_line + 1 + total_lines spans

  enforce_from-fits :
      (most used : ℕ) (spans : List (MergedSpan F))
      → used ≤ most
      → (used + total_lines (enforce_from most used spans) ≤ most)
        × (length (enforce_from most used spans) ≤ length spans)
  unfolding enforce_from
  enforce_from-fits most used [] h = (omega arith, omega arith)
  enforce_from-fits most used (s ∷ spans) h = elim (Bool-cases (most - used == 0)) [
    | inl e ↦ rw e (omega arith, omega arith)
    | inr e ↦ elim (Bool-cases (leb (merged_lines s) (most - used))) [
      | inl fits ↦
          let (a, b) = enforce_from-fits most (used + merged_lines s) spans (ground arith) in
          rw (e, fits) (omega arith, omega arith)
      | inr cut ↦ rw (e, cut) (ground arith, omega arith)
    ]
  ]

  -- Scores come out as they went in.
  All-enforce_from :
      (P : F → Type 0) (most used : ℕ) (spans : List (MergedSpan F))
      → All (λ s. P s.score) spans
      → All (λ s. P s.score) (enforce_from most used spans)
  unfolding enforce_from
  All-enforce_from P most used [] a = tt
  All-enforce_from P most used (s ∷ spans) a = elim (Bool-cases (most - used == 0)) [
    | inl e ↦ rw e tt
    | inr e ↦ elim (Bool-cases (leb (merged_lines s) (most - used))) [
      | inl fits ↦ rw (e, fits) (a.0, All-enforce_from P most (used + merged_lines s) spans a.1)
      | inr cut ↦ rw (e, cut) (a.0, tt)
    ]
  ]

  enforce_from-all :
      (most used : ℕ) (spans : List (MergedSpan F))
      → used + total_lines (map to_ranked spans) ≤ most
      → enforce_from most used spans ≡ map to_ranked spans
  unfolding enforce_from to_ranked
  enforce_from-all most used [] h = refl
  enforce_from-all most used (s ∷ spans) h =
      ground (arith, enforce_from-all most (used + merged_lines s) spans (omega arith))

module _ {F : Type 0} (lt : F → F → Bool) (fmax : F → F → F) where
  after_score-IsWeakOrder : IsWeakOrder lt → IsWeakOrder (after_score lt fmax)
  after_score-IsWeakOrder w = record {
    asym = λ x y. w.asym x.score y.score;
    neg_trans = λ x y z. w.neg_trans x.score y.score z.score;
  }

  -- An answer in which no span stands before one with a larger score.
  abbrev pub Descending : List (RankedSpan F) → Type 0
  Descending [] = Unit {0}
  Descending (s ∷ spans) = All (λ t. lt s.score t.score ≡ false) spans × Descending spans

  enforce_from-Descending :
      (most used : ℕ) (spans : List (MergedSpan F))
      → IsSorted (after_score lt fmax) spans
      → Descending (enforce_from most used spans)
  unfolding enforce_from
  enforce_from-Descending most used [] a = tt
  enforce_from-Descending most used (s ∷ spans) a = elim (Bool-cases (most - used == 0)) [
    | inl e ↦ rw e tt
    | inr e ↦ elim (Bool-cases (leb (merged_lines s) (most - used))) [
      | inl fits ↦
          rw (e, fits)
            (
              All-enforce_from (λ f. lt s.score f ≡ false) most (used + merged_lines s) spans a.0,
              enforce_from-Descending most (used + merged_lines s) spans a.1,
            )
      | inr cut ↦ rw (e, cut) (tt, tt)
    ]
  ]

  -- Whatever the order in which the hash map hands out its files: the answer takes at most
  -- `max_total` lines in at most `top_n` spans. If the order of scores is a strict weak order (no
  -- score is NaN), no span stands before one with a larger score. And if the best `top_n` merged
  -- spans fit the budget, they come out whole.
  pub shape_spans-Descending :
      (iter : List (Group F) → List (Group F)) (scored : List (Scored F)) (top_n max_total : ℕ)
      → IsWeakOrder lt
      → let best =
          take top_n (Sort.sort (after_score lt fmax) (merge_same_file lt fmax iter scored)) in
        let out = shape_spans lt fmax iter scored top_n max_total in
        (total_lines out ≤ max_total)
        × (length out ≤ top_n)
        × Descending out
        × (total_lines (map to_ranked best) ≤ max_total → out ≡ map to_ranked best)
  unfolding shape_spans enforce_line_budget
  shape_spans-Descending iter scored top_n max_total w =
      let sorted = Sort.sort (after_score lt fmax) (merge_same_file lt fmax iter scored) in
      let (a, b) = enforce_from-fits max_total 0 (take top_n sorted) (omega arith) in
      let n = length-take top_n sorted in
      (
        omega arith,
        omega arith,
        enforce_from-Descending max_total 0 (take top_n sorted) (
            take-IsSorted (after_score lt fmax) top_n sorted (
              sort-IsSorted (after_score lt fmax) (after_score-IsWeakOrder w)
                (merge_same_file lt fmax iter scored))),
        λ h. enforce_from-all max_total 0 (take top_n sorted) (omega arith),
      )
