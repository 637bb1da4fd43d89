-- ===== src/Spans/Tests.antt =====
-- Runs of the shaping of crates/laya-rank/src/span.rs, with scores that are natural numbers.
use laya_codex.Common.{ℕ, ◌≤◌, ◌≡◌, max, refl, none, List, [], ◌∷◌, arith, ltb, length, map, take}
use laya_codex.Common.Text.{Text, codes}
use laya_codex.Common.Sort
use laya_codex.Common.Sort.{IsWeakOrder}
use laya_codex.Core.{Lang}
use laya_codex.Spans.{
  Scored, MergedSpan, Group, merge_group, merge_same_file, after_score, shape_spans, to_ranked,
}
use laya_codex.Spans.Budget.{total_lines, Descending, shape_spans-Descending}
use laya_codex.Spans.Merged.{IsMergedGroup, merge_group-IsMergedGroup}

abbrev fmax : ℕ → ℕ → ℕ
fmax a b = max a b

abbrev lines_of : Text → ℕ → ℕ → ℕ → Scored ℕ
lines_of path a b score = record {
  chunk = record {
    path = path;
    start_line = a;
    end_line = b;
    lang = Lang.rust;
    symbol = [];
    kind = [];
    defines = [];
    refs = [];
    text = codes "x";
  };
  score = score;
  p_relevant = none;
}

abbrev three_chunks : List (Scored ℕ)
three_chunks =
    lines_of (codes "a") 1 10 9 ∷ lines_of (codes "b") 5 8 7 ∷ lines_of (codes "a") 13 20 8 ∷ []

abbrev span : ℕ → ℕ → MergedSpan ℕ
span a b = record {
  path = codes "a";
  start_line = a;
  end_line = b;
  symbol = [];
  text = [];
  score = 1;
  p_relevant = none;
}

abbrev short_file : Group ℕ
short_file = record { path = codes "a"; members = span 13 20 ∷ span 1 10 ∷ span 40 80 ∷ [] }

ltb-IsWeakOrder : IsWeakOrder ltb
ltb-IsWeakOrder = record { asym = λ x y h. ground arith; neg_trans = λ x y z h k. ground arith }

-- The two chunks of file `a` merge over a gap of two lines, whose text is not in the span.
shape_spans-gap :
    map {B = ℕ × ℕ}
      (λ s. (s.start_line, s.end_line))
      (shape_spans ltb fmax (λ gs. gs) three_chunks 10 22)
    ≡ (1, 20) ∷ (5, 6) ∷ []
unfolding shape_spans Sort.sort
shape_spans-gap = refl

shape_spans-Descending_example :
    let best =
      take 10
        (Sort.sort (after_score ltb fmax) (merge_same_file ltb fmax (λ gs. gs) three_chunks)) in
    let out = shape_spans ltb fmax (λ gs. gs) three_chunks 10 22 in
    (total_lines out ≤ 22)
    × (length out ≤ 10)
    × Descending ltb fmax out
    × (total_lines (map to_ranked best) ≤ 22 → out ≡ map to_ranked best)
shape_spans-Descending_example =
    shape_spans-Descending ltb fmax (λ gs. gs) three_chunks 10 22 ltb-IsWeakOrder

merge_group-IsMergedGroup_example :
    IsMergedGroup 0 short_file.members (merge_group ltb fmax short_file)
merge_group-IsMergedGroup_example =
    merge_group-IsMergedGroup ltb fmax short_file
      ((omega arith, omega arith), ((omega arith, omega arith), ((omega arith, omega arith), tt)))
