-- ===== src/Spans.antt =====
-- crates/laya-rank/src/span.rs: shaping of scored chunks into the spans of an answer. `f32` is a type
-- `F` with its `<` and `max`; the order in which a `HashMap` hands out its entries, which Rust leaves
-- open, is an argument `iter`.
pub mod Budget
mod Merged
mod Tests
use laya_codex.Common.{
  ℕ, suc, zero, ◌+◌, ◌-◌, ◌≤◌, max, Bool, true, false, ◌&&◌, ◌||◌, Option, none, some, List, [],
  ◌∷◌, ◌++◌, leb, ltb, ◌==◌, if◌then◌else◌, take, drop, map,
}
use laya_codex.Common.Sort
use laya_codex.Common.Text.{Text, text_eq, split_on, join}
use laya_codex.Core.{Chunk, RankedSpan}

abbrev newline : ℕ
newline = b'\n'

abbrev pub max_merge_gap : ℕ
max_merge_gap = 3

abbrev pub max_merged_lines : ℕ
max_merged_lines = 50

pub record Scored (F : Type 0) : Type 0 where
  pub chunk : Chunk
  pub score : F
  pub p_relevant : Option F

pub record MergedSpan (F : Type 0) : Type 0 where
  pub path : Text
  pub start_line : ℕ
  pub end_line : ℕ
  pub symbol : Text
  pub text : Text
  pub score : F
  pub p_relevant : Option F

-- What `by_path` holds for one path, in the order of insertion.
pub record Group (F : Type 0) : Type 0 where
  pub path : Text
  pub members : List (MergedSpan F)

is_empty : Text → Bool
is_empty [] = true
is_empty (c ∷ s) = false

append_lines : Text → List Text → Text
unfolding join
append_lines text [] = text
append_lines text (l ∷ ls) = text ++ newline ∷ join (newline ∷ []) (l ∷ ls)

module _ {F : Type 0} where
  unfoldable pub from_scored : Scored F → MergedSpan F
  from_scored s = record {
    path = s.chunk.path;
    start_line = s.chunk.start_line;
    end_line = s.chunk.end_line;
    symbol = s.chunk.symbol;
    text = s.chunk.text;
    score = s.score;
    p_relevant = s.p_relevant;
  }

  abbrev pub merged_lines : MergedSpan F → ℕ
  merged_lines m = m.end_line - m.start_line + 1

  -- `entry(path).or_default().push(m)`.
  unfoldable pub push_entry : MergedSpan F → List (Group F) → List (Group F)
  unfolding text_eq
  push_entry m [] = record { path = m.path; members = m ∷ [] } ∷ []
  push_entry m (g ∷ gs) =
      let rest = push_entry m gs in
      if text_eq g.path m.path then record g { members = g.members ++ m ∷ [] } ∷ gs else g ∷ rest

  unfoldable pub by_path : List (Group F) → List (Scored F) → List (Group F)
  unfolding push_entry from_scored
  by_path gs [] = gs
  by_path gs (s ∷ scored) = by_path (push_entry (from_scored s) gs) scored

  -- `a` sorts behind `b` by `(start_line, end_line)`.
  abbrev pub after_lines : MergedSpan F → MergedSpan F → Bool
  after_lines a b =
      ltb b.start_line a.start_line || a.start_line == b.start_line && ltb b.end_line a.end_line

  -- The gap is a difference of `i64`: at most `max_merge_gap` lines stand between the two.
  unfoldable pub mergeable : MergedSpan F → MergedSpan F → Bool
  mergeable last m =
      leb m.start_line (last.end_line + 1 + max_merge_gap)
      && leb (max last.end_line m.end_line - last.start_line + 1) max_merged_lines

  -- The text of `last` followed by what of `next` it does not hold.
  unfoldable pub merge_text : MergedSpan F → MergedSpan F → Text
  unfolding append_lines split_on
  merge_text last next =
      if leb next.start_line last.end_line
      then append_lines last.text
          (drop (last.end_line + 1 - next.start_line) (split_on newline next.text))
      else last.text ++ newline ∷ next.text

  -- `truncate_span`
  unfoldable pub truncate_span : MergedSpan F → ℕ → MergedSpan F
  unfolding split_on join
  truncate_span span keep_lines = record span {
    text = join (newline ∷ []) (take (max keep_lines 1) (split_on newline span.text));
    end_line = span.start_line + (keep_lines - 1);
  }

  unfoldable pub to_ranked : MergedSpan F → RankedSpan F
  to_ranked m = record {
    path = m.path;
    start_line = m.start_line;
    end_line = m.end_line;
    symbol = m.symbol;
    p_relevant = m.p_relevant;
    score = m.score;
    text = m.text;
  }

  -- The loop of `enforce_line_budget`, after `used` lines.
  pub enforce_from : ℕ → ℕ → List (MergedSpan F) → List (RankedSpan F)
  unfolding to_ranked truncate_span
  enforce_from max_total used [] = []
  enforce_from max_total used (span ∷ spans) =
      let rest = enforce_from max_total (used + merged_lines span) spans in
      let remaining = max_total - used in
      if remaining == 0
      then []
      else if leb (merged_lines span) remaining
      then to_ranked span ∷ rest
      else to_ranked (truncate_span span remaining) ∷ []

  unfoldable pub enforce_line_budget : List (MergedSpan F) → ℕ → List (RankedSpan F)
  unfolding enforce_from
  enforce_line_budget spans max_total = enforce_from max_total 0 spans

module _ {F : Type 0} (lt : F → F → Bool) (fmax : F → F → F) where
  max_relevant : Option F → Option F → Option F
  max_relevant (some a) (some b) = some (fmax a b)
  max_relevant (some a) none = some a
  max_relevant none b = b

  unfoldable pub merge_into : MergedSpan F → MergedSpan F → MergedSpan F
  unfolding merge_text max_relevant is_empty
  merge_into last next = record last {
    text = merge_text last next;
    end_line = max last.end_line next.end_line;
    score = fmax last.score next.score;
    p_relevant = max_relevant last.p_relevant next.p_relevant;
    symbol = if is_empty last.symbol then next.symbol else last.symbol;
  }

  -- The loop over a sorted group, with `last` the span that grows.
  unfoldable pub merge_from : MergedSpan F → List (MergedSpan F) → List (MergedSpan F)
  unfolding mergeable merge_into
  merge_from last [] = last ∷ []
  merge_from last (m ∷ ms) =
      let grown = merge_from (merge_into last m) ms in
      let next = merge_from m ms in if mergeable last m then grown else last ∷ next

  merge_sorted : List (MergedSpan F) → List (MergedSpan F)
  unfolding merge_from
  merge_sorted [] = []
  merge_sorted (m ∷ ms) = merge_from m ms

  unfoldable pub merge_group : Group F → List (MergedSpan F)
  unfolding merge_sorted
  merge_group g = merge_sorted (Sort.sort after_lines g.members)

  merge_groups : List (Group F) → List (MergedSpan F)
  unfolding merge_group
  merge_groups [] = []
  merge_groups (g ∷ gs) = merge_group g ++ merge_groups gs

  unfoldable pub merge_same_file :
      (List (Group F) → List (Group F)) → List (Scored F) → List (MergedSpan F)
  unfolding merge_groups by_path
  merge_same_file iter scored = merge_groups (iter (by_path [] scored))

  -- The comparator of `shape_spans`: a smaller score sorts behind.
  abbrev pub after_score : MergedSpan F → MergedSpan F → Bool
  after_score a b = lt a.score b.score

  unfoldable pub shape_spans :
      (List (Group F) → List (Group F)) → List (Scored F) → ℕ → ℕ → List (RankedSpan F)
  unfolding merge_same_file enforce_line_budget
  shape_spans iter scored top_n max_total =
      enforce_line_budget (take top_n (Sort.sort after_score (merge_same_file iter scored)))
        max_total
