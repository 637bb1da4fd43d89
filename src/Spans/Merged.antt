-- ===== src/Spans/Merged.antt =====
-- How `merge_same_file` of crates/laya-rank/src/span.rs merges the spans of one file.
use laya_codex.Common.{
  ℕ, ◌≤◌, ◌≡◌, refl, ◌∙◌, Bool, true, false, ◌&&◌, inl, inr, List, [], ◌∷◌, arith, All, All-map,
  any, Bool-cases, leb,
}
use laya_codex.Common.Sort
use laya_codex.Common.Sort.{IsWeakOrder, IsSorted, sort-IsSorted, any-sort, All-sort}
use laya_codex.Spans.{
  Group, MergedSpan, merged_lines, max_merged_lines, after_lines, mergeable, merge_into, merge_from,
  merge_sorted, merge_group,
}

module _ {F : Type 0} where
  -- A span as the chunker cuts them.
  abbrev pub IsShort : MergedSpan F → Type 0
  IsShort m = (m.start_line ≤ m.end_line) × (merged_lines m ≤ max_merged_lines)

  -- Some span holds all of the lines `s..=e`.
  abbrev pub holds : List (MergedSpan F) → ℕ → ℕ → Bool
  holds ms s e = any (λ m. leb m.start_line s && leb e m.end_line) ms

  -- From line `n` on, by their first lines; and of two neighbours, either more than `max_merge_gap`
  -- lines stand between them or they would be longer than `max_merged_lines` together.
  abbrev pub AllSeparate : ℕ → List (MergedSpan F) → Type 0
  AllSeparate n [] = Unit {0}
  AllSeparate n (a ∷ []) = n ≤ a.start_line
  AllSeparate n (a ∷ b ∷ ms) =
      (n ≤ a.start_line) × (mergeable a b ≡ false) × AllSeparate a.start_line (b ∷ ms)

  after_lines-IsWeakOrder : IsWeakOrder (after_lines {F = F})
  after_lines-IsWeakOrder = record {
    asym = λ x y h. ground arith;
    neg_trans = λ x y z h k. ground arith;
  }

  -- What the spans of a group become.
  pub record IsMergedGroup (n : ℕ) (before after : List (MergedSpan F)) : Type 0 where
    pub separate : AllSeparate n after
    pub short : All IsShort after
    pub kept : (s e : ℕ) → holds before s e ≡ true → holds after s e ≡ true

  -- The first span of a walk keeps its first line and does not shrink.
  abbrev Starts : MergedSpan F → List (MergedSpan F) → Type 0
  Starts last [] = ⊥
  Starts last (m ∷ ms) = (m.start_line ≡ last.start_line) × (last.end_line ≤ m.end_line)

  Starts-grown :
      (last grown : MergedSpan F) (ms : List (MergedSpan F))
      → grown.start_line ≡ last.start_line
      → last.end_line ≤ grown.end_line
      → Starts grown ms
      → Starts last ms
  Starts-grown last grown [] e h s = s
  Starts-grown last grown (m ∷ ms) e h s = (s.0 ∙ e, omega arith)

  add_span :
      (n : ℕ) (last m : MergedSpan F) (ms after : List (MergedSpan F))
      → n ≤ last.start_line
      → IsShort last
      → mergeable last m ≡ false
      → last.start_line ≤ m.start_line
      → Starts m after
      → IsMergedGroup last.start_line (m ∷ ms) after
      → IsMergedGroup n (last ∷ m ∷ ms) (last ∷ after)
  unfolding mergeable
  add_span n last m ms [] h t e o st g = absurd st
  add_span n last m ms (x ∷ after) h t e o st g = record {
    separate = (h, ground arith, g.separate);
    short = (t, g.short);
    kept = λ s e'. λ q. ground (arith, g.kept s e');
  }

module _ {F : Type 0} (lt : F → F → Bool) (fmax : F → F → F) where
  merge_from-Starts :
      (last : MergedSpan F) (ms : List (MergedSpan F)) → Starts last (merge_from lt fmax last ms)
  unfolding merge_from merge_into
  merge_from-Starts last [] = (refl, omega arith)
  merge_from-Starts last (m ∷ ms) = elim (Bool-cases (mergeable last m)) [
    | inl e ↦ rw e (
        Starts-grown last (merge_into lt fmax last m)
          (merge_from lt fmax (merge_into lt fmax last m) ms) refl (omega arith)
          (merge_from-Starts (merge_into lt fmax last m) ms))
    | inr e ↦ rw e (refl, omega arith)
  ]

  grow_span :
      (n : ℕ) (last m : MergedSpan F) (ms after : List (MergedSpan F))
      → last.start_line ≤ m.start_line
      → IsMergedGroup n (merge_into lt fmax last m ∷ ms) after
      → IsMergedGroup n (last ∷ m ∷ ms) after
  unfolding merge_into
  grow_span n last m ms after o g = record {
    separate = g.separate;
    short = g.short;
    kept = λ s e q. g.kept s e (ground arith);
  }

  merge_into-IsShort :
      (last m : MergedSpan F)
      → IsShort last
      → mergeable last m ≡ true
      → IsShort (merge_into lt fmax last m)
  unfolding merge_into mergeable
  merge_into-IsShort last m t e = (omega arith, ground arith)

  merge_from-IsMergedGroup :
      (n : ℕ) (last : MergedSpan F) (ms : List (MergedSpan F))
      → n ≤ last.start_line
      → IsShort last
      → All IsShort ms
      → All (λ m. last.start_line ≤ m.start_line) ms
      → IsSorted after_lines ms
      → IsMergedGroup n (last ∷ ms) (merge_from lt fmax last ms)
  unfolding merge_from
  merge_from-IsMergedGroup n last [] h t a o s = record {
    separate = h;
    short = (t, tt);
    kept = λ s e q. q;
  }
  merge_from-IsMergedGroup n last (m ∷ ms) h t a o s = elim (Bool-cases (mergeable last m)) [
    | inl e ↦ rw e (
        grow_span n last m ms (merge_from lt fmax (merge_into lt fmax last m) ms) o.0 (
          merge_from-IsMergedGroup n (merge_into lt fmax last m) ms h
            (merge_into-IsShort last m t e) a.1 o.1 s.1))
    | inr e ↦ rw e (
        add_span n last m ms (merge_from lt fmax m ms) h t e o.0 (merge_from-Starts m ms) (
          merge_from-IsMergedGroup last.start_line m ms o.0 a.0 a.1
            (All-map ms (λ x k. ground arith) s.0) s.1))
  ]

  merge_sorted-IsMergedGroup :
      (ms : List (MergedSpan F))
      → All IsShort ms
      → IsSorted after_lines ms
      → IsMergedGroup 0 ms (merge_sorted lt fmax ms)
  unfolding merge_sorted
  merge_sorted-IsMergedGroup [] a s = record { separate = tt; short = tt; kept = λ s e q. q }
  merge_sorted-IsMergedGroup (m ∷ ms) a s =
      merge_from-IsMergedGroup 0 m ms (omega arith) a.0 a.1 (All-map ms (λ x k. ground arith) s.0)
        s.1

  -- The spans of one file, each of at most `max_merged_lines` lines, merge into spans that are no
  -- longer, that stand in the order of their first lines with no two neighbours that could still
  -- merge, and whatever lines one span of the file held, one merged span holds.
  pub merge_group-IsMergedGroup :
      (g : Group F) → All IsShort g.members → IsMergedGroup 0 g.members (merge_group lt fmax g)
  unfolding merge_group
  merge_group-IsMergedGroup g a =
      let sorted = Sort.sort after_lines g.members in
      let r =
        merge_sorted-IsMergedGroup sorted (All-sort after_lines IsShort g.members a)
          (sort-IsSorted after_lines after_lines-IsWeakOrder g.members) in
      record {
        separate = r.separate;
        short = r.short;
        kept = λ s e q. r.kept s e (any-sort after_lines _ g.members ∙ q);
      }
