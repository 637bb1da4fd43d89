-- ===== src/Parse/Segments/Finish/Sorted.antt =====
-- Sorting segments by their first row (`finish` in crates/laya-parse/src/cast.rs) puts segments that
-- do not overlap in file order.
use laya_codex.Common.{
  ℕ, ◌+◌, ◌≤◌, ◌<◌, ◌≡◌, refl, ◌∙◌, true, false, ◌||◌, ◌⊎◌, inl, inr, List, [], ◌∷◌, ◌++◌, arith,
  All, All-append, ap, Bool-cases, ltb,
}
use laya_codex.Common.Sort
use laya_codex.Parse.Config.{ChunkConfig, within, covers}
use laya_codex.Parse.Merging.{From}
use laya_codex.Parse.Segments.{Seg}
use laya_codex.Parse.Segments.Finish.{span_of, spans, after_start}

-- One ends before the other begins.
abbrev ClearOf : Seg → Seg → Type 0
ClearOf x y = (x.end < y.start) ⊎ (y.end < x.start)

-- Segments of which no two overlap.
abbrev pub Clear : List Seg → Type 0
Clear [] = Unit {0}
Clear (x ∷ xs) = (x.start ≤ x.end) × All (ClearOf x) xs × Clear xs

ClearOf-rows :
    (x y : Seg)
    → x.start ≤ x.end
    → y.start ≤ y.end
    → ((i : ℕ) → within i (span_of y) ≡ true → within i (span_of x) ≡ false)
    → ClearOf x y
ClearOf-rows x y h k f = ground (arith, f x.start, f y.start)

module _ (cfg : ChunkConfig) where
  insert-From :
      (m : ℕ) (x : Seg) (ys : List Seg)
      → m ≤ x.start
      → x.start ≤ x.end
      → All (ClearOf x) ys
      → From cfg m (spans ys)
      → From cfg m (spans (Sort.insert after_start x ys))
  unfolding Sort.insert
  insert-From m x [] h k c f = (h, k, tt)
  insert-From m x (y ∷ ys) h k c f = elim (Bool-cases (ltb y.start x.start)) [
    | inl e ↦ rw e (f.0, f.1, insert-From (y.end + 1) x ys (ground (arith, c.0)) k c.1 f.2)
    | inr e ↦ rw e (h, k, (ground (arith, c.0), f.1, f.2))
  ]

  -- Sorted, such segments are in file order.
  pub sort-From : (xs : List Seg) → Clear xs → From cfg 0 (spans (Sort.sort after_start xs))
  unfolding Sort.sort
  sort-From [] c = tt
  sort-From (x ∷ xs) c =
      insert-From 0 x (Sort.sort after_start xs) (omega arith) c.0
        (Sort.All-sort after_start (ClearOf x) xs c.1) (sort-From xs c.2)

  -- A segment from row `m` on, on none of the rows that `segs` hold.
  abbrev pub Beside : List Seg → Seg → Type 0
  Beside segs y =
      (y.start ≤ y.end) × ((i : ℕ) → within i (span_of y) ≡ true → covers (spans segs) i ≡ false)

  From-ClearOf :
      (x : Seg) (xs : List Seg) (m : ℕ) → x.end < m → From cfg m (spans xs) → All (ClearOf x) xs
  From-ClearOf x [] m h f = tt
  From-ClearOf x (y ∷ xs) m h f =
      (inl (omega arith), From-ClearOf x xs (y.end + 1) (omega arith) f.2)

  Beside-ClearOf :
      (x : Seg) (xs ys : List Seg)
      → x.start ≤ x.end
      → All (Beside (x ∷ xs)) ys
      → All (ClearOf x) ys × All (Beside xs) ys
  Beside-ClearOf x xs [] h b = (tt, tt)
  Beside-ClearOf x xs (y ∷ ys) h b =
      let (cs, bs) = Beside-ClearOf x xs ys h b.1 in
      (
        (ClearOf-rows x y h b.0.0 (λ i w. ground (arith, b.0.1 i w)), cs),
        ((b.0.0, λ i w. ground (arith, b.0.1 i w)), bs),
      )

  -- Segments in file order, with more on rows that they leave free.
  pub append-Clear :
      (m : ℕ) (xs ys : List Seg)
      → From cfg m (spans xs)
      → All (Beside xs) ys
      → Clear ys
      → Clear (xs ++ ys)
  append-Clear m [] ys f b c = c
  append-Clear m (x ∷ xs) ys f b c =
      let (clear, beside) = Beside-ClearOf x xs ys f.1 b in
      (
        f.1,
        All-append (ClearOf x) xs ys (From-ClearOf x xs (x.end + 1) (omega arith) f.2) clear,
        append-Clear (x.end + 1) xs ys f.2 beside c,
      )

  pub From-Clear : (m : ℕ) (xs : List Seg) → From cfg m (spans xs) → Clear xs
  From-Clear m [] f = tt
  From-Clear m (x ∷ xs) f =
      (f.1, From-ClearOf x xs (x.end + 1) (omega arith) f.2, From-Clear (x.end + 1) xs f.2)

covers-insert :
    (x : Seg) (ys : List Seg) (i : ℕ)
    → covers (spans (Sort.insert after_start x ys)) i ≡ covers (spans (x ∷ ys)) i
unfolding Sort.insert
covers-insert x [] i = refl
covers-insert x (y ∷ ys) i = elim (Bool-cases (ltb y.start x.start)) [
  | inl e ↦ rw e (ground (arith, covers-insert x ys i))
  | inr e ↦ rw e refl
]

-- Sorting keeps every row.
pub covers-sort :
    (xs : List Seg) (i : ℕ) → covers (spans (Sort.sort after_start xs)) i ≡ covers (spans xs) i
unfolding Sort.sort
covers-sort [] i = refl
covers-sort (x ∷ xs) i =
    covers-insert x (Sort.sort after_start xs) i
    ∙ ap (λ b. within i (span_of x) || b) (covers-sort xs i)

pub covers-append :
    (xs ys : List Seg) (i : ℕ)
    → covers (spans (xs ++ ys)) i ≡ (covers (spans xs) i || covers (spans ys) i)
covers-append [] ys i = refl
covers-append (x ∷ xs) ys i = ground (arith, covers-append xs ys i)
