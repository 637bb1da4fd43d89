-- ===== src/Parse/Segments/Finish/Extra.antt =====
-- The segments of stray rows in `finish` (crates/laya-parse/src/cast.rs), and the trimming before.
use laya_codex.Common.{
  ℕ, zero, suc, ◌+◌, ◌-◌, ◌≤◌, ◌<◌, ◌≡◌, refl, subst, sym, min, Bool, true, false, ◌||◌, ◌⊎◌, inl,
  inr, List, [], ◌∷◌, arith, All, Bool-cases, ltb, leb,
}
use native.Mathlib.Decide.{ℕ_discrete}
use laya_codex.Parse.Config.{ChunkConfig, within, covers}
use laya_codex.Parse.Merging.{From, From-mono, Fits}
use laya_codex.Parse.Chunking.{HasEdges}
use laya_codex.Parse.Segments.{Seg}
use laya_codex.Parse.Segments.Finish.{span_of, spans, run_end, text_seg, extra_from}

from_here :
    (P : ℕ → Type 0) (r stop : ℕ)
    → P r
    → ((i : ℕ) → r + 1 ≤ i → i < stop → P i)
    → (i : ℕ) → r ≤ i
    → i < stop
    → P i
from_here P r stop here later i h k = elim (ℕ_discrete i r) [
  | yes same ↦ subst P (sym same) here
  | no other ↦ later i (omega arith) k
]

ends_here :
    (blank : ℕ → Bool) (r end stop : ℕ)
    → (end ≡ r) ⊎ ((r + 1 ≤ end) × (end < stop) × (blank end ≡ false))
    → blank r ≡ false
    → r < stop
    → (r ≤ end) × (end < stop) × (blank end ≡ false)
ends_here blank r end stop (inl same) b h = rw same (omega arith, h, b)
ends_here blank r end stop (inr t) b h = (omega arith, t.1, t.2)

module _ (covered blank : ℕ → Bool) where
  -- Rows `r..stop` are free, and none of them has content past `end`, which has it unless no row
  -- has and `end` is what it was.
  abbrev Runs : ℕ → ℕ → ℕ → ℕ × ℕ → Type 0
  Runs count r end (end', stop) =
      (r ≤ stop)
      × (stop ≤ r + count)
      × ((i : ℕ) → r ≤ i → i < stop → covered i ≡ false)
      × ((i : ℕ) → r ≤ i → i < stop → blank i ≡ false → i ≤ end')
      × ((end' ≡ end) ⊎ ((r ≤ end') × (end' < stop) × (blank end' ≡ false)))

  run_end-Runs : (count r end : ℕ) → end ≤ r → Runs count r end (run_end covered blank count r end)
  unfolding run_end
  run_end-Runs zero r end h = (
    omega arith,
    omega arith,
    λ i a b. absurd (omega arith),
    λ i a b c. absurd (omega arith),
    inl refl,
  )
  run_end-Runs (suc count) r end h = elim (Bool-cases (covered r)) [
    | inl e ↦ rw e (
      omega arith,
      omega arith,
      λ i a b. absurd (omega arith),
      λ i a b c. absurd (omega arith),
      inl refl,
    )
    | inr e ↦ elim (Bool-cases (blank r)) [
      | inl b ↦
          let (lo, hi, free, most, last) = run_end-Runs count (r + 1) end (omega arith) in
          rw (e, b)
            (
              omega arith,
              omega arith,
              from_here (λ i. covered i ≡ false) r _ e free,
              from_here (λ i. blank i ≡ false → i ≤ _) r _ (λ c. cc) most,
              elim last [ inl same ↦ inl same | inr t ↦ inr (omega arith, t.1, t.2) ],
            )
      | inr b ↦
          let (lo, hi, free, most, last) = run_end-Runs count (r + 1) r (omega arith) in
          rw (e, b)
            (
              omega arith,
              omega arith,
              from_here (λ i. covered i ≡ false) r _ e free,
              from_here (λ i. blank i ≡ false → i ≤ _) r _ (λ c. ground (arith, last)) most,
              inr (ends_here blank r _ _ last b (omega arith)),
            )
    ]
  ]

  first_row-Runs :
      (count r : ℕ)
      → 0 < count
      → covered r ≡ false
      → blank r ≡ false
      → (c : ℕ) × (count ≡ c + 1) × Runs c (r + 1) r (run_end covered blank count r r)
  unfolding run_end
  first_row-Runs zero r h e b = absurd (omega arith)
  first_row-Runs (suc c) r h e b =
      (c, omega arith, rw (e, b) (run_end-Runs c (r + 1) r (omega arith)))

module _ (cfg : ChunkConfig) (n : ℕ) (covered blank : ℕ → Bool) where
  abbrev Free : Seg → Type 0
  Free y = (y.start ≤ y.end) × ((i : ℕ) → within i (span_of y) ≡ true → covered i ≡ false)

  -- What the loop over stray rows makes from row `r` on.
  pub record IsExtra (r : ℕ) (es : List Seg) : Type 0 where
    pub ordered : From cfg r (spans es)
    pub fits : All (Fits cfg) (spans es)
    pub edges : All (HasEdges n blank) (spans es)
    pub free : All Free es
    pub whole :
        (i : ℕ) → r ≤ i → i < n → covered i ≡ false → blank i ≡ false → covers (spans es) i ≡ true

  pass_row :
      (r : ℕ) (es : List Seg) → (covered r || blank r) ≡ true → IsExtra (r + 1) es → IsExtra r es
  pass_row r es h x = record {
    ordered = From-mono cfg (r + 1) r (spans es) (omega arith) x.ordered;
    fits = x.fits;
    edges = x.edges;
    free = x.free;
    whole = λ i a b c d.
        (from_here (λ i. covered i ≡ false → blank i ≡ false → covers (spans es) i ≡ true) r n
          (ground arith) (λ j p q. x.whole j p q) i a b c d);
  }

  add_run :
      (r count end stop : ℕ) (es : List Seg)
      → covered r ≡ false
      → blank r ≡ false
      → count + 1 ≤ cfg.max_lines
      → r + (count + 1) ≤ n
      → Runs covered blank count (r + 1) r (end, stop)
      → IsExtra stop es
      → IsExtra r (text_seg r end ∷ es)
  unfolding text_seg
  add_run r count end stop es e b fits inside (lo, hi, free, most, last) x =
      let (le, lt, content) = ends_here blank r end stop last b (omega arith) in
      record {
        ordered =
            (omega arith, le, From-mono cfg stop (end + 1) (spans es) (omega arith) x.ordered);
        fits = (omega arith, x.fits);
        edges = ((b, content, omega arith), x.edges);
        free = (
          (
            le,
            λ i w. from_here (λ i. covered i ≡ false) r stop e free i (ground arith) (ground arith),
          ),
          x.free,
        );
        whole = λ i a k c d. elim (Bool-cases (leb i end)) [
          | inl in_run ↦ ground arith
          | inr behind ↦ elim (Bool-cases (ltb i stop)) [
            | inl early ↦
                absurd (let k : i ≤ end = most i (ground arith) (ground arith) d in ground arith)
            | inr late ↦ ground (arith, x.whole i)
          ]
        ];
      }

  nothing : (r : ℕ) → n ≤ r → IsExtra r []
  nothing r h = record {
    ordered = tt;
    fits = tt;
    edges = tt;
    free = tt;
    whole = λ i a b. absurd (omega arith);
  }

  pub extra_from-IsExtra :
      (fuel r : ℕ)
      → 0 < cfg.max_lines
      → n ≤ r + fuel
      → IsExtra r (extra_from cfg.max_lines n covered blank fuel r)
  unfolding extra_from
  extra_from-IsExtra zero r pos h = nothing r (omega arith)
  extra_from-IsExtra (suc fuel) r pos h = elim (Bool-cases (leb n r)) [
    | inl e ↦ rw e (nothing r (ground arith))
    | inr e ↦ elim (Bool-cases (covered r || blank r)) [
      | inl c ↦ rw (e, c) (pass_row r _ c (extra_from-IsExtra fuel (r + 1) pos (omega arith)))
      | inr c ↦
          let free : covered r ≡ false = ground arith in
          let content : blank r ≡ false = ground arith in
          let (count, eq, runs) =
            first_row-Runs covered blank (min (n - r) cfg.max_lines) r (ground arith) free
              content in
          let (end, stop) = run_end covered blank (min (n - r) cfg.max_lines) r r in
          rw (e, c)
            (add_run r count end stop _ free content (omega arith) (ground arith) runs
              (extra_from-IsExtra fuel stop pos (omega (arith, runs.0))))
    ]
  ]
