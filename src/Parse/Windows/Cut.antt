-- ===== src/Parse/Windows/Cut.antt =====
-- The first loop of `chunk_text` (crates/laya-parse/src/text.rs): windows that hold every row with
-- content.
use laya_codex.Common.{
  ℕ, zero, suc, ◌+◌, ◌-◌, ◌≤◌, ◌<◌, ◌≡◌, refl, Bool, true, false, Option, none, some, List, [], ◌∷◌,
  arith, All, leb→le, max, ◌⊎◌, inl, inr, Bool-cases, leb,
}
use laya_codex.Parse.Chunking.{HasEdges}
use laya_codex.Parse.Config.{ChunkConfig, Span, covers, rows}
use laya_codex.Parse.Merging.{From}
use laya_codex.Parse.Rows.{skip_blank, trim_end, skip_blank-lem, trim_end-lem}
use laya_codex.Parse.Windows.{find_back, window_of, before_blank, window_end, cut}

module _ (blank : ℕ → Bool) where
  find_back-lem :
      (count b : ℕ)
      → (found : ℕ) → find_back blank count b ≡ some found
      → (found ≤ b) × (b < found + count)
  unfolding find_back
  find_back-lem zero b found e = cc
  find_back-lem (suc count) b found e = ground (arith, find_back-lem count (b - 1) found)

module _ (cfg : ChunkConfig) (n : ℕ) (blank : ℕ → Bool) where
  before_blank-lem :
      (s hard : ℕ) (found : Option ℕ)
      → s ≤ hard
      → ((b : ℕ) → found ≡ some b → (b ≤ hard + 1) × (s < b))
      → (s ≤ before_blank found hard) × (before_blank found hard ≤ hard)
  unfolding before_blank
  before_blank-lem s hard none l h = omega arith
  before_blank-lem s hard (some b) l h = omega (arith, h b refl)

  -- The window that starts in a row ends in a row, and is no longer than the window length.
  window_end-lem :
      (s : ℕ)
      → s < n
      → (s ≤ window_end cfg n blank s)
        × (window_end cfg n blank s < n)
        × (window_end cfg n blank s < s + window_of cfg)
  unfolding window_end
  window_end-lem s h =
      let hard : ℕ = s + window_of cfg - 1 in
      let lo : ℕ = s + max cfg.min_lines 1 in
      let pos : 0 < window_of cfg = omega arith in
      let (a, b) =
        before_blank-lem s hard (find_back blank (hard + 2 - lo) (hard + 1)) (omega arith)
          λ f e. omega (arith, find_back-lem blank (hard + 2 - lo) (hard + 1) f e) in
      elim (Bool-cases (leb (n - 1) hard)) [
        | inl e ↦ rw e (omega (arith, leb→le (n - 1) hard e))
        | inr e ↦ rw e (ground (arith))
      ]

  -- What the first loop promises from row `s` on.
  pub record IsCut (s : ℕ) (spans : List Span) : Type 0 where
    pub ordered : From cfg s spans
    pub short : All (λ x. rows x ≤ window_of cfg) spans
    pub edges : All (HasEdges n blank) spans
    pub whole : (r : ℕ) → s ≤ r → r < n → blank r ≡ false → covers spans r ≡ true

  nothing_left :
      (s start : ℕ) → n ≤ start → ((r : ℕ) → s ≤ r → r < start → blank r ≡ true) → IsCut s []
  nothing_left s start h b = record {
    ordered = tt;
    short = tt;
    edges = tt;
    whole = λ r x y e. cc (e, b r x (omega arith));
  }

  add_window :
      (s start end : ℕ) (spans : List Span)
      → s ≤ start
      → start ≤ end
      → end < n
      → end < start + window_of cfg
      → blank start ≡ false
      → blank end ≡ false
      → ((r : ℕ) → s ≤ r → r < start → blank r ≡ true)
      → IsCut (end + 1) spans
      → IsCut s (record { first = start; last = end } ∷ spans)
  add_window s start end spans a b c d e f skipped rest = record {
    ordered = (a, b, rest.ordered);
    short = (omega arith, rest.short);
    edges = ((e, f, c), rest.edges);
    whole = λ r x y content. ground (arith, skipped r x, rest.whole r);
  }

  edge_case :
      (start end hard : ℕ)
      → start ≤ hard
      → (blank end ≡ false) ⊎ (end + (hard - start) ≡ hard)
      → (blank end ≡ false) ⊎ (end ≡ start)
  edge_case start end hard h (inl e) = inl e
  edge_case start end hard h (inr e) = inr (omega arith)

  edge_of :
      (start end : ℕ)
      → blank start ≡ false
      → (blank end ≡ false) ⊎ (end ≡ start)
      → blank end ≡ false
  edge_of start end h (inl e) = e
  edge_of start end h (inr e) = rw e h

  -- From any row, enough fuel cuts windows.
  pub cut-IsCut :
      (fuel s : ℕ)
      → s ≤ n
      → n < s + fuel
      → (spans : List Span) × (cut cfg n blank fuel s ≡ some spans) × IsCut s spans
  unfolding cut
  cut-IsCut zero s b h = absurd (omega arith)
  cut-IsCut (suc fuel) s b h =
      let start = skip_blank blank (n - s) s in
      let (lo, hi, content, skipped) = skip_blank-lem blank (n - s) s in
      elim (Bool-cases (leb n start)) [
        | inl e ↦ rw e ([], refl, nothing_left s start (leb→le n start e) skipped)
        | inr e ↦
            let in_file : start < n = ground arith in
            let hard = window_end cfg n blank start in
            let (a, c, d) = window_end-lem start in_file in
            let end = trim_end blank (hard - start) hard in
            let (p, q, edge) = trim_end-lem blank (hard - start) hard (omega arith) in
            let at_start = λ (x : (blank end ≡ false) ⊎ (end + (hard - start) ≡ hard)).
              edge_case start end hard a x in
            let here : blank start ≡ false = content (omega arith) in
            let last : blank end ≡ false = edge_of start end here (at_start edge) in
            let (spans, eq, rest) = cut-IsCut fuel (end + 1) (omega arith) (omega arith) in
            rw (e, eq)
              (
                _,
                refl,
                add_window s start end spans lo (omega arith) (omega arith) (omega arith) here last
                    skipped rest,
              )
      ]
