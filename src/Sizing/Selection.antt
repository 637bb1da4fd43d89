-- ===== src/Sizing/Selection.antt =====
-- What `size_context_opts` of crates/laya-rank/src/sizing.rs selects.
use laya_codex.Common.{◌-◌, ◌≤◌, ◌≡◌, true, false, ◌⊎◌, List, ◌++◌, any, length, All}
use laya_codex.Common.Repeats.{NoRepeats}
use laya_codex.Common.Text.{text_eq}
use laya_codex.Core.{RankedSpan, Related}
use laya_codex.Sizing.{
  SizeOpts, SpanKey, SizedContext, key_of, related_key, overlaps, sent_before, inlines, is_usage,
}

module _ {F : Type 0} where
  -- Files of which none is there twice.
  abbrev pub DistinctFiles : List (RankedSpan F) → Type 0
  DistinctFiles spans = NoRepeats (λ a b. text_eq a.path b.path) spans

  -- A line that shows a use, or a place that no span of the list overlaps.
  abbrev pub IsNews : List (RankedSpan F) → Related → Type 0
  IsNews covered r =
      (is_usage r ≡ true) ⊎ (any (λ s. overlaps (related_key r) (key_of s)) covered ≡ false)

  -- What an answer is sized to.
  pub record IsSized (opts : SizeOpts) (already : List SpanKey) (ctx : SizedContext F)
      : Type 0 where
    pub few_full : length ctx.full ≤ opts.caps.full_spans
    pub few_map : length ctx.map_only ≤ opts.caps.map_spans - length ctx.full
    pub distinct : DistinctFiles ctx.full
    pub full_new : All (λ s. (inlines opts s ≡ true) × (sent_before already s ≡ false)) ctx.full
    pub map_new : All (λ s. sent_before already s ≡ false) ctx.map_only
    pub sent : All (λ s. sent_before already s ≡ true) ctx.already
    pub related_new : All (IsNews (ctx.full ++ (ctx.map_only ++ ctx.already))) ctx.related
