-- ===== src/Sizing/Tests.antt =====
-- A run of the sizing of crates/laya-rank/src/sizing.rs.
use laya_codex.Common.{ℕ, ◌≡◌, refl, false, ◌+◌, none, List, [], ◌∷◌, map}
use laya_codex.Common.Text.{Text, codes}
use laya_codex.Core.{QueryResult, RankedSpan, lexical}
use laya_codex.Sizing.{SizeOpts, SpanKey, default_caps, size_context_opts}

abbrev span : Text → ℕ → RankedSpan ℕ
span path start = record {
  path = path;
  start_line = start;
  end_line = start + 9;
  symbol = [];
  p_relevant = none;
  score = 1;
  text = [];
}

abbrev five_spans : QueryResult ℕ
five_spans = record {
  spans =
      span (codes "README.md") 1
      ∷ span (codes "a.rs") 1
      ∷ span (codes "a.rs") 30
      ∷ span (codes "b.rs") 1
      ∷ span (codes "c.rs") 1
      ∷ [];
  mode = lexical;
  elapsed_ms = 1;
  candidates = 5;
  scored = 0;
  offered = 0;
  related =
      record {
        path = codes "b.rs";
        start_line = 5;
        end_line = 5;
        symbol = [];
        relation = codes "calls `f` (#1)";
      }
      ∷ [];
}

abbrev no_prose : SizeOpts
no_prose = record { caps = default_caps; inline_prose = false }

abbrev sent_b : List SpanKey
sent_b = record { path = codes "b.rs"; start_line = 4; end_line = 4 } ∷ []

five_spans-sized :
    map (λ s. s.path) (size_context_opts five_spans no_prose sent_b).full
    ≡ codes "a.rs" ∷ codes "c.rs" ∷ []
unfolding size_context_opts
five_spans-sized = refl
