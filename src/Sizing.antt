-- ===== src/Sizing.antt =====
-- crates/laya-rank/src/sizing.rs: which spans of an answer are sent with their code, which only as
-- locations, and which were sent before. A candidate is carried with its rank, which the source uses
-- as an index.
mod Selection
mod Tests
use laya_codex.Common.{
  ℕ, suc, zero, ◌+◌, ◌-◌, min, Bool, true, false, not, ◌&&◌, ◌||◌, Option, none, some, List, [],
  ◌∷◌, ◌++◌, leb, ltb, ◌==◌, if◌then◌else◌, any, take, keep_if, length, map,
}
use mathlib.Core.List.{reverse}
use laya_codex.Common.Text.{Text, text_eq, codes, starts_with, to_ascii_lowercase, split_on}
use laya_codex.Core.{QueryResult, RankedSpan, Related}

pub record SizingCaps : Type 0 where
  pub map_spans : ℕ
  pub full_spans : ℕ
  pub related : ℕ

-- `SizingCaps::min`
unfoldable pub min_caps : SizingCaps → SizingCaps → SizingCaps
min_caps a b = record {
  map_spans = min a.map_spans b.map_spans;
  full_spans = min a.full_spans b.full_spans;
  related = min a.related b.related;
}

-- `FollowUpIntent` of src/signals.rs.
pub record FollowUpIntent : Type 0 where
  pub tests : Bool
  pub callers : Bool

unfoldable pub follow_up_caps : FollowUpIntent → SizingCaps
follow_up_caps intent = record {
  map_spans = 6;
  full_spans = if intent.tests || intent.callers then 0 else 1;
  related = 8;
}

pub record SizeOpts : Type 0 where
  pub caps : SizingCaps
  pub inline_prose : Bool

abbrev prose_ext : List Text
prose_ext = map codes ("md" ∷ "markdown" ∷ "mdx" ∷ "rst" ∷ "adoc" ∷ "org" ∷ [])

abbrev prose_names : List Text
prose_names = map codes (
    "readme" ∷ "changelog" ∷ "changes" ∷ "history" ∷ "license" ∷ "copying" ∷ "authors"
    ∷ "contributing" ∷ "notice" ∷ [])

last_piece : Text → List Text → Text
last_piece t [] = t
last_piece t (u ∷ us) = last_piece u us

-- The name, or the part behind its last dot.
prose_pieces : List Text → Bool
unfolding last_piece text_eq
prose_pieces [] = false
prose_pieces (t ∷ []) = any (text_eq t) prose_names
prose_pieces (t ∷ u ∷ us) = any (text_eq (last_piece u us)) prose_ext

unfoldable pub is_prose_path : Text → Bool
unfolding split_on to_ascii_lowercase prose_pieces last_piece
is_prose_path path =
    prose_pieces (split_on b'.' (to_ascii_lowercase (last_piece path (split_on b'/' path))))

abbrev pub default_caps : SizingCaps
default_caps = record { map_spans = 10; full_spans = 2; related = 8 }

pub record SpanKey : Type 0 where
  pub path : Text
  pub start_line : ℕ
  pub end_line : ℕ

unfoldable pub overlaps : SpanKey → SpanKey → Bool
unfolding text_eq
overlaps a b = text_eq a.path b.path && leb a.start_line b.end_line && leb b.start_line a.end_line

abbrev pub related_key : Related → SpanKey
related_key r = record { path = r.path; start_line = r.start_line; end_line = r.end_line }

unfoldable pub same_key : SpanKey → SpanKey → Bool
unfolding text_eq
same_key a b = text_eq a.path b.path && a.start_line == b.start_line && a.end_line == b.end_line

pub record SizedContext (F : Type 0) : Type 0 where
  pub full : List (RankedSpan F)
  pub map_only : List (RankedSpan F)
  pub related : List Related
  pub already : List (RankedSpan F)
  pub verified_current : Bool

-- A candidate and its index.
pub record Candidate (F : Type 0) : Type 0 where
  pub rank : ℕ
  pub span : RankedSpan F

-- `is_usage` of src/render.rs.
unfoldable pub is_usage : Related → Bool
unfolding starts_with
is_usage r =
    r.start_line == r.end_line
    && (starts_with (codes "definition of `") r.relation
        || starts_with (codes "use of `") r.relation)

-- The filter by `seen.insert`.
pub dedup : List SpanKey → List Related → List Related
unfolding same_key
dedup seen [] = []
dedup seen (r ∷ rs) =
    let first = dedup (related_key r ∷ seen) rs in
    let again = dedup seen rs in if any (same_key (related_key r)) seen then again else r ∷ first

module _ {F : Type 0} where
  -- `SpanKey::of`
  abbrev pub key_of : RankedSpan F → SpanKey
  key_of s = record { path = s.path; start_line = s.start_line; end_line = s.end_line }

  candidates_from : ℕ → List (RankedSpan F) → List (Candidate F)
  candidates_from i [] = []
  candidates_from i (s ∷ spans) = record { rank = i; span = s } ∷ candidates_from (i + 1) spans

  abbrev pub same_file : (Candidate F) → (Candidate F) → Bool
  same_file a b = text_eq a.span.path b.span.path

  abbrev pub same_rank : (Candidate F) → (Candidate F) → Bool
  same_rank a b = a.rank == b.rank

  -- The loop of `distinct_files`.
  pub distinct_from : ℕ → List (Candidate F) → List (Candidate F) → List (Candidate F)
  distinct_from k out [] = out
  distinct_from k out (c ∷ cs) =
      let same = distinct_from k out cs in
      let more = distinct_from k (out ++ c ∷ []) cs in
      if length out == k then out else if any (same_file c) out then same else more

  unfoldable pub select_by_rank :
      SizingCaps
      → (RankedSpan F → Bool)
      → List (Candidate F)
      → List (Candidate F) × List (Candidate F)
  unfolding distinct_from
  select_by_rank caps inlinable cs =
      let full = distinct_from caps.full_spans [] (keep_if (λ c. inlinable c.span) cs) in
      (full, take (caps.map_spans - length full) (keep_if (λ c. not (any (same_rank c) full)) cs))

  pub sent_before : List SpanKey → RankedSpan F → Bool
  unfolding overlaps
  sent_before already s = any (overlaps (key_of s)) already

  pub inlines : SizeOpts → RankedSpan F → Bool
  unfolding is_prose_path
  inlines opts s = opts.inline_prose || not (is_prose_path s.path)

  abbrev pub span_of : (Candidate F) → RankedSpan F
  span_of c = c.span

  unfoldable pub select_related : ℕ → List (RankedSpan F) → List Related → List Related
  unfolding dedup overlaps is_usage
  select_related most covered related =
      take most (
        dedup [] (
          keep_if (λ r. not (any (λ s. overlaps (related_key r) (key_of s)) covered))
            (keep_if (λ r. not (is_usage r)) related)))
      ++ keep_if is_usage related

  unfoldable pub size_context_opts : QueryResult F → SizeOpts → List SpanKey → SizedContext F
  unfolding candidates_from select_by_rank sent_before inlines select_related
  size_context_opts result opts already =
      let spans = keep_if (λ s. not (sent_before already s)) result.spans in
      let before = keep_if (sent_before already) result.spans in
      let (full, map_only) = select_by_rank opts.caps (inlines opts) (candidates_from 0 spans) in
      record {
        full = map span_of full;
        map_only = map span_of map_only;
        related =
            select_related opts.caps.related (map span_of full ++ (map span_of map_only ++ before))
              result.related;
        already = before;
        verified_current = false;
      }
