-- ===== src/Parse/Windows.antt =====
-- crates/laya-parse/src/text.rs: line windows, the fallback for text files and unparsed sources.
mod Cut
pub mod Merge
use laya_codex.Common.{
  rev_onto, ℕ, zero, suc, ◌+◌, ◌-◌, ◌%◌, ◌^◌, ◌*◌, min, max, Bool, true, false, ◌&&◌, ◌||◌, Option,
  none, some, List, [], ◌∷◌, ◌++◌, arith, leb, ltb, ◌==◌, if◌then◌else◌, length, map,
}
use mathlib.Core.Option
use laya_codex.Common.Options.{◌>>=◌}
use laya_codex.Common.Text.{
  Text, codes, trim, trim_start, trim_start_by, starts_with, ends_with, to_ascii_lowercase,
}
use laya_codex.Core.{Chunk, Lang}
use laya_codex.Parse.Config.{ChunkConfig, Span}
use laya_codex.Parse.Rows.{skip_blank, trim_end}
use laya_codex.Parse.Lines
use laya_codex.Parse.Lines.{Lines}

-- `(lo..=b).rev().find(is_blank)`, over `count` rows that end in `b`.
find_back : (ℕ → Bool) → ℕ → ℕ → Option ℕ
find_back blank zero b = none
find_back blank (suc count) b =
    let rest = find_back blank count (b - 1) in if blank b then some b else rest

unfoldable pub window_of : ChunkConfig → ℕ
window_of cfg = max (min cfg.text_window_lines cfg.max_lines) 1

before_blank : Option ℕ → ℕ → ℕ
before_blank none hard_end = hard_end
before_blank (some b) hard_end = b - 1

-- Where the window that starts in row `s` ends.
window_end : ChunkConfig → ℕ → (ℕ → Bool) → ℕ → ℕ
unfolding window_of find_back before_blank
window_end cfg n blank s =
    let hard_end = s + window_of cfg - 1 in
    let lo = s + max cfg.min_lines 1 in
    if leb (n - 1) hard_end
    then n - 1
    else before_blank (find_back blank (hard_end + 2 - lo) (hard_end + 1)) hard_end

-- The first loop of `chunk_text` from row `s`; `none` is fuel run out.
pub cut : ChunkConfig → ℕ → (ℕ → Bool) → ℕ → ℕ → Option (List Span)
unfolding skip_blank window_end trim_end
cut cfg n blank zero s = none
cut cfg n blank (suc fuel) s =
    let start = skip_blank blank (n - s) s in
    let hard = window_end cfg n blank start in
    let end = trim_end blank (hard - start) hard in
    let rest = cut cfg n blank fuel (end + 1) in
    if leb n start then some [] else elim rest [
      | none ↦ none
      | some spans ↦ some (record { first = start; last = end } ∷ spans)
    ]

-- The second loop: one round with `x` at the cursor, the spans before it, the nearest first, and the
-- spans behind it.
join_ahead : ChunkConfig → List Span → Span → List Span → List Span × List Span
join_ahead cfg done x [] = (x ∷ done, [])
join_ahead cfg done x (y ∷ todo) =
    if ltb (y.last - x.first) cfg.max_lines
    then (done, record { first = x.first; last = y.last } ∷ todo)
    else (x ∷ done, y ∷ todo)

join_back : ChunkConfig → List Span → Span → List Span → List Span × List Span
unfolding join_ahead
join_back cfg [] x todo = join_ahead cfg [] x todo
join_back cfg (p ∷ done) x todo =
    if ltb (x.last - p.first) cfg.max_lines
    then (done, record { first = p.first; last = x.last } ∷ todo)
    else join_ahead cfg (p ∷ done) x todo

merge_round : ChunkConfig → List Span → Span → List Span → List Span × List Span
unfolding join_back
merge_round cfg done x todo =
    if leb cfg.min_lines (x.last - x.first + 1) then (x ∷ done, todo) else join_back cfg done x todo

-- `none` is fuel run out.
pub merge : ChunkConfig → ℕ → List Span → List Span → Option (List Span)
unfolding merge_round
merge cfg zero done todo = none
merge cfg (suc fuel) done [] = some (rev_onto done [])
merge cfg (suc fuel) done (x ∷ todo) =
    let (done', todo') = merge_round cfg done x todo in merge cfg fuel done' todo'

-- Both loops, on `n` rows.
unfoldable pub spans_of : ChunkConfig → ℕ → (ℕ → Bool) → Option (List Span)
unfolding cut merge
spans_of cfg n blank = do
  spans ← cut cfg n blank (n + 1) 0
  merge cfg (2 * length spans + 1) [] spans

count_hashes : Text → ℕ
count_hashes [] = 0
count_hashes (c ∷ t) = let rest = count_hashes t in if c == b'#' then rest + 1 else 0

-- `heading`: the text of a Markdown heading of level 1 to 6.
heading : Text → Option Text
unfolding count_hashes trim_start trim starts_with
heading line =
    let t = trim_start line in
    let rest = trim_start_by (λ c. c == b'#') t in
    let level = count_hashes t in
    if leb 1 level && leb level 6 && starts_with (b' ' ∷ []) rest then some (trim rest) else none

pub is_markdown : Text → Bool
unfolding to_ascii_lowercase ends_with
is_markdown path =
    let p = to_ascii_lowercase path in
    ends_with (codes ".md") p || ends_with (codes ".markdown") p || ends_with (codes ".mdx") p

-- `while scanned <= s`, over the `count` rows from `scanned` on.
pub scan_headings : Lines → ℕ → ℕ → Text → Text
unfolding heading
scan_headings l scanned zero current = current
scan_headings l scanned (suc count) current =
    scan_headings l (scanned + 1) count
      (elim (heading (Lines.row l scanned)) [ none ↦ current | some h ↦ h ])

unfoldable pub chunks_from : Text → Lines → Bool → ℕ → Text → List Span → List Chunk
unfolding scan_headings
chunks_from path l markdown scanned current [] = []
chunks_from path l markdown scanned current (x ∷ spans) =
    let symbol =
      if markdown then scan_headings l scanned (x.first + 1 - scanned) current else current in
    let scanned' = if markdown then max scanned (x.first + 1) else scanned in
    record {
      path = path;
      start_line = (x.first + 1) % 2 ^ 32;
      end_line = (x.last + 1) % 2 ^ 32;
      lang = Lang.text;
      symbol = symbol;
      kind = codes "window";
      defines = [];
      refs = [];
      text = Lines.text l x.first x.last;
    }
    ∷ chunks_from path l markdown scanned' symbol spans

unfoldable pub chunk_text : ChunkConfig → Text → Lines → Option (List Chunk)
unfolding chunks_from is_markdown
chunk_text cfg path l =
    Option.map (chunks_from path l (is_markdown path) 0 [])
      (spans_of cfg (Lines.len l) (Lines.is_blank l))
