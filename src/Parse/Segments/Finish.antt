-- ===== src/Parse/Segments/Finish.antt =====
-- `finish` and `merge_small` of crates/laya-parse/src/cast.rs, on `n` rows.
mod Extra
mod Trimmed
mod Sorted
mod Small
pub mod Outcome
use laya_codex.Common.{
  ◌/◌, max, ◌==◌, ℕ, zero, suc, ◌+◌, ◌-◌, ◌*◌, min, Bool, true, false, not, ◌&&◌, ◌||◌, Option,
  none, some, List, [], ◌∷◌, ◌++◌, leb, ltb, if◌then◌else◌, length, map, rev_onto,
}
use laya_codex.Common.Sort
use laya_codex.Common.Text.{codes}
use laya_codex.Parse.Config.{ChunkConfig, Span, covers}
use laya_codex.Parse.Rows.{skip_blank, trim_end}
use laya_codex.Parse.Segments.Walk.{segment}
use laya_codex.Parse.Tree.{Node}
use laya_codex.Parse.Segments.{Affinity, either, back, fwd, Seg, seg_rows, absorb, Limits}

abbrev pub span_of : Seg → Span
span_of s = record { first = s.start; last = s.end }

abbrev pub spans : List Seg → List Span
spans = map span_of

-- The closure of `retain_mut`: the segment without its blank edges, if anything is left.
unfoldable pub trim_seg : ℕ → (ℕ → Bool) → Seg → Option Seg
unfolding skip_blank trim_end
trim_seg n blank s =
    let last = min s.end (n - 1) in
    let start = skip_blank blank (last + 1 - s.start) s.start in
    let end = trim_end blank (last - start) last in
    if leb start end && not (blank start)
    then some (record s { start = start; end = end })
    else none

add_trimmed : Option Seg → List Seg → List Seg
add_trimmed none rest = rest
add_trimmed (some s) rest = s ∷ rest

unfoldable pub trim_all : ℕ → (ℕ → Bool) → List Seg → List Seg
unfolding trim_seg add_trimmed
trim_all n blank [] = []
trim_all n blank (s ∷ segs) = add_trimmed (trim_seg n blank s) (trim_all n blank segs)

-- The inner loop over stray rows: from row `r`, at most `count` rows; the last row with content, and
-- the row at which it stops.
pub run_end : (ℕ → Bool) → (ℕ → Bool) → ℕ → ℕ → ℕ → ℕ × ℕ
run_end covered blank zero r end = (end, r)
run_end covered blank (suc count) r end =
    let rest = run_end covered blank count (r + 1) (if blank r then end else r) in
    if covered r then (end, r) else rest

pub text_seg : ℕ → ℕ → Seg
text_seg start end = record {
  start = start;
  end = end;
  kind = codes "text";
  weight = end - start + 1;
  affinity = either;
}

-- The outer loop from row `r`; each round passes a row at least, so `n - r` rounds are enough.
pub extra_from : ℕ → ℕ → (ℕ → Bool) → (ℕ → Bool) → ℕ → ℕ → List Seg
unfolding run_end text_seg
extra_from max n covered blank zero r = []
extra_from max n covered blank (suc fuel) r =
    let next = extra_from max n covered blank fuel (r + 1) in
    let (end, stop) = run_end covered blank (min (n - r) max) r r in
    let rest = text_seg r end ∷ extra_from max n covered blank fuel stop in
    if leb n r then [] else if covered r || blank r then next else rest

abbrev pub after_start : Seg → Seg → Bool
after_start a b = ltb b.start a.start

unfoldable pub with_extra : List Seg → List Seg → List Seg
with_extra segs [] = segs
with_extra segs (x ∷ extra) = Sort.sort after_start (segs ++ x ∷ extra)

-- Stray rows get segments of their own.
unfoldable pub add_extra : ChunkConfig → ℕ → (ℕ → Bool) → List Seg → List Seg
unfolding extra_from with_extra
add_extra cfg n blank segs =
    with_extra segs (extra_from cfg.max_lines n (covers (spans segs)) blank n 0)

-- Which neighbour takes an undersized segment; `none` is neither.
unfoldable pub go_back : Option ℕ → Option ℕ → Affinity → Option Bool
go_back none none a = none
go_back (some b) none a = some true
go_back none (some f) a = some false
go_back (some b) (some f) back = some true
go_back (some b) (some f) fwd = some false
go_back (some b) (some f) either = some (leb b f)

fitting : ℕ → ℕ → Option ℕ
fitting max m = if leb m max then some m else none

back_rows : ℕ → List Seg → Seg → Option ℕ
unfolding fitting
back_rows max [] x = none
back_rows max (p ∷ done) x = fitting max (x.end - p.start + 1)

ahead_rows : ℕ → Seg → List Seg → Option ℕ
unfolding fitting
ahead_rows max x [] = none
ahead_rows max x (y ∷ todo) = fitting max (y.end - x.start + 1)

join_back : List Seg → Seg → List Seg → List Seg × List Seg
unfolding absorb
join_back [] x todo = (x ∷ [], todo)
join_back (p ∷ done) x todo = (done, absorb p x ∷ todo)

join_ahead : List Seg → Seg → List Seg → List Seg × List Seg
unfolding absorb
join_ahead done x [] = (x ∷ done, [])
join_ahead done x (y ∷ todo) = (done, absorb y x ∷ todo)

join_to : Option Bool → List Seg → Seg → List Seg → List Seg × List Seg
unfolding join_back join_ahead
join_to none done x todo = (x ∷ done, todo)
join_to (some true) done x todo = join_back done x todo
join_to (some false) done x todo = join_ahead done x todo

-- One round of `merge_small` with `x` at the cursor.
pub small_round : ChunkConfig → List Seg → Seg → List Seg → List Seg × List Seg
unfolding go_back back_rows ahead_rows join_to
small_round cfg done x todo =
    let to_back =
      go_back (back_rows cfg.max_lines done x) (ahead_rows cfg.max_lines x todo) x.affinity in
    if leb cfg.min_lines (seg_rows x) then (x ∷ done, todo) else join_to to_back done x todo

-- `none` is fuel run out.
pub merge_small : ChunkConfig → ℕ → List Seg → List Seg → Option (List Seg)
unfolding small_round
merge_small cfg zero done todo = none
merge_small cfg (suc fuel) done [] = some (rev_onto done [])
merge_small cfg (suc fuel) done (x ∷ todo) =
    let (done', todo') = small_round cfg done x todo in merge_small cfg fuel done' todo'

unfoldable pub finish : ChunkConfig → ℕ → (ℕ → Bool) → List Seg → Option (List Seg)
unfolding trim_all add_extra merge_small
finish cfg n blank segs =
    let all = add_extra cfg n blank (trim_all n blank segs) in
    merge_small cfg (2 * length all + 1) [] all

-- The segments of `chunk_tree`, which it turns into chunks.
unfoldable pub chunk_segs : ChunkConfig → ℕ → (ℕ → Bool) → Node → Option (List Seg)
unfolding segment finish
chunk_segs cfg n blank root =
    let limits : Limits = record {
      max = cfg.max_lines;
      header_max = max (cfg.max_lines / 4) 1;
      rows = n;
    } in
    if n == 0 then some [] else finish cfg n blank (rev_onto (segment limits root) [])
