-- ===== src/Related.antt =====
-- crates/laya-rank/src/related.rs: the places one reference away from the best spans. A store is what
-- its lookups answer for the repository, `none` being an error, which ends the expansion; `id` is
-- `Chunk::id`. A hash map is a list with a new entry first.
pub mod Expand
pub mod Merged
pub mod Covered
pub mod Pointers
pub mod Usages
mod Claims
mod Tests
use laya_codex.Common.{
  ℕ, zero, suc, ◌+◌, Bool, true, false, not, ◌&&◌, ◌||◌, Option, none, some, List, [], ◌∷◌, ◌++◌,
  leb, ltb, ◌==◌, if◌then◌else◌, length, take, any, keep_if, map, flatten, max,
}
use laya_codex.Common.Options.{◌>>=◌}
use laya_codex.Common.Decimal.{decimal}
use laya_codex.Common.Text.{Text, text_eq, codes, has}
use laya_codex.Core.{Chunk, RankedSpan, Related}

abbrev pub caller_limit : ℕ
caller_limit = 4

abbrev pub ambiguous_above : ℕ
ambiguous_above = 3

abbrev pub per_seed_idents : ℕ
per_seed_idents = 6

abbrev pub per_seed_defines : ℕ
per_seed_defines = 4

abbrev pub max_per_file : ℕ
max_per_file = 2

-- The lookups of `Store`, for one repository.
pub record Lookups : Type 0 where
  pub chunks_defining : List Text → ℕ → Option (List Text)
  pub chunks_referencing : List Text → ℕ → Option (List Text)
  pub get_chunks : List Text → Option (List Chunk)

unfoldable pub place_overlaps : Related → ℕ → ℕ → Text → Bool
unfolding text_eq
place_overlaps r other_start other_end other_path =
    text_eq r.path other_path && leb r.start_line other_end && leb other_start r.end_line

pub interleave : List Related → List Related → List Related
interleave [] callers = callers
interleave callees [] = callees
interleave (c ∷ callees) (d ∷ callers) = c ∷ d ∷ interleave callees callers

-- How many places of a path were taken.
abbrev pub PerFile : Type 0
PerFile = List (Text × ℕ)

unfoldable pub taken_of : Text → PerFile → ℕ
unfolding text_eq
taken_of path [] = 0
taken_of path (entry ∷ per_file) =
    let rest = taken_of path per_file in if text_eq entry.0 path then entry.1 else rest

-- The places accepted so far, and the counts by path.
pub record Accepted : Type 0 where
  pub out : List Related
  pub per_file : PerFile

unfoldable pub overlaps_place : Related → Related → Bool
unfolding place_overlaps
overlaps_place r o = place_overlaps r o.start_line o.end_line o.path

module _ {F : Type 0} (existing : List (RankedSpan F)) where
  unfoldable pub overlaps_existing : Related → Bool
  unfolding place_overlaps
  overlaps_existing r = any (λ s. place_overlaps r s.start_line s.end_line s.path) existing

  -- One round of the loop of `merge`, short of the cap on the total.
  unfoldable pub accept : Accepted → Related → Accepted
  unfolding overlaps_existing overlaps_place taken_of
  accept a r =
      let taken : ℕ = taken_of r.path a.per_file in
      if overlaps_existing r || any (overlaps_place r) a.out || leb max_per_file taken
      then a
      else record { out = a.out ++ r ∷ []; per_file = (r.path, taken + 1) ∷ a.per_file }

  unfoldable pub merge_places : ℕ → Accepted → List Related → Accepted
  unfolding accept
  merge_places max_related a [] = a
  merge_places max_related a (r ∷ rs) =
      let rest = merge_places max_related (accept a r) rs in
      if leb max_related (length a.out) then a else rest

  unfoldable pub merge_related : List Related → List Related → ℕ → List Related
  unfolding merge_places interleave
  merge_related callees callers max_related =
      (merge_places max_related (record { out = []; per_file = [] })
        (interleave callees callers)).out
