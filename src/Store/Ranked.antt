-- ===== src/Store/Ranked.antt =====
-- crates/laya-store/src/store.rs: the order of the chunks that match identifiers.
use laya_codex.Common.{
  ℕ, ◌<◌, ◌≡◌, refl, ◌⊎◌, Bool, true, false, List, [], ◌∷◌, arith, All, All-map, map, take,
}
use laya_codex.Common.Ordered.{text_ltb, after_text, after_text-IsWeakOrder}
use laya_codex.Common.Sort
use laya_codex.Store.Read.{Match, after_match, rank_matches}

pub after_match-IsWeakOrder : (by_first : Bool) → Sort.IsWeakOrder (after_match by_first)
unfolding after_match after_text
after_match-IsWeakOrder by_first = record {
  asym = λ x y h.
      ground
        (arith, h, after_text-IsWeakOrder.asym x.id y.id, after_text-IsWeakOrder.asym y.id x.id);
  neg_trans = λ x y z h k. ground (arith, h, k, after_text-IsWeakOrder.neg_trans x.id y.id z.id);
}

-- A match that counts for more stands first; with as many sets, where the first set counts, the one
-- with the earlier first; and then the one with the id that is not larger.
pub Before : Bool → Match → Match → Type 0
Before by_first a b =
    (b.count < a.count)
    ⊎ ((a.count ≡ b.count)
        × (((by_first ≡ true) × (a.first < b.first))
            ⊎ (((by_first ≡ false) ⊎ (a.first ≡ b.first)) × (text_ltb b.id a.id ≡ false))))

after_match-Before :
    (by_first : Bool) (a b : Match) → after_match by_first a b ≡ false → Before by_first a b
unfolding after_match Before
after_match-Before true a b h = ground arith
after_match-Before false a b h = ground arith

pub IsRanked : Bool → List Match → Type 0
IsRanked by_first [] = Unit
IsRanked by_first (m ∷ ms) = All (Before by_first m) ms × IsRanked by_first ms

IsSorted-IsRanked :
    (by_first : Bool) (ms : List Match)
    → Sort.IsSorted (after_match by_first) ms
    → IsRanked by_first ms
unfolding IsRanked
IsSorted-IsRanked by_first [] s = tt
IsSorted-IsRanked by_first (m ∷ ms) s =
    (All-map ms (after_match-Before by_first m) s.0, IsSorted-IsRanked by_first ms s.1)

-- The ids that are returned are those of so many matches in their order, the best ones.
pub rank_matches-IsRanked :
    (by_first : Bool) (matches : List Match) (limit : ℕ)
    → (out : List Match) × ((rank_matches matches by_first limit ≡ map (λ m. m.id) out)
        × ((out ≡ take limit (Sort.sort (after_match by_first) matches)) × IsRanked by_first out))
unfolding rank_matches
rank_matches-IsRanked by_first matches limit =
    let sorted = Sort.sort (after_match by_first) matches in
    let is_sorted =
      Sort.sort-IsSorted (after_match by_first) (after_match-IsWeakOrder by_first) matches in
    (
      take limit sorted,
      (
        refl,
        (
          refl,
          IsSorted-IsRanked by_first (take limit sorted)
              (Sort.take-IsSorted (after_match by_first) limit sorted is_sorted),
        ),
      ),
    )
