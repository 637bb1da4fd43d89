-- ===== src/Query/Selected.antt =====
-- What `select_terms` of crates/laya-store/src/query.rs chooses.
use laya_codex.Common.{
  ℕ, suc, ◌+◌, ◌*◌, ◌≤◌, ◌<◌, ◌≡◌, refl, ap, min, Option, none, some, ◌||◌, ◌⊎◌, inl, inr, List, [],
  ◌∷◌, arith, leb, ltb, take, length, map, All, Bool-cases,
}
use laya_codex.Common.Sort
use laya_codex.Common.Sort.{IsWeakOrder, IsSorted, sort-IsSorted, All-sort}
use laya_codex.Common.Text.{Text}
use laya_codex.Query.{Known, known_of, after_df, cost_with, choose, select_terms, max_u64}

-- What the search of some terms costs: the sum of the squares of their document frequencies.
abbrev pub total_cost : List Known → ℕ
total_cost [] = 0
total_cost (k ∷ known) = k.df * k.df + total_cost known

abbrev pub known_term : Known → Text
known_term k = k.term

-- From `count` terms at `cost` on, `n` more are chosen, the first ones: they fit, and one more would
-- be too many or cost too much.
pub record IsChoice (max_terms budget count cost : ℕ) (known : List Known) (out : List Text)
    : Type 0 where
  pub n : ℕ
  pub first : out ≡ map known_term (take n known)
  pub within : n ≤ length known
  pub few : count + n ≤ max_terms
  pub cheap : cost + total_cost (take n known) ≤ budget
  pub greedy :
      (n ≡ length known)
      ⊎ ((max_terms ≤ count + n) ⊎ (budget < cost + total_cost (take (suc n) known)))

saturated-lem :
    (budget cost s : ℕ)
    → budget < max_u64
    → (min (cost + min s max_u64) max_u64 ≤ budget → min (cost + min s max_u64) max_u64 ≡ cost + s)
      × (budget < min (cost + min s max_u64) max_u64 → budget < cost + s)
saturated-lem budget cost s h = (λ k. omega arith, λ k. omega arith)

cost_with-lem :
    (budget cost d : ℕ)
    → budget < max_u64
    → (cost_with cost d ≤ budget → cost_with cost d ≡ cost + d * d)
      × (budget < cost_with cost d → budget < cost + d * d)
unfolding cost_with
cost_with-lem budget cost d h = saturated-lem budget cost (d * d) h

module _ (max_terms budget : ℕ) (small : budget < max_u64) where
  choose-IsChoice :
      (count cost : ℕ) (known : List Known)
      → count ≤ max_terms
      → cost ≤ budget
      → IsChoice max_terms budget count cost known (choose max_terms budget count cost known)
  unfolding choose
  choose-IsChoice count cost [] h k = record {
    n = 0;
    first = refl;
    within = omega arith;
    few = omega arith;
    cheap = omega arith;
    greedy = inl refl;
  }
  choose-IsChoice count cost (x ∷ known) h k =
      elim (Bool-cases (leb max_terms count || ltb budget (cost_with cost x.df))) [
        | inl stop ↦ rw stop (record {
          n = 0;
          first = refl;
          within = omega arith;
          few = omega arith;
          cheap = omega arith;
          greedy = inr (elim (Bool-cases (leb max_terms count)) [
            | inl full ↦ inl (ground arith)
            | inr room ↦
                inr (
                  let more = (cost_with-lem budget cost x.df small).1 (ground arith) in omega arith)
          ]);
        })
        | inr go ↦
            let sum = (cost_with-lem budget cost x.df small).0 (ground arith) in
            let c =
              choose-IsChoice (count + 1) (cost_with cost x.df) known (ground arith)
                (ground arith) in
            let within = c.within in
            let few = c.few in
            let cheap = c.cheap in
            rw go (record {
              n = suc c.n;
              first = ap (λ ts. x.term ∷ ts) c.first;
              within = omega arith;
              few = omega arith;
              cheap = omega arith;
              greedy = elim c.greedy [
                | inl all ↦ inl (omega arith)
                | inr (inl full) ↦ inr (inl (omega arith))
                | inr (inr over) ↦ inr (inr (omega arith))
              ];
            })
      ]

known_of-positive :
    (terms : List Text) (df : List (Option ℕ)) → All (λ k. 0 < k.df) (known_of terms df)
unfolding known_of
known_of-positive [] df = tt
known_of-positive (t ∷ terms) [] = tt
known_of-positive (t ∷ terms) (none ∷ df) = known_of-positive terms df
known_of-positive (t ∷ terms) (some d ∷ df) = elim (Bool-cases (ltb 0 d)) [
  | inl e ↦ rw e (ground arith, known_of-positive terms df)
  | inr e ↦ rw e (known_of-positive terms df)
]

after_df-IsWeakOrder : IsWeakOrder after_df
after_df-IsWeakOrder = record {
  asym = λ x y h. ground arith;
  neg_trans = λ x y z h k. ground arith;
}

-- With a budget below the largest `u64`, whatever the terms and their document frequencies: the
-- terms that some document has, sorted so that a rarer one comes first, are cut after the longest
-- prefix of at most `max_terms` terms whose squared frequencies sum to at most the budget.
pub select_terms-IsChoice :
    (terms : List Text) (df : List (Option ℕ)) (max_terms budget : ℕ)
    → budget < max_u64
    → let known = Sort.sort after_df (known_of terms df) in
      IsSorted after_df known
      × All (λ k. 0 < k.df) known
      × IsChoice max_terms budget 0 0 known (select_terms terms df max_terms budget)
unfolding select_terms Sort.sort
select_terms-IsChoice terms df max_terms budget small = (
  sort-IsSorted after_df after_df-IsWeakOrder (known_of terms df),
  All-sort after_df (λ k. 0 < k.df) (known_of terms df) (known_of-positive terms df),
  choose-IsChoice max_terms budget small 0 0 (Sort.sort after_df (known_of terms df)) (omega arith)
      (omega arith),
)

-- Of no terms none is chosen.
pub select_terms-nil :
    (df : List (Option ℕ)) (max_terms budget : ℕ) → select_terms [] df max_terms budget ≡ []
unfolding select_terms Sort.sort
select_terms-nil df max_terms budget = refl
