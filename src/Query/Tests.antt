-- ===== src/Query/Tests.antt =====
-- Runs of the term selection of crates/laya-store/src/query.rs.
use laya_codex.Common.{
  ℕ, ◌≤◌, ◌<◌, ◌≡◌, refl, true, Option, none, some, List, [], ◌∷◌, arith, any, length, map, All,
}
use laya_codex.Common.Sort
use laya_codex.Common.Sort.{IsSorted}
use laya_codex.Common.Repeats.{NoRepeats}
use laya_codex.Common.Text.{Text, text_eq, codes, to_ascii_lowercase}
use laya_codex.Query.{is_term, gather, prepare_terms, known_of, after_df, select_terms}
use laya_codex.Query.Prepared.{IsTerm, prepare_terms-IsTerm}
use laya_codex.Query.Selected.{IsChoice, select_terms-IsChoice}

abbrev queried : List Text
queried =
    codes "Parse" ∷ codes "parse" ∷ codes "a" ∷ codes "@x" ∷ codes "foo-bar" ∷ codes "ok_1" ∷ []

abbrev four_terms : List Text
four_terms = codes "common" ∷ codes "rare" ∷ codes "absent" ∷ codes "mid" ∷ []

abbrev four_df : List (Option ℕ)
four_df = some 900 ∷ some 3 ∷ none ∷ some 40 ∷ []

queried-prepared : prepare_terms queried 24 ≡ codes "parse" ∷ codes "ok_1" ∷ []
unfolding prepare_terms
queried-prepared = refl

longest-prepared :
    prepare_terms (map codes ("id" ∷ "configuration" ∷ "fn" ∷ "loader" ∷ "xy" ∷ [])) 3
    ≡ codes "id" ∷ codes "configuration" ∷ codes "loader" ∷ []
unfolding prepare_terms Sort.sort
longest-prepared = refl

four-selected : select_terms four_terms four_df 8 100000 ≡ codes "rare" ∷ codes "mid" ∷ []
unfolding select_terms Sort.sort
four-selected = refl

select_terms-IsChoice_example :
    let known = Sort.sort after_df (known_of four_terms four_df) in
    IsSorted after_df known
    × All (λ k. 0 < k.df) known
    × IsChoice 8 100000 0 0 known (select_terms four_terms four_df 8 100000)
select_terms-IsChoice_example = select_terms-IsChoice four_terms four_df 8 100000 (omega arith)

prepare_terms-IsTerm_example :
    let all = gather [] queried in
    NoRepeats text_eq all
    × ((u : Text)
        → is_term u ≡ true
        → any (λ t. text_eq (to_ascii_lowercase t) u) queried ≡ true
        → any (text_eq u) all ≡ true)
    × All IsTerm (prepare_terms queried 1)
    × (length (prepare_terms queried 1) ≤ 1)
    × (length all ≤ 1 → prepare_terms queried 1 ≡ all)
prepare_terms-IsTerm_example = prepare_terms-IsTerm queried 1
