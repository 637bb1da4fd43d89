-- ===== src/Serving/Agreement.antt =====
-- What `env_conflicts` of crates/laya-cli/src/serving.rs says of `resolve`.
use laya_codex.Common.{
  ℕ, ◌≡◌, refl, not, ◌&&◌, Option, none, some, List, [], ◌∷◌, ◌++◌, arith, if◌then◌else◌,
}
use laya_codex.Common.Text.{Text}
use laya_codex.Serving.{
  ModelServing, EnvServing, Conflict, first_of, check, same_setting, is_set, resolve, env_conflicts,
}

-- What a setting is, if the model names it.
abbrev pub Keeps : Option ℕ → ℕ → Type 0
Keeps none v = Unit {0}
Keeps (some m) v = v ≡ m

append-nil_left : (xs ys : List Conflict) → xs ++ ys ≡ [] → (xs ≡ []) × (ys ≡ [])
append-nil_left [] ys e = (refl, e)
append-nil_left (x ∷ xs) ys e = cc

check-Keeps :
    (name : Text) (env model : Option ℕ) (d : ℕ)
    → check name env model ≡ []
    → Keeps model (first_of env model d)
unfolding check first_of
check-Keeps name (some e) (some m) d h = ground arith
check-Keeps name (some e) none d h = tt
check-Keeps name none none d h = tt
check-Keeps name none (some m) d h = refl

search-Keeps :
    (name : Text) (env score search : Option ℕ) (d : ℕ)
    → check name env score ≡ []
    → (if is_set env && not (same_setting search score) then check name env search else []) ≡ []
    → Keeps search (first_of env search d)
unfolding check first_of is_set same_setting
search-Keeps name env score none d h k = tt
search-Keeps name none score (some m) d h k = refl
search-Keeps name (some e) none (some m) d h k = ground arith
search-Keeps name (some e) (some s) (some m) d h k = ground arith

-- If no conflict is reported, the model is served with every setting that it names.
pub resolve-Keeps :
    (m : ModelServing) (env : EnvServing) (default_score_top : ℕ)
    → env_conflicts (some m) env ≡ []
    → Keeps m.state_tokens (resolve (some m) env default_score_top).state_tokens
      × Keeps m.score_top (resolve (some m) env default_score_top).score_top
      × Keeps m.search_score_top (resolve (some m) env default_score_top).search_score_top
unfolding resolve env_conflicts
resolve-Keeps m env d h =
    let (a, rest) = append-nil_left _ _ h in
    let (b, c) = append-nil_left _ _ rest in
    (
      check-Keeps _ env.state_tokens m.state_tokens _ a,
      check-Keeps _ env.score_top m.score_top d b,
      search-Keeps _ env.score_top m.score_top m.search_score_top _ b c,
    )
