-- ===== src/Serving/Tests.antt =====
-- Runs of the settings of crates/laya-cli/src/serving.rs.
use laya_codex.Common.{◌≡◌, refl, none, some, [], ◌∷◌}
use laya_codex.Common.Text.{codes}
use laya_codex.Serving.{ModelServing, EnvServing, resolve, env_conflicts}
use laya_codex.Serving.Agreement.{Keeps, resolve-Keeps}

abbrev a_model : ModelServing
a_model = record { state_tokens = some 128; score_top = some 12; search_score_top = some 12 }

abbrev same_env : EnvServing
same_env = record { state_tokens = none; score_top = some 12 }

other_env-conflicts :
    env_conflicts (some a_model) (record { state_tokens = some 256; score_top = none })
    ≡ record { name = codes "LAYA_CODEX_STATE_TOKENS"; env = 256; model = 128 } ∷ []
unfolding env_conflicts
other_env-conflicts = refl

same_env-conflicts : env_conflicts (some a_model) same_env ≡ []
unfolding env_conflicts
same_env-conflicts = refl

resolve-Keeps_example :
    Keeps a_model.state_tokens (resolve (some a_model) same_env 16).state_tokens
    × Keeps a_model.score_top (resolve (some a_model) same_env 16).score_top
    × Keeps a_model.search_score_top (resolve (some a_model) same_env 16).search_score_top
resolve-Keeps_example = resolve-Keeps a_model same_env 16 same_env-conflicts
