-- ===== src/Serving.antt =====
-- crates/laya-cli/src/serving.rs: how the settings of a model, of the environment and the defaults
-- combine. A line of `env_conflicts` is a record of what it prints.
mod Agreement
mod Tests
use laya_codex.Common.{
  ℕ, Bool, true, false, not, ◌&&◌, Option, none, some, List, [], ◌∷◌, ◌++◌, ◌==◌, if◌then◌else◌,
}
use laya_codex.Common.Text.{Text, codes}

abbrev pub default_state_tokens : ℕ
default_state_tokens = 128

pub record ModelServing : Type 0 where
  pub state_tokens : Option ℕ
  pub score_top : Option ℕ
  pub search_score_top : Option ℕ

pub record EnvServing : Type 0 where
  pub state_tokens : Option ℕ
  pub score_top : Option ℕ

pub record Serving : Type 0 where
  pub state_tokens : ℕ
  pub score_top : ℕ
  pub search_score_top : ℕ

-- `a.or(b).unwrap_or(d)`.
first_of : Option ℕ → Option ℕ → ℕ → ℕ
first_of (some a) b d = a
first_of none (some b) d = b
first_of none none d = d

or_default : Option ModelServing → ModelServing
or_default (some m) = m
or_default none = record { state_tokens = none; score_top = none; search_score_top = none }

unfoldable pub resolve : Option ModelServing → EnvServing → ℕ → Serving
unfolding first_of or_default
resolve model env default_score_top =
    let m = or_default model in
    let score_top = first_of env.score_top m.score_top default_score_top in
    record {
      state_tokens = first_of env.state_tokens m.state_tokens default_state_tokens;
      score_top = score_top;
      search_score_top = first_of env.score_top m.search_score_top score_top;
    }

-- `{name}={env} overrides the model's {model}`.
pub record Conflict : Type 0 where
  pub name : Text
  pub env : ℕ
  pub model : ℕ

check : Text → Option ℕ → Option ℕ → List Conflict
check name (some e) (some m) =
    if e == m then [] else record { name = name; env = e; model = m } ∷ []
check name (some e) none = []
check name none model = []

same_setting : Option ℕ → Option ℕ → Bool
same_setting none none = true
same_setting none (some b) = false
same_setting (some a) none = false
same_setting (some a) (some b) = a == b

is_set : Option ℕ → Bool
is_set none = false
is_set (some a) = true

unfoldable pub env_conflicts : Option ModelServing → EnvServing → List Conflict
unfolding check same_setting is_set
env_conflicts none env = []
env_conflicts (some m) env =
    check (codes "LAYA_CODEX_STATE_TOKENS") env.state_tokens m.state_tokens
    ++ (check (codes "LAYA_CODEX_SCORE_TOP") env.score_top m.score_top
        ++ (if is_set env.score_top && not (same_setting m.search_score_top m.score_top)
            then check (codes "LAYA_CODEX_SCORE_TOP") env.score_top m.search_score_top
            else []))
