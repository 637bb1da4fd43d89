-- ===== src/Parse/Config.antt =====
-- The chunk size policy of crates/laya-parse/src/lib.rs, and spans of rows.
use laya_codex.Common.{ℕ, ◌+◌, ◌-◌, Bool, List, leb, ◌&&◌, any}

pub record ChunkConfig : Type 0 where
  pub min_lines : ℕ
  pub max_lines : ℕ
  pub text_window_lines : ℕ

-- Rows `first..=last`.
pub record Span : Type 0 where
  pub first : ℕ
  pub last : ℕ

abbrev pub within : ℕ → Span → Bool
within r s = leb s.first r && leb r s.last

-- Some span of the list holds row `r`.
abbrev pub covers : List Span → ℕ → Bool
covers spans r = any (within r) spans

abbrev pub default_config : ChunkConfig
default_config = record { min_lines = 10; max_lines = 50; text_window_lines = 30 }

abbrev pub rows : Span → ℕ
rows s = s.last - s.first + 1
