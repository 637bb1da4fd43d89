-- ===== src/Core.antt =====
-- crates/laya-core/src/lib.rs: the types that every crate shares. Scores are `f32` in the source;
-- they enter as a type `F`, with the operations that each module needs.
use laya_codex.Common.{ℕ, ◌+◌, ◌-◌, Option, List}
use laya_codex.Common.Text.{Text}

pub data Lang : Type 0 where
  rust python typescript tsx javascript go java c cpp csharp ruby php kotlin swift text : Lang

-- A contiguous span of a source file. Lines are 1-based, inclusive.
pub record Chunk : Type 0 where
  pub path : Text
  pub start_line : ℕ
  pub end_line : ℕ
  pub lang : Lang
  pub symbol : Text
  pub kind : Text
  pub defines : List Text
  pub refs : List Text
  pub text : Text

unfoldable pub line_count : Chunk → ℕ
line_count chunk = chunk.end_line - chunk.start_line + 1

pub record RankedSpan (F : Type 0) : Type 0 where
  pub path : Text
  pub start_line : ℕ
  pub end_line : ℕ
  pub symbol : Text
  pub p_relevant : Option F
  pub score : F
  pub text : Text

pub data RankMode : Type 0 where
  laya lexical : RankMode

pub record Related : Type 0 where
  pub path : Text
  pub start_line : ℕ
  pub end_line : ℕ
  pub symbol : Text
  pub relation : Text

pub record QueryResult (F : Type 0) : Type 0 where
  pub spans : List (RankedSpan F)
  pub mode : RankMode
  pub elapsed_ms : ℕ
  pub candidates : ℕ
  pub scored : ℕ
  pub offered : ℕ
  pub related : List Related
