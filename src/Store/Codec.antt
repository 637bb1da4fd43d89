-- ===== src/Store/Codec.antt =====
-- crates/laya-store/src/store.rs: a chunk as the fields of a hash, and back.
pub mod Exact
use laya_codex.Common.{
  ℕ, suc, ◌+◌, Bool, true, false, not, ◌&&◌, Option, none, some, List, [], ◌∷◌, ◌++◌, ltb, leb,
  ◌==◌, if◌then◌else◌, any, keep_if,
}
use laya_codex.Common.Options.{◌>>=◌}
use laya_codex.Common.Decimal.{decimal, parse_u32}
use laya_codex.Common.Text.{Text, text_eq, codes, split_on, join, is_empty, has}
use laya_codex.Core.{
  Lang, rust, python, typescript, tsx, javascript, go, java, c, cpp, csharp, ruby, php, kotlin,
  swift, text, Chunk,
}
use laya_codex.Ident.{terms}
use laya_codex.Store.Keys.{not_empty}

-- `IDENT_SEP`.
abbrev pub ident_sep : ℕ
ident_sep = b'\n'

-- `Lang::as_str`.
unfoldable pub as_str : Lang → Text
as_str rust = codes "rust"
as_str python = codes "python"
as_str typescript = codes "typescript"
as_str tsx = codes "tsx"
as_str javascript = codes "javascript"
as_str go = codes "go"
as_str java = codes "java"
as_str c = codes "c"
as_str cpp = codes "cpp"
as_str csharp = codes "csharp"
as_str ruby = codes "ruby"
as_str php = codes "php"
as_str kotlin = codes "kotlin"
as_str swift = codes "swift"
as_str text = codes "text"

-- A map from field names to values.
abbrev pub Hash : Type 0
Hash = List (Text × Text)

unfoldable pub field_value : Text → Hash → Option Text
unfolding text_eq
field_value name [] = none
field_value name (field ∷ hash) =
    let rest = field_value name hash in if text_eq field.0 name then some field.1 else rest

unfoldable pub unwrap_or_default : Option Text → Text
unwrap_or_default none = []
unwrap_or_default (some t) = t

-- The arms of `lang_from_str`, in order.
abbrev langs : List (Text × Lang)
langs =
    (codes "rust", rust)
    ∷ (codes "python", python)
    ∷ (codes "typescript", typescript)
    ∷ (codes "tsx", tsx)
    ∷ (codes "javascript", javascript)
    ∷ (codes "go", go)
    ∷ (codes "java", java)
    ∷ (codes "c", c)
    ∷ (codes "cpp", cpp)
    ∷ (codes "csharp", csharp)
    ∷ (codes "ruby", ruby)
    ∷ (codes "php", php)
    ∷ (codes "kotlin", kotlin)
    ∷ (codes "swift", swift)
    ∷ []

lang_in : List (Text × Lang) → Text → Lang
unfolding text_eq
lang_in [] s = text
lang_in (arm ∷ arms) s = let rest = lang_in arms s in if text_eq s arm.0 then arm.1 else rest

unfoldable pub lang_from_str : Text → Lang
unfolding lang_in
lang_from_str = lang_in langs

unfoldable pub split_idents : Text → List Text
unfolding split_on not_empty
split_idents s = keep_if not_empty (split_on ident_sep s)

unfoldable pub idents_of : Option Text → List Text
unfolding split_idents
idents_of none = []
idents_of (some s) = split_idents s

-- `contains(IDENT_SEP)`.
has_sep : Text → Bool
has_sep = any (λ a. a == ident_sep)

clean_from : List Text → List Text → List Text
unfolding has has_sep not_empty
clean_from seen [] = []
clean_from seen (d ∷ v) =
    let ok = not_empty d && not (has_sep d) && not (has d seen) in
    let rest = clean_from (if ok then d ∷ seen else seen) v in if ok then d ∷ rest else rest

unfoldable pub clean_idents : List Text → List Text
unfolding clean_from
clean_idents v = clean_from [] v

-- The fields that `put_file` writes for a chunk, its terms being `terms`.
unfoldable pub fields_of : Chunk → Text → Hash
unfolding decimal as_str clean_idents join
fields_of chunk terms =
    (codes "path", chunk.path)
    ∷ (codes "start", decimal chunk.start_line)
    ∷ (codes "end", decimal chunk.end_line)
    ∷ (codes "lang", as_str chunk.lang)
    ∷ (codes "symbol", chunk.symbol)
    ∷ (codes "kind", chunk.kind)
    ∷ (codes "defines", join (ident_sep ∷ []) (clean_idents chunk.defines))
    ∷ (codes "refs", join (ident_sep ∷ []) (clean_idents chunk.refs))
    ∷ (codes "terms", terms)
    ∷ (codes "text", chunk.text)
    ∷ []

unfoldable pub chunk_from_hash : Hash → Option Chunk
unfolding field_value parse_u32 lang_from_str unwrap_or_default idents_of
chunk_from_hash h = do
  path ← field_value (codes "path") h
  start ← field_value (codes "start") h
  start_line ← parse_u32 start
  end ← field_value (codes "end") h
  end_line ← parse_u32 end
  some (record {
    path = path;
    start_line = start_line;
    end_line = end_line;
    lang = lang_from_str (unwrap_or_default (field_value (codes "lang") h));
    symbol = unwrap_or_default (field_value (codes "symbol") h);
    kind = unwrap_or_default (field_value (codes "kind") h);
    defines = idents_of (field_value (codes "defines") h);
    refs = idents_of (field_value (codes "refs") h);
    text = unwrap_or_default (field_value (codes "text") h);
  })
