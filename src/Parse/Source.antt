-- ===== src/Parse/Source.antt =====
-- The chunks of a whole file: `chunk_source_with` of crates/laya-parse/src/lib.rs, and what
-- `chunk_tree` of src/cast.rs attaches to its segments. The tree, the definitions and the references
-- that the parser reports are an input; `admissible` of src/refs.rs is an argument.
pub mod Guarantee
pub mod Refs
use laya_codex.Common.{
  ℕ, suc, zero, ◌+◌, ◌*◌, ◌%◌, ◌^◌, min, max, Bool, true, false, not, ◌&&◌, ◌||◌, Option, none,
  some, List, [], ◌∷◌, ◌++◌, leb, ltb, ◌==◌, if◌then◌else◌, any, drop, length, get_elem?, map,
}
use mathlib.Core.Option
use laya_codex.Common.Text.{Text, text_eq, codes}
use laya_codex.Core.{Chunk, Lang}
use laya_codex.Parse.Config.{ChunkConfig}
use laya_codex.Parse.Lines
use laya_codex.Parse.Lines.{Lines}
use laya_codex.Parse.Tree.{Node}
use laya_codex.Parse.Windows.{chunk_text}
use laya_codex.Parse.Segments.{Seg}
use laya_codex.Parse.Segments.Finish.{chunk_segs}

pub record Def : Type 0 where
  pub start : ℕ
  pub end : ℕ
  pub name_row : ℕ
  pub label : Text
  pub name : Option Text
  pub parent : Option ℕ

-- `RefOcc`, less its byte offset.
pub record RefOcc : Type 0 where
  pub row : ℕ
  pub name : Text

abbrev pub max_refs : ℕ
max_refs = 48

-- Reads of `paths[i]`, which the source makes in range.
path_at : List Text → ℕ → Text
path_at [] i = []
path_at (p ∷ paths) zero = p
path_at (p ∷ paths) (suc i) = path_at paths i

path_of : List Text → Option ℕ → Text → Text
unfolding path_at
path_of paths none label = label
path_of paths (some p) label = path_at paths p ++ (codes " > " ++ label)

paths_from : List Text → List Def → List Text
unfolding path_of
paths_from paths [] = paths
paths_from paths (d ∷ defs) = paths_from (paths ++ path_of paths d.parent d.label ∷ []) defs

unfoldable pub def_paths : List Def → List Text
unfolding paths_from
def_paths defs = paths_from [] defs

-- The first loop of `chunk_symbol`, at definition `i`.
enclosing_from : ℕ → ℕ → ℕ → Option ℕ → List Def → Option ℕ
enclosing_from i s e enclosing [] = enclosing
enclosing_from i s e enclosing (d ∷ defs) =
    let rest = enclosing_from (i + 1) s e (if leb e d.end then some i else enclosing) defs in
    if ltb s d.start then enclosing else rest

same_parent : Option ℕ → Option ℕ → Bool
same_parent none none = true
same_parent none (some b) = false
same_parent (some a) none = false
same_parent (some a) (some b) = a == b

better : Option (ℕ × ℕ) → ℕ → ℕ → Option (ℕ × ℕ)
better none i ov = some (i, ov)
better (some (j, b)) i ov = if ltb b ov then some (i, ov) else some (j, b)

-- The second loop of `chunk_symbol`, at definition `i`.
best_from : Lines → ℕ → ℕ → Option ℕ → ℕ → Option (ℕ × ℕ) → List Def → Option (ℕ × ℕ)
unfolding same_parent better
best_from l s e enclosing i best [] = best
best_from l s e enclosing i best (d ∷ defs) =
    let ov = Lines.nonblank_count l (max d.start s) (min d.end e) in
    let past = best_from l s e enclosing (i + 1) best defs in
    let here = best_from l s e enclosing (i + 1) (better best i ov) defs in
    if ltb e d.start
    then best
    else if not (same_parent d.parent enclosing) || ltb d.end s
    then past
    else here

enclosing_path : List Text → Option ℕ → Text
unfolding path_at
enclosing_path paths none = []
enclosing_path paths (some i) = path_at paths i

symbol_of : List Text → ℕ → Option ℕ → Option (ℕ × ℕ) → Text
unfolding path_at enclosing_path
symbol_of paths total enclosing none = enclosing_path paths enclosing
symbol_of paths total enclosing (some (i, ov)) =
    if ltb total (2 * ov) then path_at paths i else enclosing_path paths enclosing

after_enclosing : Option ℕ → ℕ
after_enclosing none = 0
after_enclosing (some i) = i + 1

unfoldable pub chunk_symbol : List Def → List Text → Lines → ℕ → ℕ → Text
unfolding enclosing_from best_from symbol_of after_enclosing
chunk_symbol defs paths l s e =
    let enclosing = enclosing_from 0 s e none defs in
    let from = after_enclosing enclosing in
    symbol_of paths (Lines.nonblank_count l s e) enclosing
      (best_from l s e enclosing from none (drop from defs))

push_name : List Text → Option Text → List Text
unfolding text_eq
push_name out none = out
push_name out (some name) = if any (text_eq name) out then out else out ++ name ∷ []

defines_from : ℕ → ℕ → List Text → List Def → List Text
unfolding push_name
defines_from s e out [] = out
defines_from s e out (d ∷ defs) =
    let past = defines_from s e out defs in
    let here = defines_from s e (push_name out d.name) defs in
    if ltb e d.start then out else if ltb d.name_row s || ltb e d.name_row then past else here

unfoldable pub chunk_defines : List Def → ℕ → ℕ → List Text
unfolding defines_from
chunk_defines defs s e = defines_from s e [] defs

-- `refs[lo..]`, the references being sorted by row.
from_row : ℕ → List RefOcc → List RefOcc
from_row s [] = []
from_row s (r ∷ refs) = let rest = from_row s refs in if ltb r.row s then rest else r ∷ refs

pub refs_from : (Text → Bool) → List Text → ℕ → List Text → List RefOcc → List Text
unfolding text_eq
refs_from admissible defines e out [] = out
refs_from admissible defines e out (r ∷ refs) =
    let past = refs_from admissible defines e out refs in
    let out' = out ++ r.name ∷ [] in
    let here = refs_from admissible defines e out' refs in
    if ltb e r.row
    then out
    else if not (admissible r.name) || any (text_eq r.name) defines || any (text_eq r.name) out
    then past
    else if length out' == max_refs
    then out'
    else here

unfoldable pub chunk_refs : (Text → Bool) → List RefOcc → List Text → ℕ → ℕ → List Text
unfolding refs_from from_row
chunk_refs admissible refs defines s e = refs_from admissible defines e [] (from_row s refs)

-- What the parser reports of a source.
pub record Parsed : Type 0 where
  pub lang : Lang
  pub root : Node
  pub defs : List Def
  pub refs : List RefOcc

pub chunk_of : (Text → Bool) → Text → Lines → Parsed → Seg → Chunk
unfolding chunk_defines chunk_refs chunk_symbol def_paths
chunk_of admissible path l p s =
    let defines = chunk_defines p.defs s.start s.end in
    record {
      path = path;
      start_line = (s.start + 1) % 2 ^ 32;
      end_line = (s.end + 1) % 2 ^ 32;
      lang = p.lang;
      symbol = chunk_symbol p.defs (def_paths p.defs) l s.start s.end;
      kind = s.kind;
      defines = defines;
      refs = chunk_refs admissible p.refs defines s.start s.end;
      text = Lines.text l s.start s.end;
    }

unfoldable pub chunk_tree :
    (Text → Bool) → ChunkConfig → Text → Lines → Parsed → Option (List Chunk)
unfolding chunk_of
chunk_tree admissible cfg path l p =
    Option.map (map (chunk_of admissible path l p))
      (chunk_segs cfg (Lines.len l) (Lines.is_blank l) p.root)

-- `path.replace('\\', "/")`.
pub slashes : Text → Text
slashes = map (λ c. if c == 92 then b'/' else c)

abbrev pub at_least_one : ChunkConfig → ChunkConfig
at_least_one cfg = record {
  min_lines = max cfg.min_lines 1;
  max_lines = max cfg.max_lines 1;
  text_window_lines = max cfg.text_window_lines 1;
}

-- `none` for a language without a grammar, or a parse that failed.
pub chunk_lines : (Text → Bool) → ChunkConfig → Text → Lines → Option Parsed → Option (List Chunk)
unfolding chunk_tree
chunk_lines admissible cfg path l none = chunk_text cfg path l
chunk_lines admissible cfg path l (some p) = chunk_tree admissible cfg path l p

unfoldable pub chunk_source_with :
    (Text → Bool) → ChunkConfig → Text → Text → Option Parsed → Option (List Chunk)
unfolding chunk_lines slashes
chunk_source_with admissible cfg path source parsed =
    let l = Lines.new source in
    if Lines.len l == 0
    then some []
    else chunk_lines admissible (at_least_one cfg) (slashes path) l parsed
