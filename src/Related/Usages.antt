-- ===== src/Related/Usages.antt =====
-- crates/laya-rank/src/related.rs: the list of lines that define and use an identifier.
use laya_codex.Common.{
  ltb, ℕ, zero, suc, ◌+◌, ◌-◌, ◌%◌, ◌^◌, Bool, true, false, not, ◌&&◌, ◌||◌, Option, none, some,
  List, [], ◌∷◌, ◌++◌, leb, ◌==◌, if◌then◌else◌, length, take, any, map,
}
use laya_codex.Common.Options.{◌>>=◌}
use laya_codex.Common.Text.{Text, text_eq, codes, starts_with, lines, trim}
use laya_codex.Core.{Chunk, Related}
use laya_codex.Ident.{is_word_char}
use laya_codex.Related.{ambiguous_above, Lookups}
use laya_codex.Related.Expand.{chunk_with}
use laya_codex.Related.Pointers.{usage_idents}

abbrev pub usage_ref_limit : ℕ
usage_ref_limit = 8

abbrev usage_line_chars : ℕ
usage_line_chars = 120

-- `COMPLETE_USES` of src/render.rs.
abbrev pub complete_uses : Text
complete_uses = codes " (all indexed uses shown)"

is_ident_at : Option ℕ → Bool
unfolding is_word_char
is_ident_at none = false
is_ident_at (some c) = is_word_char c

first_char : List ℕ → Option ℕ
first_char [] = none
first_char (c ∷ s) = some c

drop_chars : ℕ → List ℕ → List ℕ
drop_chars zero s = s
drop_chars (suc n) [] = []
drop_chars (suc n) (c ∷ s) = drop_chars n s

-- `match_indices` from here on, `skip` characters being part of the last match; `prev` stands before.
word_from : Text → Option ℕ → ℕ → Text → Bool
unfolding starts_with is_ident_at first_char drop_chars
word_from word prev (suc skip) [] = false
word_from word prev zero [] = starts_with word [] && not (is_ident_at prev)
word_from word prev (suc skip) (c ∷ s) = word_from word (some c) skip s
word_from word prev zero (c ∷ s) =
    let found = starts_with word (c ∷ s) in
    let whole =
      not (is_ident_at prev) && not (is_ident_at (first_char (drop_chars (length word) (c ∷ s)))) in
    found && whole || word_from word (some c) (if found then length word - 1 else 0) s

unfoldable pub contains_word : Text → Text → Bool
unfolding word_from
contains_word line word = word_from word none 0 line

line_with : ℕ → Text → List Text → Option (ℕ × Text)
unfolding contains_word trim
line_with n ident [] = none
line_with n ident (line ∷ more) =
    let rest = line_with (n + 1) ident more in
    if contains_word line ident then some (n, take usage_line_chars (trim line)) else rest

-- The line number is a sum of `u32` values, the second a cast.
unfoldable pub first_line_with : Chunk → Text → Option (ℕ × Text)
unfolding line_with lines
first_line_with chunk ident = do
  (i, text) ← line_with 0 ident (lines chunk.text)
  some (chunk.start_line + i % 2 ^ 32, text)

-- The inner loop of `usage_list`: the list, how many lines were added to it, how many definitions and
-- uses have a line, and where the definitions stand.
pub record Listing : Type 0 where
  pub out : List Related
  pub listed : ℕ
  pub shown : ℕ
  pub def_lines : List ℕ

unfoldable pub usage_place : Bool → Text → Chunk → ℕ → Text → Related
usage_place is_def ident chunk line text = record {
  path = chunk.path;
  start_line = line;
  end_line = line;
  symbol = text;
  relation =
      (if is_def then codes "definition of" else codes "use of")
      ++ (codes " `" ++ (ident ++ codes "`"));
}

unfoldable pub is_listed : Chunk → ℕ → List Related → Bool
unfolding text_eq
is_listed chunk line = any (λ (r : Related). text_eq r.path chunk.path && r.start_line == line)

unfoldable pub list_line : Bool → Text → Chunk → Option (ℕ × Text) → Listing → Listing
unfolding usage_place is_listed
list_line is_def ident chunk none l = l
list_line is_def ident chunk (some (line, text)) l =
    if is_listed chunk line l.out then record l { shown = l.shown + 1 } else record {
      out = l.out ++ usage_place is_def ident chunk line text ∷ [];
      listed = l.listed + 1;
      shown = l.shown + 1;
      def_lines = if is_def then l.def_lines ++ length l.out ∷ [] else l.def_lines;
    }

unfoldable pub list_chunk : Bool → Text → Option Chunk → Listing → Listing
unfolding list_line first_line_with
list_chunk is_def ident none l = l
list_chunk is_def ident (some chunk) l =
    list_line is_def ident chunk (first_line_with chunk ident) l

unfoldable pub list_from :
    (Text → Option Chunk) → Text → ℕ → ℕ → Listing → List (Text × Bool) → Listing
unfolding list_chunk
list_from by_id ident max_lines per_ident l [] = l
list_from by_id ident max_lines per_ident l (t ∷ tagged) =
    let rest =
      list_from by_id ident max_lines per_ident (list_chunk t.1 ident (by_id t.0) l) tagged in
    if leb per_ident l.listed || leb max_lines (length l.out) then l else rest

-- Adds the claim to the entry with the index.
mark : ℕ → List Related → List Related
mark i [] = []
mark zero (r ∷ out) = record r { relation = r.relation ++ complete_uses } ∷ out
mark (suc i) (r ∷ out) = r ∷ mark i out

mark_all : List ℕ → List Related → List Related
unfolding mark
mark_all [] out = out
mark_all (i ∷ def_lines) out = mark_all def_lines (mark i out)

-- Every referencing chunk was returned, and each definition and use has a line.
unfoldable pub is_complete : List Text → List Text → Listing → Bool
is_complete defs uses l = ltb (length uses) usage_ref_limit && l.shown == length defs + length uses

unfoldable pub close_listing : List Text → List Text → Listing → List Related
unfolding mark_all is_complete
close_listing defs uses l = if is_complete defs uses l then mark_all l.def_lines l.out else l.out

unfoldable pub tagged : List Text → List Text → List (Text × Bool)
tagged defs uses = map (λ d. (d, true)) defs ++ map (λ u. (u, false)) uses

module _ (id : Chunk → Text) (store : Lookups) (max_lines per_ident : ℕ) where
  usages_with : List Related → Text → List Text → List Text → Option (List Related)
  unfolding list_from close_listing tagged chunk_with
  usages_with out ident defs uses = if length defs + length uses == 0 then some out else do
    chunks ← store.get_chunks (defs ++ uses)
    some (
        close_listing defs uses (
          list_from (λ i. chunk_with id i chunks) ident max_lines per_ident
            (record { out = out; listed = 0; shown = 0; def_lines = [] }) (tagged defs uses)))

  -- The lines of one identifier, unless it is defined in too many places.
  usages_of : List Related → Text → Option (List Related)
  unfolding usages_with
  usages_of out ident = do
    defs ← store.chunks_defining (ident ∷ []) (ambiguous_above + 1)
    if ltb ambiguous_above (length defs) then some out else do
      uses ← store.chunks_referencing (ident ∷ []) usage_ref_limit
      usages_with out ident defs uses

  usages_from : List Related → List Text → Option (List Related)
  unfolding usages_of
  usages_from out [] = some out
  usages_from out (ident ∷ idents) =
      if leb max_lines (length out)
      then some out
      else do out' ← usages_of out ident; usages_from out' idents

  unfoldable pub usage_list : List Text → Option (List Related)
  unfolding usages_from
  usage_list idents = usages_from [] (take usage_idents idents)
