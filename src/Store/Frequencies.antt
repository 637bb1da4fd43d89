-- ===== src/Store/Frequencies.antt =====
-- crates/laya-store/src/store.rs: the indexed terms of a chunk, and how storing and removing chunks
-- changes the document frequencies. A hash map is a list, its newest entry first where it matters.
use laya_codex.Common.{
  ℕ, ◌+◌, Bool, false, not, ◌&&◌, ◌||◌, Option, none, some, List, [], ◌∷◌, ◌++◌, ltb, ◌==◌,
  if◌then◌else◌, keep_if,
}
use laya_codex.Common.Integers.{ℤ, pos, negsuc, ◌+ℤ◌}
use laya_codex.Common.Text.{Text, text_eq, split_by, join, has}
use laya_codex.Core.{Chunk}
use laya_codex.Ident.{terms}
use laya_codex.Store.Keys.{not_empty}

-- How often each term was indexed.
abbrev TermCounts : Type 0
TermCounts = List (Text × ℕ)

count_of : Text → TermCounts → ℕ
unfolding text_eq
count_of t [] = 0
count_of t (entry ∷ counts) =
    let rest = count_of t counts in if text_eq entry.0 t then entry.1 else rest

-- The terms of one source that stay below `max_tf` (0 for no limit), and the counts after them.
cap_terms : ℕ → TermCounts → List Text → List Text × TermCounts
unfolding count_of
cap_terms max_tf tf [] = ([], tf)
cap_terms max_tf tf (t ∷ ts) =
    let n = count_of t tf in
    let over = ltb 0 max_tf && not (ltb n max_tf) in
    let (kept, tf') = cap_terms max_tf (if over then tf else (t, n + 1) ∷ tf) ts in
    (if over then kept else t ∷ kept, tf')

cap_sources : ℕ → TermCounts → List Text → List Text
unfolding cap_terms terms
cap_sources max_tf tf [] = []
cap_sources max_tf tf (source ∷ sources) =
    let (kept, tf') = cap_terms max_tf tf (terms source) in kept ++ cap_sources max_tf tf' sources

unfoldable pub index_terms : Chunk → ℕ → Text
unfolding cap_sources join
index_terms c max_tf = join (b' ' ∷ []) (cap_sources max_tf [] (c.path ∷ c.symbol ∷ c.text ∷ []))

-- The change of each document frequency.
abbrev pub Deltas : Type 0
Deltas = List (Text × ℤ)

add_delta : Text → ℤ → Deltas → Deltas
unfolding text_eq ◌+ℤ◌
add_delta t sign [] = (t, pos 0 +ℤ sign) ∷ []
add_delta t sign (entry ∷ deltas) =
    let rest = add_delta t sign deltas in
    if text_eq entry.0 t then (entry.0, entry.1 +ℤ sign) ∷ deltas else entry ∷ rest

-- Every text once, at its first place.
unfoldable pub dedup_from : List Text → List Text → List Text
unfolding has
dedup_from seen [] = []
dedup_from seen (t ∷ ts) =
    let known = has t seen in
    let rest = dedup_from (if known then seen else t ∷ seen) ts in if known then rest else t ∷ rest

-- `char::is_ascii_whitespace`.
is_ascii_whitespace : ℕ → Bool
is_ascii_whitespace c = c == b' ' || c == 9 || c == 10 || c == 12 || c == 13

add_deltas : List Text → ℤ → Deltas → Deltas
unfolding add_delta
add_deltas [] sign deltas = deltas
add_deltas (t ∷ ts) sign deltas = add_deltas ts sign (add_delta t sign deltas)

unfoldable pub count_terms : Deltas → Text → ℤ → Deltas
unfolding add_deltas dedup_from split_by is_ascii_whitespace not_empty
count_terms deltas text sign =
    add_deltas (dedup_from [] (keep_if not_empty (split_by is_ascii_whitespace text))) sign deltas

-- The indexed terms of chunks that disappear, `none` for one that is not stored.
unfoldable pub count_gone : Deltas → List (Option Text) → Deltas
unfolding count_terms
count_gone deltas [] = deltas
count_gone deltas (none ∷ stored) = count_gone deltas stored
count_gone deltas (some text ∷ stored) = count_gone (count_terms deltas text (negsuc 0)) stored

unfoldable pub is_zero : ℤ → Bool
is_zero (pos n) = n == 0
is_zero (negsuc n) = false
