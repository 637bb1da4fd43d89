-- ===== src/Related/Pointers.antt =====
-- crates/laya-rank/src/related.rs: the tests that are listed with an answer.
use laya_codex.Common.{
  ℕ, Bool, true, false, not, ◌&&◌, ◌||◌, Option, none, some, List, [], ◌∷◌, ◌++◌, leb, ◌==◌,
  if◌then◌else◌, length, take, any, keep_if, map,
}
use laya_codex.Common.Options.{◌>>=◌}
use laya_codex.Common.Text.{
  rsplit_once, Text, text_eq, codes, has, split_on, to_ascii_lowercase, starts_with, ends_with,
  is_ascii_lowercase, is_empty,
}
use laya_codex.Core.{Chunk, Related}
use laya_codex.Related.{Lookups}
use laya_codex.Related.Expand.{chunk_with}

abbrev pub usage_idents : ℕ
usage_idents = 6

abbrev test_ref_limit : ℕ
test_ref_limit = 48

abbrev tests_per_file : ℕ
tests_per_file = 2

abbrev test_dirs : List Text
test_dirs = map codes ("test" ∷ "tests" ∷ "__tests__" ∷ "spec" ∷ "specs" ∷ [])

abbrev test_suffixes : List Text
test_suffixes = map codes ("_test" ∷ "_tests" ∷ "_spec" ∷ ".test" ∷ ".spec" ∷ "Tests" ∷ "Test" ∷ [])

-- The directories of a path, and its name.
split_base : List Text → List Text × Text
split_base [] = ([], [])
split_base (base ∷ []) = ([], base)
split_base (dir ∷ next ∷ parts) = let (dirs, base) = split_base (next ∷ parts) in (dir ∷ dirs, base)

all_lowercase : Text → Bool
unfolding is_ascii_lowercase
all_lowercase [] = true
all_lowercase (c ∷ s) = is_ascii_lowercase c && all_lowercase s

is_test_stem : Text → Text → Bool
unfolding text_eq starts_with ends_with
is_test_stem stem ext =
    text_eq stem (codes "tests")
    || text_eq ext (codes "py") && starts_with (codes "test_") stem
    || any (λ s. ends_with s stem) test_suffixes

is_test_base : Option (Text × Text) → Bool
unfolding is_test_stem is_empty all_lowercase
is_test_base none = false
is_test_base (some (stem, ext)) =
    not (is_empty ext || not (all_lowercase ext)) && is_test_stem stem ext

unfoldable pub is_test_path : Text → Bool
unfolding split_on split_base rsplit_once is_test_base has to_ascii_lowercase
is_test_path path =
    let (dirs, base) = split_base (split_on b'/' path) in
    any (λ d. has (to_ascii_lowercase d) test_dirs) dirs || is_test_base (rsplit_once b'.' base)

-- The first identifier that the chunk uses.
first_used : List Text → Chunk → Option Text
unfolding has
first_used [] c = none
first_used (i ∷ idents) c = let rest = first_used idents c in if has i c.refs then some i else rest

test_place : Chunk → Text → Related
test_place c used = record {
  path = c.path;
  start_line = c.start_line;
  end_line = c.end_line;
  symbol = c.symbol;
  relation = codes "test using `" ++ (used ++ codes "`");
}

full_file : Text → List Related → Bool
unfolding text_eq
full_file path out =
    leb tests_per_file (length (keep_if (λ (r : Related). text_eq r.path path) out))

push_test : List Text → Chunk → List Related → List Related
unfolding is_test_path first_used test_place full_file
push_test idents c out = elim (first_used idents c) [
  | none ↦ out
  | some used ↦
      if not (is_test_path c.path) || full_file c.path out
      then out
      else out ++ test_place c used ∷ []
]

push_found : List Text → Option Chunk → List Related → List Related
unfolding push_test
push_found idents none out = out
push_found idents (some c) out = push_test idents c out

pointers_from : (Text → Option Chunk) → List Text → ℕ → List Related → List Text → List Related
unfolding push_found
pointers_from by_id idents n out [] = out
pointers_from by_id idents n out (i ∷ ids) =
    let rest = pointers_from by_id idents n (push_found idents (by_id i) out) ids in
    if length out == n then out else rest

pointers_of : (Chunk → Text) → Lookups → List Text → ℕ → Option (List Related)
unfolding pointers_from chunk_with
pointers_of id store [] n = some []
pointers_of id store (i ∷ idents) n = if n == 0 then some [] else do
  ids ← store.chunks_referencing (i ∷ idents) test_ref_limit
  chunks ← store.get_chunks ids
  some (pointers_from (λ t. chunk_with id t chunks) (i ∷ idents) n [] ids)

unfoldable pub test_pointers : (Chunk → Text) → Lookups → List Text → ℕ → Option (List Related)
unfolding pointers_of
test_pointers id store idents n = pointers_of id store (take usage_idents idents) n
