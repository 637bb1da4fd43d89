-- ===== src/Related/Tests.antt =====
-- Examples of the related places.
use laya_codex.Common.{
  Option, true, false, if◌then◌else◌, ℕ, ◌≡◌, refl, arith, none, some, List, [], ◌∷◌, ◌<◌, map, All,
}
use laya_codex.Common.Text.{Text, text_eq, codes}
use laya_codex.Core.{Chunk, rust, RankedSpan, Related}
use laya_codex.Related.{Lookups, interleave, merge_related}
use laya_codex.Related.Expand.{expand_related}
use laya_codex.Related.Usages.{Listing, list_from, tagged, close_listing, is_complete}
use laya_codex.Related.Claims.{IsShown, is_complete-IsShown}
use laya_codex.Related.Pointers.{is_test_path}
use laya_codex.Related.Covered.{IsMerged, merge_related-IsMerged}

abbrev place : ℕ → ℕ → Related
place first last = record {
  path = codes "a.rs";
  start_line = first;
  end_line = last;
  symbol = [];
  relation = codes "calls";
}

abbrev spans : List (RankedSpan ℕ)
spans =
    record {
      path = codes "a.rs";
      start_line = 1;
      end_line = 10;
      symbol = [];
      p_relevant = none;
      score = 1;
      text = [];
    }
    ∷ []

abbrev callees : List Related
callees = place 5 12 ∷ place 20 30 ∷ place 50 51 ∷ []

abbrev callers : List Related
callers = place 28 40 ∷ place 41 42 ∷ []

merge_related-run : merge_related spans callees callers 5 ≡ place 28 40 ∷ place 41 42 ∷ []
unfolding merge_related
merge_related-run = refl

merge_related-IsMerged_example :
    IsMerged spans 5 (interleave callees callers) (merge_related spans callees callers 5)
unfolding interleave
merge_related-IsMerged_example =
    merge_related-IsMerged spans 5 callees callers
      (omega arith, (omega arith, (omega arith, (omega arith, (omega arith, tt)))))

abbrev seed : Chunk
seed = record {
  path = codes "b.rs";
  start_line = 1;
  end_line = 4;
  lang = rust;
  symbol = [];
  kind = [];
  defines = codes "run" ∷ [];
  refs = codes "walk" ∷ codes "run" ∷ [];
  text = [];
}

abbrev callee : Chunk
callee = record seed { path = codes "c.rs"; defines = codes "walk" ∷ []; refs = [] }

abbrev lookups : Lookups
lookups = record {
  chunks_defining = λ idents limit. some (codes "c.rs" ∷ []);
  chunks_referencing = λ idents limit. some (codes "b.rs" ∷ []);
  get_chunks = λ ids. some (callee ∷ seed ∷ []);
}

abbrev path_id : Chunk → Text
path_id c = c.path

expand_related-run :
    expand_related {F = ℕ} lookups path_id (seed ∷ []) spans 5
    ≡ some (
        record {
          path = codes "c.rs";
          start_line = 1;
          end_line = 4;
          symbol = [];
          relation = codes "defines `walk` (used by #1)";
        }
        ∷ [])
unfolding expand_related
expand_related-run = refl

abbrev user : Chunk
user = record {
  path = codes "d.rs";
  start_line = 10;
  end_line = 12;
  lang = rust;
  symbol = [];
  kind = [];
  defines = [];
  refs = codes "walk" ∷ [];
  text = codes "fn go() {\n  walking();\n  walk(1)\n}";
}

abbrev definer : Chunk
definer = record callee { text = codes "fn walk(n: u8) {\n}" }

found : Text → Option Chunk
unfolding text_eq
found i = if text_eq i (codes "u") then some user else some definer

abbrev walk_listing : Listing
walk_listing =
    list_from found (codes "walk") 10 4 (record { out = []; listed = 0; shown = 0; def_lines = [] })
      (tagged (codes "c" ∷ []) (codes "u" ∷ []))

close_listing-run :
    map (λ r. r.start_line) (close_listing (codes "c" ∷ []) (codes "u" ∷ []) walk_listing)
    ≡ 1 ∷ 12 ∷ []
unfolding close_listing list_from tagged found
close_listing-run = refl

is_complete-walk : is_complete (codes "c" ∷ []) (codes "u" ∷ []) walk_listing ≡ true
unfolding is_complete list_from tagged found
is_complete-walk = refl

is_complete-IsShown_example :
    (1 < 8)
    × All
        (IsShown found (codes "walk") 10 4 walk_listing.out)
        (tagged (codes "c" ∷ []) (codes "u" ∷ []))
is_complete-IsShown_example =
    is_complete-IsShown found (codes "walk") 10 4 [] (codes "c" ∷ []) (codes "u" ∷ [])
      is_complete-walk

is_test_path-names :
    map is_test_path
      (codes "src/tests/a.md" ∷ codes "a/test_b.py" ∷ codes "a/latest.rs" ∷ codes "x.spec.ts" ∷ [])
    ≡ true ∷ true ∷ false ∷ true ∷ []
unfolding is_test_path
is_test_path-names = refl
