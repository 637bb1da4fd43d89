-- ===== src/Related/Expand.antt =====
-- crates/laya-rank/src/related.rs: the candidates of `expand_related`, and the whole of it.
use laya_codex.Common.{
  ℕ, ◌+◌, Bool, not, Option, none, some, List, [], ◌∷◌, ◌++◌, ltb, ◌==◌, if◌then◌else◌, length,
  take, any, keep_if, map, flatten,
}
use laya_codex.Common.Options.{◌>>=◌}
use laya_codex.Common.Decimal.{decimal}
use laya_codex.Common.Text.{Text, text_eq, codes, has}
use laya_codex.Core.{Chunk, RankedSpan, Related}
use laya_codex.Common.Ordered.{sort_dedup}
use laya_codex.Related.{
  caller_limit, ambiguous_above, per_seed_idents, per_seed_defines, Lookups, merge_related,
}

-- The lookups made so far, by identifier.
abbrev Resolved : Type 0
Resolved = List (Text × List Text)

is_resolved : Text → Resolved → Bool
unfolding text_eq
is_resolved ident resolved = any (λ e. text_eq e.0 ident) resolved

-- Nothing, for an identifier that was not looked up.
ids_for : Text → Resolved → List Text
unfolding text_eq
ids_for ident [] = []
ids_for ident (e ∷ resolved) =
    let rest = ids_for ident resolved in if text_eq e.0 ident then e.1 else rest

-- Looks up each identifier once.
resolve_all : (Text → Option (List Text)) → Resolved → List Text → Option Resolved
unfolding is_resolved
resolve_all ask resolved [] = some resolved
resolve_all ask resolved (ident ∷ idents) =
    if is_resolved ident resolved
    then resolve_all ask resolved idents
    else do hits ← ask ident; resolve_all ask ((ident, hits) ∷ resolved) idents

-- An identifier with too many definitions points nowhere.
unambiguous : List Text → List Text
unambiguous hits = if ltb ambiguous_above (length hits) then [] else hits

ask_defining : Lookups → Text → Option (List Text)
unfolding unambiguous
ask_defining store ident = do
  hits ← store.chunks_defining (ident ∷ []) (ambiguous_above + 1)
  some (unambiguous hits)

ask_referencing : Lookups → Text → Option (List Text)
ask_referencing store ident = store.chunks_referencing (ident ∷ []) caller_limit

-- The last chunk with the id, as in a map built from the list.
unfoldable pub chunk_with : (Chunk → Text) → Text → List Chunk → Option Chunk
unfolding text_eq
chunk_with id i [] = none
chunk_with id i (c ∷ chunks) = elim (chunk_with id i chunks) [
  | some d ↦ some d
  | none ↦ if text_eq (id c) i then some c else none
]

unfoldable pub place_of : Chunk → Text → Related
place_of c relation = record {
  path = c.path;
  start_line = c.start_line;
  end_line = c.end_line;
  symbol = c.symbol;
  relation = relation;
}

push_place : Option Chunk → Text → List Related → List Related
unfolding place_of
push_place none relation places = places
push_place (some c) relation places = place_of c relation ∷ places

-- The chunks of one identifier, but the seeds.
places_for : (Text → Option Chunk) → List Text → Text → List Text → List Related
unfolding push_place has
places_for by_id seed_ids relation [] = []
places_for by_id seed_ids relation (i ∷ ids) =
    let rest = places_for by_id seed_ids relation ids in
    if has i seed_ids then rest else push_place (by_id i) relation rest

-- The candidates of the seeds in order, from the number `n` on.
candidate_places :
    (Text → Option Chunk)
    → List Text
    → Resolved
    → (Text → ℕ → Text)
    → ℕ
    → List (List Text)
    → List Related
unfolding places_for ids_for
candidate_places by_id seed_ids resolved relation n [] = []
candidate_places by_id seed_ids resolved relation n (idents ∷ more) =
    flatten (map (λ i. places_for by_id seed_ids (relation i n) (ids_for i resolved)) idents)
    ++ candidate_places by_id seed_ids resolved relation (n + 1) more

callee_relation : Text → ℕ → Text
unfolding decimal
callee_relation ident n =
    codes "defines `" ++ (ident ++ (codes "` (used by #" ++ (decimal n ++ codes ")")))

caller_relation : Text → ℕ → Text
unfolding decimal
caller_relation ident n = codes "calls `" ++ (ident ++ (codes "` (#" ++ (decimal n ++ codes ")")))

-- The refs of a seed that no seed defines.
callee_idents : List Chunk → Chunk → List Text
unfolding has
callee_idents seeds seed =
    take per_seed_idents
      (keep_if (λ r. not (has r (flatten (map (λ (s : Chunk). s.defines) seeds)))) seed.refs)

caller_idents : Chunk → List Text
caller_idents seed = take per_seed_defines seed.defines

-- With no ids the store is not asked.
fetch : Lookups → List Text → Option (List Chunk)
fetch store [] = some []
fetch store (i ∷ ids) = store.get_chunks (i ∷ ids)

module _ {F : Type 0} (store : Lookups) (id : Chunk → Text) where
  -- Short of the early return.
  expand : List Chunk → List (RankedSpan F) → ℕ → Option (List Related)
  unfolding resolve_all ask_defining ask_referencing chunk_with candidate_places callee_relation
      caller_relation callee_idents caller_idents fetch sort_dedup merge_related
  expand seeds existing max_related =
      let callees = map (callee_idents seeds) seeds in
      let callers = map caller_idents seeds in
      let seed_ids = map id seeds in
      do
        callee_defs ← resolve_all (ask_defining store) [] (flatten callees)
        caller_refs ← resolve_all (ask_referencing store) [] (flatten callers)
        chunks ← fetch store (sort_dedup (flatten (map (λ e. e.1) (callee_defs ++ caller_refs))))
        some (
            merge_related existing
              (candidate_places (λ i. chunk_with id i chunks) seed_ids callee_defs callee_relation 1
                callees)
              (candidate_places (λ i. chunk_with id i chunks) seed_ids caller_refs caller_relation 1
                callers)
              max_related)

  unfoldable pub expand_related : List Chunk → List (RankedSpan F) → ℕ → Option (List Related)
  unfolding expand
  expand_related [] existing max_related = some []
  expand_related (seed ∷ seeds) existing max_related =
      if max_related == 0 then some [] else expand (seed ∷ seeds) existing max_related
