-- ===== src/Store/Read.antt =====
-- crates/laya-store/src/store.rs: the operations that read, and the memo. The map of matches is a
-- list in the order in which its ids were met; the source reads it in any order and sorts it.
use laya_codex.Common.{
  ℕ, zero, suc, ◌+◌, Bool, true, false, not, ◌&&◌, ◌||◌, Option, none, some, List, [], ◌∷◌, ltb,
  ◌==◌, if◌then◌else◌, map, take, keep_if, length,
}
use laya_codex.Common.Sort
use laya_codex.Common.Ordered.{text_ltb, after_text}
use laya_codex.Common.Text.{Text, text_eq, codes}
use laya_codex.Core.{Chunk}
use laya_codex.Store.Keys
use laya_codex.Store.Keys.{not_empty}
use laya_codex.Store.Codec.{Hash, field_value, chunk_from_hash}
use laya_codex.Store.Server.{set_value, Server, Trip, Action, pure, ◌>>=◌, ask, send}
use laya_codex.Store.Frequencies.{dedup_from}
use laya_codex.Store.Write.{file_record}

push_some : Option Chunk → List Chunk → List Chunk
push_some none chunks = chunks
push_some (some c) chunks = c ∷ chunks

-- A missing chunk is an empty hash; a malformed one is skipped.
unfoldable pub chunks_of_hashes : List Hash → List Chunk
unfolding push_some chunk_from_hash
chunks_of_hashes [] = []
chunks_of_hashes ([] ∷ hashes) = chunks_of_hashes hashes
chunks_of_hashes ((field ∷ h) ∷ hashes) =
    push_some (chunk_from_hash (field ∷ h)) (chunks_of_hashes hashes)

-- `sort_by_key(|c| (c.start_line, c.end_line))`.
abbrev pub after_range : Chunk → Chunk → Bool
after_range a b =
    ltb b.start_line a.start_line || a.start_line == b.start_line && ltb b.end_line a.end_line

-- How many sets an id is in, and the first of them.
pub record Match : Type 0 where
  pub id : Text
  pub count : ℕ
  pub first : ℕ

unfoldable pub add_match : ℕ → Text → List Match → List Match
unfolding text_eq
add_match order id [] = record { id = id; count = 1; first = order } ∷ []
add_match order id (m ∷ matches) =
    let rest = add_match order id matches in
    if text_eq m.id id then record m { count = m.count + 1 } ∷ matches else m ∷ rest

unfoldable pub add_matches : ℕ → List Text → List Match → List Match
unfolding add_match
add_matches order [] matches = matches
add_matches order (id ∷ ids) matches = add_matches order ids (add_match order id matches)

unfoldable pub matches_from : ℕ → List (List Text) → List Match → List Match
unfolding add_matches
matches_from order [] matches = matches
matches_from order (ids ∷ sets) matches =
    matches_from (order + 1) sets (add_matches order ids matches)

unfoldable pub after_match : Bool → Match → Match → Bool
unfolding text_ltb
after_match by_first a b =
    ltb a.count b.count
    || a.count == b.count
      && (by_first && ltb b.first a.first
          || (not by_first || a.first == b.first) && text_ltb b.id a.id)

abbrev match_id : Match → Text
match_id m = m.id

unfoldable pub rank_matches : List Match → Bool → ℕ → List Text
unfolding after_match Sort.sort
rank_matches v by_first limit = map match_id (take limit (Sort.sort (after_match by_first) v))

-- The idents that are looked up: not empty, each once.
unfoldable pub wanted : List Text → List Text
unfolding dedup_from not_empty
wanted idents = dedup_from [] (keep_if not_empty idents)

all_hashes : (S : Server) → Text → List Text → S.Db → List Hash
unfolding Keys.chunk
all_hashes S repo ids db = map (λ id. S.hgetall (Keys.chunk repo id) db) ids

all_members : (S : Server) → (Text → Text) → List Text → S.Db → List (List Text)
all_members S key idents db = map (λ i. S.smembers (key i) db) idents

all_counts : (S : Server) → (Text → Text) → List Text → S.Db → List ℕ
all_counts S key idents db = map (λ i. length (S.smembers (key i) db)) idents

-- The limit of 0 asks nothing.
limited : {S : Server} → ℕ → Action S (List Match) → Bool → Action S (List Text)
unfolding rank_matches ◌>>=◌
limited zero matches by_first = pure []
limited (suc limit) matches by_first = do m ← matches; pure (rank_matches m by_first (suc limit))

module _ {S : Server} (trips : ℕ → Trip) where
  unfoldable pub get_chunks : Text → List Text → Action S (List Chunk)
  unfolding ask all_hashes chunks_of_hashes ◌>>=◌
  get_chunks repo [] = pure []
  get_chunks repo (id ∷ ids) = do
    hashes ← ask trips (all_hashes S repo (id ∷ ids))
    pure (chunks_of_hashes hashes)

  unfoldable pub chunks_of_file : Text → Text → Action S (List Chunk)
  unfolding file_record get_chunks Sort.sort ◌>>=◌
  chunks_of_file repo path = do
    old ← file_record trips repo path
    chunks ← get_chunks repo old.ids
    pure (Sort.sort after_range chunks)

  unfoldable pub file_hash : Text → Text → Action S (Option Text)
  unfolding ask field_value Keys.file
  file_hash repo path =
      ask trips (λ db. field_value (codes "hash") (S.hgetall (Keys.file repo path) db))

  unfoldable pub list_files : Text → Action S (List Text)
  unfolding ask Keys.files Sort.sort after_text ◌>>=◌
  list_files repo = do
    paths ← ask trips (λ db. S.smembers (Keys.files repo) db)
    pure (Sort.sort after_text paths)

  matches_of : (Text → Text) → List Text → Action S (List Match)
  unfolding ask all_members matches_from ◌>>=◌
  matches_of key [] = pure []
  matches_of key (ident ∷ idents) = do
    sets ← ask trips (all_members S key (ident ∷ idents))
    pure (matches_from 0 sets [])

  unfoldable pub ident_matches : (Text → Text) → List Text → Action S (List Match)
  unfolding matches_of wanted
  ident_matches key idents = matches_of key (wanted idents)

  unfoldable pub chunks_defining : Text → List Text → ℕ → Action S (List Text)
  unfolding ident_matches limited Keys.defines
  chunks_defining repo idents limit = limited limit (ident_matches (Keys.defines repo) idents) true

  unfoldable pub chunks_referencing : Text → List Text → ℕ → Action S (List Text)
  unfolding ident_matches limited Keys.refs
  chunks_referencing repo idents limit = limited limit (ident_matches (Keys.refs repo) idents) false

  unfoldable pub definition_counts : Text → List Text → Action S (List ℕ)
  unfolding ask all_counts Keys.defines
  definition_counts repo [] = pure []
  definition_counts repo (ident ∷ idents) =
      ask trips (all_counts S (Keys.defines repo) (ident ∷ idents))

  unfoldable pub memo_get : Text → Action S (Option Text)
  unfolding ask Keys.memo
  memo_get key = ask trips (S.get (Keys.memo key))

  unfoldable pub memo_put : Text → Text → ℕ → Action S (Unit {0})
  unfolding send Keys.memo
  memo_put key value ttl_secs = send trips (set_value (Keys.memo key) value ttl_secs ∷ [])
