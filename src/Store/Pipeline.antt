-- ===== src/Store/Pipeline.antt =====
-- crates/laya-store/src/store.rs: the commands that `put_file` queues. The hash behind `Chunk::id` is
-- the parameter `id`.
use laya_codex.Common.{
  ℕ, not, Option, none, some, List, [], ◌∷◌, ◌++◌, if◌then◌else◌, map, keep_if, flatten,
}
use laya_codex.Common.Text.{Text, codes, join, has}
use laya_codex.Core.{Chunk}
use laya_codex.Store.Keys
use laya_codex.Store.Keys.{split_list, not_empty}
use laya_codex.Store.Frequencies.{Deltas, dedup_from, is_zero, index_terms}
use laya_codex.Store.Codec.{Hash, ident_sep, idents_of, clean_idents, fields_of}
use laya_codex.Store.Server.{Command, hset, del, sadd, srem, hincrby}

-- What a file record says about the chunks stored for a path.
pub record FileRecord : Type 0 where
  pub ids : List Text
  pub defines : List Text
  pub refs : List Text

unfoldable pub ids_of : Option Text → List Text
unfolding split_list
ids_of none = []
ids_of (some s) = split_list s

unfoldable pub record_of : (Text → Option Text) → FileRecord
unfolding ids_of idents_of
record_of field = record {
  ids = ids_of (field (codes "chunks"));
  defines = idents_of (field (codes "defines"));
  refs = idents_of (field (codes "refs"));
}

unfoldable pub df_commands : Text → Deltas → List Command
unfolding is_zero Keys.df
df_commands repo [] = []
df_commands repo (entry ∷ deltas) =
    let rest = df_commands repo deltas in
    if is_zero entry.1 then rest else hincrby (Keys.df repo) entry.0 entry.1 ∷ rest

-- `queue_set_removal`.
unfoldable pub set_removal : Text → List Text → FileRecord → List Command
unfolding Keys.defines Keys.refs
set_removal repo [] old = []
set_removal repo (id ∷ ids) old =
    map (λ d. srem (Keys.defines repo d) (id ∷ ids)) old.defines
    ++ map (λ r. srem (Keys.refs repo r) (id ∷ ids)) old.refs

unfoldable pub hash_removal : Text → List Text → List Command
unfolding Keys.chunk
hash_removal repo [] = []
hash_removal repo (id ∷ ids) =
    hset (Keys.chunk repo id) ((codes "terms", []) ∷ [])
    ∷ del (Keys.chunk repo id)
    ∷ hash_removal repo ids

-- `queue_chunk_removal`.
unfoldable pub chunk_removal : Text → List Text → FileRecord → List Command
unfolding hash_removal set_removal
chunk_removal repo ids old = hash_removal repo ids ++ set_removal repo ids old

-- A chunk to write, with its id.
pub record FileChunk : Type 0 where
  pub id : Text
  pub chunk : Chunk

-- The chunks whose id did not come before.
unfoldable pub new_entries : (Chunk → Text) → List Text → List Chunk → List FileChunk
unfolding has
new_entries id seen [] = []
new_entries id seen (c ∷ chunks) =
    let known = has (id c) seen in
    let rest = new_entries id (if known then seen else id c ∷ seen) chunks in
    if known then rest else record { id = id c; chunk = c } ∷ rest

abbrev pub entry_id : FileChunk → Text
entry_id e = e.id

abbrev pub entry_chunk : FileChunk → Chunk
entry_chunk e = e.chunk

unfoldable pub entry_commands : Text → ℕ → FileChunk → List Command
unfolding Keys.chunk Keys.defines Keys.refs fields_of clean_idents
entry_commands repo max_tf e =
    hset (Keys.chunk repo e.id) (fields_of e.chunk (index_terms e.chunk max_tf))
    ∷ (map (λ d. sadd (Keys.defines repo d) e.id) (clean_idents e.chunk.defines)
        ++ map (λ r. sadd (Keys.refs repo r) e.id) (clean_idents e.chunk.refs))

unfoldable pub entries_commands : Text → ℕ → List FileChunk → List Command
unfolding entry_commands
entries_commands repo max_tf [] = []
entries_commands repo max_tf (e ∷ entries) =
    entry_commands repo max_tf e ++ entries_commands repo max_tf entries

-- The identifiers of all chunks, each once.
all_defines : List FileChunk → List Text
unfolding dedup_from clean_idents
all_defines entries = dedup_from [] (flatten (map (λ e. clean_idents e.chunk.defines) entries))

all_refs : List FileChunk → List Text
unfolding dedup_from clean_idents
all_refs entries = dedup_from [] (flatten (map (λ e. clean_idents e.chunk.refs) entries))

-- The fields of a file record.
unfoldable pub record_fields : Text → List FileChunk → Hash
unfolding join all_defines all_refs
record_fields file_hash entries =
    (codes "hash", file_hash)
    ∷ (codes "chunks", join (b',' ∷ []) (map entry_id entries))
    ∷ (codes "defines", join (ident_sep ∷ []) (all_defines entries))
    ∷ (codes "refs", join (ident_sep ∷ []) (all_refs entries))
    ∷ []

unfoldable pub record_commands : Text → Text → Text → List FileChunk → List Command
unfolding Keys.file Keys.files record_fields
record_commands repo path file_hash entries =
    hset (Keys.file repo path) (record_fields file_hash entries) ∷ sadd (Keys.files repo) path ∷ []

-- The old ids that are not among the new ones.
unfoldable pub removed_ids : List Text → List FileChunk → List Text
unfolding has
removed_ids old entries = keep_if (λ i. not (has i (map entry_id entries))) old

-- The pipeline of `put_file`.
unfoldable pub put_commands :
    Text → Text → Text → ℕ → FileRecord → List Text → List FileChunk → Deltas → List Command
unfolding chunk_removal set_removal entries_commands df_commands record_commands
put_commands repo path file_hash max_tf old removed entries deltas =
    chunk_removal repo removed (record { ids = []; defines = []; refs = [] })
    ++ (set_removal repo old.ids old
        ++ (entries_commands repo max_tf entries
            ++ (df_commands repo deltas ++ record_commands repo path file_hash entries)))
