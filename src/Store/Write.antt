-- ===== src/Store/Write.antt =====
-- crates/laya-store/src/store.rs: `put_file` and `delete_file`. The hash behind `Chunk::id` is the
-- parameter `id`, and the order in which a hash map of document frequencies is read is `order`.
use laya_codex.Common.{ℕ, Option, List, [], ◌∷◌, ◌++◌, if◌then◌else◌, map}
use laya_codex.Common.Integers.{pos}
use laya_codex.Common.Text.{Text, codes, has}
use laya_codex.Core.{Chunk}
use laya_codex.Store.Keys
use laya_codex.Store.Keys.{split_list, not_empty}
use laya_codex.Store.Codec.{field_value}
use laya_codex.Store.Server.{Command, del, srem, Server, Trip, Action, pure, ◌>>=◌, ask, send}
use laya_codex.Store.Frequencies.{Deltas, count_terms, count_gone, index_terms}
use laya_codex.Store.Pipeline.{
  FileRecord, record_of, FileChunk, new_entries, df_commands, chunk_removal, put_commands,
  removed_ids,
}

-- One more document for each term of the chunks that were not stored before.
unfoldable pub count_new : ℕ → List Text → Deltas → List FileChunk → Deltas
unfolding has count_terms index_terms
count_new max_tf old deltas [] = deltas
count_new max_tf old deltas (e ∷ entries) =
    let deltas' =
      if has e.id old then deltas else count_terms deltas (index_terms e.chunk max_tf) (pos 1) in
    count_new max_tf old deltas' entries

pub stored_of : (S : Server) → Text → List Text → S.Db → List (Option Text)
unfolding field_value Keys.chunk
stored_of S repo ids db =
    map (λ id. field_value (codes "terms") (S.hgetall (Keys.chunk repo id) db)) ids

delete_commands : Text → Text → FileRecord → Deltas → List Command
unfolding chunk_removal df_commands Keys.file Keys.files
delete_commands repo path old deltas =
    chunk_removal repo old.ids old
    ++ (df_commands repo deltas
        ++ (del (Keys.file repo path) ∷ srem (Keys.files repo) (path ∷ []) ∷ []))

module _ {S : Server} (trips : ℕ → Trip) where
  unfoldable pub file_record : Text → Text → Action S FileRecord
  unfolding ask record_of field_value Keys.file
  file_record repo path =
      ask trips (λ db. record_of (λ name. field_value name (S.hgetall (Keys.file repo path) db)))

  unfoldable pub stored_terms : Text → List Text → Action S (List (Option Text))
  unfolding ask stored_of
  stored_terms repo [] = pure []
  stored_terms repo (id ∷ ids) = ask trips (stored_of S repo (id ∷ ids))

  unfoldable pub put_file :
      (Chunk → Text) → (Deltas → Deltas) → ℕ → Text → Text → Text → List Chunk → Action S (Unit {0})
  unfolding file_record stored_terms put_commands send count_gone count_new new_entries removed_ids
      ◌>>=◌
  put_file id order max_tf repo path file_hash chunks =
      let entries = new_entries id [] chunks in
      do
        old ← file_record repo path
        stored ← stored_terms repo (removed_ids old.ids entries)
        send trips (
            put_commands repo path file_hash max_tf old (removed_ids old.ids entries) entries
              (order (count_new max_tf old.ids (count_gone [] stored) entries)))

  unfoldable pub delete_file : (Deltas → Deltas) → Text → Text → Action S (Unit {0})
  unfolding file_record stored_terms delete_commands send count_gone ◌>>=◌
  delete_file order repo path = do
    old ← file_record repo path
    stored ← stored_terms repo old.ids
    send trips (delete_commands repo path old (order (count_gone [] stored)))
