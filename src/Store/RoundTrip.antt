-- ===== src/Store/RoundTrip.antt =====
-- crates/laya-store/src/store.rs: `chunks_of_file` after `put_file`.
use laya_codex.Common.{
  ℕ, ◌<◌, ◌^◌, ◌≡◌, refl, ◌∙◌, ap, true, some, List, [], ◌∷◌, map, All, Bool-cases, inl, inr,
}
use laya_codex.Common.Sort
use laya_codex.Common.Text.{Text, codes, has}
use laya_codex.Core.{Chunk}
use laya_codex.Store.Keys
use laya_codex.Store.Keys.{IsPiece, split_list, split_on-join}
use laya_codex.Store.Codec.{Hash, field_value, chunk_from_hash, fields_of}
use laya_codex.Store.Codec.Exact.{HasFields, cleaned, chunk_from_hash-fields_of}
use laya_codex.Store.Server.{Server, IsServer, Trip, ok, World, ◌>>=◌, run_all, run_lost}
use laya_codex.Store.Frequencies.{Deltas, index_terms}
use laya_codex.Store.Pipeline.{
  record_of, ids_of, FileChunk, entry_id, entry_chunk, new_entries, put_commands, record_fields,
}
use laya_codex.Store.Write.{put_file}
use laya_codex.Store.Read.{chunks_of_hashes, chunks_of_file, after_range}
use laya_codex.Store.Runs.{holds_hash-run_lost}
use laya_codex.Store.Untouched.{IsHashKey, IsHashKey-chunk, IsHashKey-file, KeepsHash-put_commands}
use laya_codex.Store.Written.{IsWritten, new_entries-NoRepeats}
use laya_codex.Store.Stored.{put_commands-IsWritten, put_commands-record}
use laya_codex.Store.Trips.{AllThrough, put_file-ok, chunks_of_file-ok}

-- The line numbers are `u32`.
abbrev pub IsU32 : Chunk → Type 0
IsU32 c = (c.start_line < 2 ^ 32) × (c.end_line < 2 ^ 32)

All-new_entries :
    (P : FileChunk → Type 0) (id : Chunk → Text) (seen : List Text) (chunks : List Chunk)
    → All (λ c. P (record { id = id c; chunk = c })) chunks
    → All P (new_entries id seen chunks)
unfolding new_entries
All-new_entries P id seen [] a = tt
All-new_entries P id seen (c ∷ chunks) a = elim (Bool-cases (has (id c) seen)) [
  | inl e ↦ rw e (All-new_entries P id seen chunks a.1)
  | inr e ↦ rw e (a.0, All-new_entries P id (id c ∷ seen) chunks a.1)
]

chunks_of_hashes-cons :
    (name value : Text) (h : Hash) (hashes : List Hash) (c : Chunk)
    → field_value name h ≡ some value
    → chunk_from_hash h ≡ some c
    → chunks_of_hashes (h ∷ hashes) ≡ c ∷ chunks_of_hashes hashes
unfolding chunks_of_hashes field_value
chunks_of_hashes-cons name value [] hashes c e f = cc
chunks_of_hashes-cons name value (field ∷ h) hashes c e f = rw f refl

module _ {S : Server} (laws : IsServer S) (repo : Text) (max_tf : ℕ) (db : S.Db) where
  chunks_of_hashes-entries :
      (entries : List FileChunk)
      → All (IsWritten laws repo max_tf db) entries
      → All (λ e. IsU32 e.chunk) entries
      → chunks_of_hashes (map (λ id. S.hgetall (Keys.chunk repo id) db) (map entry_id entries))
        ≡ map cleaned (map entry_chunk entries)
  unfolding chunks_of_hashes fields_of
  chunks_of_hashes-entries [] w u = refl
  chunks_of_hashes-entries (e ∷ entries) w u =
      chunks_of_hashes-cons (codes "path") e.chunk.path (S.hgetall (Keys.chunk repo e.id) db) _
        (cleaned e.chunk) w.0.0
        (chunk_from_hash-fields_of e.chunk (index_terms e.chunk max_tf)
          (S.hgetall (Keys.chunk repo e.id) db) u.0.0 u.0.1 w.0)
      ∙ ap (λ cs. cleaned e.chunk ∷ cs) (chunks_of_hashes-entries entries w.1 u.1)

All-ids :
    (id : Chunk → Text) (chunks : List Chunk)
    → ((c : Chunk) → IsPiece b',' (id c))
    → (seen : List Text) → All (IsPiece b',') (map entry_id (new_entries id seen chunks))
unfolding new_entries
All-ids id [] h seen = tt
All-ids id (c ∷ chunks) h seen = elim (Bool-cases (has (id c) seen)) [
  | inl e ↦ rw e (All-ids id chunks h seen)
  | inr e ↦ rw e (h c, All-ids id chunks h (id c ∷ seen))
]

ids-HasFields :
    (file_hash : Text) (entries : List FileChunk) (h : Hash)
    → HasFields (record_fields file_hash entries) h
    → All (IsPiece b',') (map entry_id entries)
    → (record_of (λ name. field_value name h)).ids ≡ map entry_id entries
unfolding record_of record_fields ids_of split_list
ids-HasFields file_hash entries h f a = rw f.1.0 (split_on-join b',' (map entry_id entries) a)

-- On a server that does what is documented, with ids that are not empty and have no comma, line
-- numbers in 32 bits and no foreign values behind the keys of chunks and of the file, and if every
-- trip goes through in the end, whatever attempts were lost before: putting a file and asking for
-- its chunks gives the chunks put, the first of those with one id, without the identifiers that
-- cannot be stored, by their lines.
pub chunks_of_file-put_file :
    {S : Server} (laws : IsServer S) (trips : ℕ → Trip)
    → AllThrough trips
    → (id : Chunk → Text) → ((c : Chunk) → IsPiece b',' (id c))
    → (order : Deltas → Deltas) (max_tf : ℕ) (repo path file_hash : Text) (chunks : List Chunk)
    → All IsU32 chunks
    → (w : World S) → ((i : Text) → S.holds_hash (Keys.chunk repo i) w.db ≡ true)
    → S.holds_hash (Keys.file repo path) w.db ≡ true
    → ((put_file trips id order max_tf repo path file_hash chunks >>= λ _.
          chunks_of_file trips repo path)
        w).0
      ≡ ok (Sort.sort after_range (map cleaned (map entry_chunk (new_entries id [] chunks))))
unfolding ◌>>=◌
chunks_of_file-put_file {S} laws trips through id hex order max_tf repo path file_hash chunks u w h
      f =
    let entries = new_entries id [] chunks in
    let (old, removed, deltas, lost, m, e) =
      put_file-ok trips through id order max_tf repo path file_hash chunks w in
    let commands = put_commands repo path file_hash max_tf old removed entries deltas in
    let db = run_lost S lost commands w.db in
    let keeps = λ (key : Text) (i : IsHashKey repo key).
      holds_hash-run_lost laws key lost commands w.db
        (KeepsHash-put_commands repo key i max_tf path file_hash old removed entries deltas) in
    let written =
      put_commands-IsWritten laws repo path file_hash max_tf old removed entries deltas db
        (λ i. keeps (Keys.chunk repo i) (IsHashKey-chunk repo i) (h i))
        (new_entries-NoRepeats id [] chunks) in
    let kept =
      put_commands-record laws repo path file_hash max_tf old removed entries deltas db
        (keeps (Keys.file repo path) (IsHashKey-file repo path) f) in
    let ids = ids-HasFields file_hash entries _ kept (All-ids id chunks hex []) in
    rw e (
      chunks_of_file-ok trips through repo path (map entry_id entries)
        (record { db = run_all S commands db; made = m }) ids
      ∙ ap (λ cs. ok (Sort.sort after_range cs))
          (chunks_of_hashes-entries laws repo max_tf (run_all S commands db) entries written
            (All-new_entries (λ e. IsU32 e.chunk) id [] chunks u)))
