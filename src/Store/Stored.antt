-- ===== src/Store/Stored.antt =====
-- What the whole pipeline of `put_file` leaves, whatever the server held before.
use laya_codex.Common.{ℕ, ◌≡◌, refl, ◌∙◌, true, List, [], ◌++◌, map, All, All-left, All-right}
use laya_codex.Common.Repeats.{NoRepeats}
use laya_codex.Common.Text.{Text, text_eq}
use laya_codex.Store.Keys
use laya_codex.Store.Codec.{field_value}
use laya_codex.Store.Codec.Exact.{HasFields}
use laya_codex.Store.Server.{Command, key_of, name_of, Server, IsServer, run_all}
use laya_codex.Store.Frequencies.{Deltas}
use laya_codex.Store.Pipeline.{
  FileRecord, FileChunk, entry_id, set_removal, chunk_removal, entries_commands, df_commands,
  record_fields, record_commands, put_commands,
}
use laya_codex.Store.Runs.{KeepsHash, run_all-append, holds_hash-run_all, HasFields-run_all}
use laya_codex.Store.Untouched.{
  IsHashKey-chunk, IsHashKey-file, KeepsHash-put_commands, IsApart-rest,
}
use laya_codex.Store.Written.{HoldsChunks, IsWritten, entries_commands-IsWritten}

record_fields-own :
    (file_hash : Text) (entries : List FileChunk)
    → HasFields (record_fields file_hash entries) (record_fields file_hash entries)
unfolding record_fields field_value text_eq
record_fields-own file_hash entries = (refl, (refl, (refl, (refl, tt))))

record_fields-NoRepeats :
    (file_hash : Text) (entries : List FileChunk)
    → NoRepeats text_eq (map name_of (record_fields file_hash entries))
unfolding record_fields text_eq
record_fields-NoRepeats file_hash entries = (refl, (refl, (refl, (refl, tt))))

module _ {S : Server} (laws : IsServer S) (key : Text) where
  -- A pipeline of two parts that keep the hash behind the key: after the first, it is still a hash.
  holds_hash-part :
      (cs ds : List Command) (db : S.Db)
      → All (KeepsHash key) (cs ++ ds)
      → S.holds_hash key db ≡ true
      → (All (KeepsHash key) ds) × (S.holds_hash key (run_all S cs db) ≡ true)
  holds_hash-part cs ds db a h = (
    All-right (KeepsHash key) cs ds a,
    holds_hash-run_all laws key cs db (All-left (KeepsHash key) cs ds a) h,
  )

module _ {S : Server} (laws : IsServer S) (repo path file_hash : Text) (max_tf : ℕ)
    (old : FileRecord) (removed : List Text) (entries : List FileChunk) (deltas : Deltas)
    (db : S.Db) where
  gone : List Command
  gone = chunk_removal repo removed (record { ids = []; defines = []; refs = [] })

  cleared : S.Db
  unfolding gone
  cleared = run_all S (set_removal repo old.ids old) (run_all S gone db)

  rest : List Command
  rest = df_commands repo deltas ++ record_commands repo path file_hash entries

  run_all-cleared :
      run_all S (put_commands repo path file_hash max_tf old removed entries deltas) db
      ≡ run_all S (entries_commands repo max_tf entries ++ rest) cleared
  unfolding put_commands cleared rest gone
  run_all-cleared =
      run_all-append S gone _ db
      ∙ run_all-append S (set_removal repo old.ids old) _ (run_all S gone db)

  -- Behind a key of the repository that is not a set there is still a hash.
  module _ (key : Text)
      (keeps : All
        (KeepsHash key)
        (put_commands repo path file_hash max_tf old removed entries deltas))
      (h : S.holds_hash key db ≡ true) where
    holds_hash-cleared :
        (All (KeepsHash key) (entries_commands repo max_tf entries ++ rest))
        × (S.holds_hash key cleared ≡ true)
    unfolding put_commands cleared rest gone
    holds_hash-cleared =
        let (a, h') = holds_hash-part laws key gone _ db keeps h in
        holds_hash-part laws key (set_removal repo old.ids old) _ (run_all S gone db) a h'

  -- Each chunk is behind its key.
  pub put_commands-IsWritten :
      HoldsChunks laws repo max_tf db
      → NoRepeats text_eq (map entry_id entries)
      → All
          (IsWritten laws repo max_tf
            (run_all S (put_commands repo path file_hash max_tf old removed entries deltas) db))
          entries
  unfolding rest
  put_commands-IsWritten h r = rw run_all-cleared (
      entries_commands-IsWritten laws repo max_tf entries rest cleared
        (λ id.
          (holds_hash-cleared (Keys.chunk repo id)
            (KeepsHash-put_commands repo (Keys.chunk repo id) (IsHashKey-chunk repo id) max_tf path
              file_hash old removed entries deltas)
            (h id)).1)
        (λ id. IsApart-rest repo path file_hash id entries deltas) r)

  -- The file record is behind the key of the file.
  pub put_commands-record :
      S.holds_hash (Keys.file repo path) db ≡ true
      → HasFields (record_fields file_hash entries) (
          S.hgetall
            (Keys.file repo path)
            (run_all S (put_commands repo path file_hash max_tf old removed entries deltas) db))
  unfolding record_commands rest key_of
  put_commands-record h =
      let key = Keys.file repo path in
      let keeps =
        KeepsHash-put_commands repo key (IsHashKey-file repo path) max_tf path file_hash old removed
          entries deltas in
      let (a, h') = holds_hash-cleared key keeps h in
      let (b, h'') =
        holds_hash-part laws key (entries_commands repo max_tf entries) _ cleared a h' in
      let (c, h''') = holds_hash-part laws key (df_commands repo deltas) _ _ b h'' in
      rw
        (
          run_all-cleared,
          run_all-append S (entries_commands repo max_tf entries) rest cleared,
          run_all-append S (df_commands repo deltas) (record_commands repo path file_hash entries)
              (run_all S (entries_commands repo max_tf entries) cleared),
        )
        (HasFields-run_all laws key (record_fields file_hash entries) _ _
          (record_fields-NoRepeats file_hash entries) (record_fields-own file_hash entries) h'''
          ((IsHashKey-file repo path).not_files, tt))
