-- ===== src/Store/Trips.antt =====
-- crates/laya-store/src/store.rs: what the operations do when every trip goes through in the end.
use laya_codex.Common.{ℕ, ◌+◌, ◌≡◌, refl, Option, none, List, [], ◌∷◌, map}
use laya_codex.Common.Sort
use laya_codex.Common.Text.{Text}
use laya_codex.Core.{Chunk}
use laya_codex.Store.Keys
use laya_codex.Store.Keys.{IsPiece, split_list, split_on-join}
use laya_codex.Store.Codec.{field_value}
use laya_codex.Store.Server.{Command, Server, Trip, ok, World, ◌>>=◌, ask, send, run_all, run_lost}
use laya_codex.Store.Frequencies.{Deltas, count_gone}
use laya_codex.Store.Pipeline.{FileRecord, record_of, new_entries, removed_ids, put_commands}
use laya_codex.Store.Write.{file_record, stored_of, stored_terms, count_new, put_file}
use laya_codex.Store.Read.{chunks_of_hashes, get_chunks, chunks_of_file, after_range}

-- Every trip goes through in the end.
abbrev pub AllThrough : (ℕ → Trip) → Type 0
AllThrough trips = (n : ℕ) → (trips n).failure ≡ none

module _ {S : Server} (trips : ℕ → Trip) (through : AllThrough trips) where
  get_chunks-ok :
      (repo : Text) (ids : List Text) (w : World S)
      → (m : ℕ) × (get_chunks trips repo ids w ≡ (
        ok (chunks_of_hashes (map (λ id. S.hgetall (Keys.chunk repo id) w.db) ids)),
        record { db = w.db; made = m },
      ))
  unfolding get_chunks chunks_of_hashes
  get_chunks-ok repo [] w = (w.made, refl)
  get_chunks-ok repo (id ∷ ids) w = (w.made + 1, rw (through w.made) refl)

  file_record-ok :
      (repo path : Text) (w : World S)
      → file_record trips repo path w ≡ (
        ok (record_of (λ name. field_value name (S.hgetall (Keys.file repo path) w.db))),
        record { db = w.db; made = w.made + 1 },
      )
  unfolding file_record ask
  file_record-ok repo path w = rw (through w.made) refl

  stored_terms-ok :
      (repo : Text) (ids : List Text) (w : World S)
      → (stored : List (Option Text)) × (m : ℕ) × (stored_terms trips repo ids w
          ≡ (ok stored, record { db = w.db; made = m }))
  unfolding stored_terms ask
  stored_terms-ok repo [] w = ([], w.made, refl)
  stored_terms-ok repo (id ∷ ids) w =
      (stored_of S repo (id ∷ ids) w.db, w.made + 1, rw (through w.made) refl)

  send-ok :
      (commands : List Command) (w : World S)
      → send trips commands w ≡ (
        ok tt,
        record {
          db = run_all S commands (run_lost S (trips w.made).lost commands w.db);
          made = w.made + 1;
        },
      )
  unfolding send
  send-ok commands w = rw (through w.made) refl

  -- The database that `put_file` leaves.
  pub put_file-ok :
      (id : Chunk → Text) (order : Deltas → Deltas) (max_tf : ℕ) (repo path file_hash : Text)
      (chunks : List Chunk) (w : World S)
      → (old : FileRecord) × (removed : List Text) × (deltas : Deltas) × (lost : List ℕ) × (m : ℕ)
        × (put_file trips id order max_tf repo path file_hash chunks w ≡ (
          ok tt,
          record {
            db =
                run_all S
                  (put_commands repo path file_hash max_tf old removed
                    (new_entries id [] chunks)
                    deltas)
                  (run_lost S lost
                    (put_commands repo path file_hash max_tf old removed
                      (new_entries id [] chunks)
                      deltas)
                    w.db);
            made = m;
          },
        ))
  unfolding put_file ◌>>=◌
  put_file-ok id order max_tf repo path file_hash chunks w =
      let old = record_of (λ name. field_value name (S.hgetall (Keys.file repo path) w.db)) in
      let entries = new_entries id [] chunks in
      let removed = removed_ids old.ids entries in
      let (stored, m, e) = stored_terms-ok repo removed (record { db = w.db; made = w.made + 1 }) in
      let deltas = order (count_new max_tf old.ids (count_gone [] stored) entries) in
      (
        old,
        removed,
        deltas,
        (trips m).lost,
        m + 1,
        rw
            (
              file_record-ok repo path w,
              e,
              send-ok (put_commands repo path file_hash max_tf old removed entries deltas)
                  (record { db = w.db; made = m }),
            )
            refl,
      )

  pub chunks_of_file-ok :
      (repo path : Text) (ids : List Text) (w : World S)
      → (record_of (λ name. field_value name (S.hgetall (Keys.file repo path) w.db))).ids ≡ ids
      → (chunks_of_file trips repo path w).0
        ≡ ok (
            Sort.sort after_range
              (chunks_of_hashes (map (λ id. S.hgetall (Keys.chunk repo id) w.db) ids)))
  unfolding chunks_of_file ◌>>=◌
  chunks_of_file-ok repo path ids w e =
      rw
        (
          file_record-ok repo path w,
          e,
          (get_chunks-ok repo ids (record { db = w.db; made = w.made + 1 })).1,
        )
        refl
