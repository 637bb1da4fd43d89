-- ===== src/Store/Untouched.antt =====
-- Which keys the commands of `put_file` write: a pipeline leaves hashes behind the keys of chunks and
-- files, and after the commands of a chunk no other is on its key.
use laya_codex.Common.{
  ℕ, ◌≡◌, refl, false, List, [], ◌∷◌, ◌++◌, Bool-cases, inl, inr, map, any, arith, ◌∙◌, All,
  All-append, All-mapped,
}
use laya_codex.Common.Text.{Text, text_eq, text_eq_sym, codes}
use laya_codex.Store.Keys
use laya_codex.Store.Keys.{scoped, text_eq-scoped}
use laya_codex.Store.Codec.{clean_idents}
use laya_codex.Store.Server.{Command, sadd, srem, key_of, changes_type}
use laya_codex.Store.Frequencies.{Deltas, is_zero}
use laya_codex.Store.Pipeline.{
  FileRecord, FileChunk, entry_id, df_commands, set_removal, hash_removal, chunk_removal,
  entry_commands, entries_commands, record_commands, put_commands,
}
use laya_codex.Store.Runs.{IsApart, KeepsHash}

-- A key that is not one of the sets of the repository.
pub record IsHashKey (repo key : Text) : Type 0 where
  pub not_defines : (d : Text) → text_eq (Keys.defines repo d) key ≡ false
  pub not_refs : (r : Text) → text_eq (Keys.refs repo r) key ≡ false
  pub not_files : text_eq (Keys.files repo) key ≡ false

pub IsHashKey-chunk : (repo id : Text) → IsHashKey repo (Keys.chunk repo id)
unfolding Keys.defines Keys.refs Keys.files Keys.chunk text_eq
IsHashKey-chunk repo id = record {
  not_defines = λ d. text_eq-scoped repo (codes "d:" ++ d) (codes "c:" ++ id);
  not_refs = λ r. text_eq-scoped repo (codes "r:" ++ r) (codes "c:" ++ id);
  not_files = text_eq-scoped repo (codes "files") (codes "c:" ++ id);
}

pub IsHashKey-file : (repo path : Text) → IsHashKey repo (Keys.file repo path)
unfolding Keys.defines Keys.refs Keys.files Keys.file text_eq
IsHashKey-file repo path = record {
  not_defines = λ d. text_eq-scoped repo (codes "d:" ++ d) (codes "f:" ++ path);
  not_refs = λ r. text_eq-scoped repo (codes "r:" ++ r) (codes "f:" ++ path);
  not_files = text_eq-scoped repo (codes "files") (codes "f:" ++ path);
}

module _ (repo key : Text) where
  KeepsHash-sadd : (k member : Text) → text_eq k key ≡ false → KeepsHash key (sadd k member)
  unfolding changes_type key_of
  KeepsHash-sadd k member h = rw h refl

  KeepsHash-set_removal :
      (ids : List Text) (old : FileRecord) → All (KeepsHash key) (set_removal repo ids old)
  unfolding set_removal changes_type
  KeepsHash-set_removal [] old = tt
  KeepsHash-set_removal (id ∷ ids) old =
      All-append (KeepsHash key) (map (λ d. srem (Keys.defines repo d) (id ∷ ids)) old.defines) _
        (All-mapped (KeepsHash key) _ old.defines (λ d. refl))
        (All-mapped (KeepsHash key) _ old.refs (λ r. refl))

  KeepsHash-hash_removal : (ids : List Text) → All (KeepsHash key) (hash_removal repo ids)
  unfolding hash_removal changes_type
  KeepsHash-hash_removal [] = tt
  KeepsHash-hash_removal (id ∷ ids) = (refl, (refl, KeepsHash-hash_removal ids))

  KeepsHash-df_commands : (deltas : Deltas) → All (KeepsHash key) (df_commands repo deltas)
  unfolding df_commands changes_type
  KeepsHash-df_commands [] = tt
  KeepsHash-df_commands (entry ∷ deltas) = elim (Bool-cases (is_zero entry.1)) [
    | inl e ↦ rw e (KeepsHash-df_commands deltas)
    | inr e ↦ rw e (refl, KeepsHash-df_commands deltas)
  ]

  module _ (h : IsHashKey repo key) (max_tf : ℕ) where
    pub KeepsHash-entry_commands :
        (e : FileChunk) → All (KeepsHash key) (entry_commands repo max_tf e)
    unfolding entry_commands changes_type
    KeepsHash-entry_commands e = (
      refl,
      All-append (KeepsHash key)
          (map (λ d. sadd (Keys.defines repo d) e.id) (clean_idents e.chunk.defines)) _
          (All-mapped (KeepsHash key) _ _
            (λ d. KeepsHash-sadd (Keys.defines repo d) e.id (h.not_defines d)))
          (All-mapped (KeepsHash key) _ _
            (λ r. KeepsHash-sadd (Keys.refs repo r) e.id (h.not_refs r))),
    )

    KeepsHash-entries_commands :
        (entries : List FileChunk) → All (KeepsHash key) (entries_commands repo max_tf entries)
    unfolding entries_commands
    KeepsHash-entries_commands [] = tt
    KeepsHash-entries_commands (e ∷ entries) =
        All-append (KeepsHash key) (entry_commands repo max_tf e) _ (KeepsHash-entry_commands e)
          (KeepsHash-entries_commands entries)

    pub KeepsHash-put_commands :
        (path file_hash : Text) (old : FileRecord) (removed : List Text) (entries : List FileChunk)
        (deltas : Deltas)
        → All (KeepsHash key) (put_commands repo path file_hash max_tf old removed entries deltas)
    unfolding put_commands chunk_removal record_commands changes_type
    KeepsHash-put_commands path file_hash old removed entries deltas =
        All-append (KeepsHash key) (chunk_removal repo removed _) _
          (All-append (KeepsHash key) (hash_removal repo removed) _ (KeepsHash-hash_removal removed)
            (KeepsHash-set_removal removed _))
          (All-append (KeepsHash key) (set_removal repo old.ids old) _
            (KeepsHash-set_removal old.ids old)
            (All-append (KeepsHash key) (entries_commands repo max_tf entries) _
              (KeepsHash-entries_commands entries)
              (All-append (KeepsHash key) (df_commands repo deltas) _ (KeepsHash-df_commands deltas)
                (refl, (KeepsHash-sadd (Keys.files repo) path h.not_files, tt)))))

module _ (repo : Text) where
  text_eq-chunk : (a b : Text) → text_eq (Keys.chunk repo a) (Keys.chunk repo b) ≡ text_eq a b
  unfolding Keys.chunk text_eq
  text_eq-chunk a b = text_eq-scoped repo (codes "c:" ++ a) (codes "c:" ++ b)

  IsApart-df_commands :
      (id : Text) (deltas : Deltas) → All (IsApart (Keys.chunk repo id)) (df_commands repo deltas)
  unfolding df_commands key_of Keys.chunk Keys.df text_eq
  IsApart-df_commands id [] = tt
  IsApart-df_commands id (entry ∷ deltas) = elim (Bool-cases (is_zero entry.1)) [
    | inl e ↦ rw e (IsApart-df_commands id deltas)
    | inr e ↦
        rw e (text_eq-scoped repo (codes "df") (codes "c:" ++ id), IsApart-df_commands id deltas)
  ]

  -- What comes after the chunks in a pipeline.
  pub IsApart-rest :
      (path file_hash id : Text) (entries : List FileChunk) (deltas : Deltas)
      → All
          (IsApart (Keys.chunk repo id))
          (df_commands repo deltas ++ record_commands repo path file_hash entries)
  unfolding record_commands key_of Keys.chunk Keys.file text_eq
  IsApart-rest path file_hash id entries deltas =
      All-append (IsApart (Keys.chunk repo id)) (df_commands repo deltas) _
        (IsApart-df_commands id deltas)
        (
          text_eq-scoped repo (codes "f:" ++ path) (codes "c:" ++ id),
          ((IsHashKey-chunk repo id).not_files, tt),
        )

  -- The memberships of a chunk.
  IsApart-memberships :
      (id : Text) (e : FileChunk)
      → All (IsApart (Keys.chunk repo id)) (
          map (λ d. sadd (Keys.defines repo d) e.id) (clean_idents e.chunk.defines)
          ++ map (λ r. sadd (Keys.refs repo r) e.id) (clean_idents e.chunk.refs))
  unfolding key_of
  IsApart-memberships id e =
      All-append (IsApart (Keys.chunk repo id))
        (map (λ d. sadd (Keys.defines repo d) e.id) (clean_idents e.chunk.defines)) _
        (All-mapped (IsApart (Keys.chunk repo id)) _ _ (IsHashKey-chunk repo id).not_defines)
        (All-mapped (IsApart (Keys.chunk repo id)) _ _ (IsHashKey-chunk repo id).not_refs)

  IsApart-entries_commands :
      (max_tf : ℕ) (id : Text) (entries : List FileChunk)
      → any (text_eq id) (map entry_id entries) ≡ false
      → All (IsApart (Keys.chunk repo id)) (entries_commands repo max_tf entries)
  unfolding entries_commands entry_commands key_of
  IsApart-entries_commands max_tf id [] n = tt
  IsApart-entries_commands max_tf id (e ∷ entries) n = (
    text_eq-chunk e.id id ∙ text_eq_sym e.id id ∙ ground arith,
    All-append (IsApart (Keys.chunk repo id))
        (map (λ d. sadd (Keys.defines repo d) e.id) (clean_idents e.chunk.defines)
          ++ map (λ r. sadd (Keys.refs repo r) e.id) (clean_idents e.chunk.refs))
        _ (IsApart-memberships id e) (IsApart-entries_commands max_tf id entries (ground arith)),
  )

  -- What comes after the hash of one chunk, the other chunks having other ids.
  pub IsApart-after :
      (max_tf : ℕ) (e : FileChunk) (entries : List FileChunk) (rest : List Command)
      → any (text_eq e.id) (map entry_id entries) ≡ false
      → All (IsApart (Keys.chunk repo e.id)) rest
      → All (IsApart (Keys.chunk repo e.id)) (
          ((map (λ d. sadd (Keys.defines repo d) e.id) (clean_idents e.chunk.defines)
              ++ map (λ r. sadd (Keys.refs repo r) e.id) (clean_idents e.chunk.refs))
            ++ entries_commands repo max_tf entries)
          ++ rest)
  IsApart-after max_tf e entries rest n a =
      All-append (IsApart (Keys.chunk repo e.id)) _ rest
        (All-append (IsApart (Keys.chunk repo e.id)) _ (entries_commands repo max_tf entries)
          (IsApart-memberships e.id e) (IsApart-entries_commands max_tf e.id entries n))
        a
