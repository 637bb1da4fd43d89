-- ===== src/Store/Written.antt =====
-- What a pipeline of `put_file` leaves behind the keys of its chunks and of its file.
use laya_codex.Common.{
  ℕ, ◌≡◌, refl, sym, ◌∙◌, ap, subst, false, true, Bool-cases, inl, inr, List, [], ◌∷◌, ◌++◌, map,
  any, arith, All,
}
use laya_codex.Common.Repeats.{NoRepeats}
use laya_codex.Common.Text.{Text, text_eq, text_eq_iff, text_eq_refl, has}
use laya_codex.Core.{Chunk}
use mathlib.Core.List.{append_assoc}
use laya_codex.Store.Keys
use laya_codex.Store.Codec.{field_value, fields_of}
use laya_codex.Store.Codec.Exact.{HasFields}
use laya_codex.Store.Server.{Command, name_of, Server, IsServer, run_all}
use laya_codex.Store.Frequencies.{index_terms}
use laya_codex.Store.Pipeline.{FileChunk, entry_id, new_entries, entry_commands, entries_commands}
use laya_codex.Store.Runs.{IsApart, run_all-append, holds_hash-run_all, HasFields-run_all}
use laya_codex.Store.Untouched.{IsHashKey-chunk, KeepsHash-entry_commands, IsApart-after}

fields_of-own : (c : Chunk) (terms : Text) → HasFields (fields_of c terms) (fields_of c terms)
unfolding fields_of field_value text_eq
fields_of-own c terms =
    (refl, (refl, (refl, (refl, (refl, (refl, (refl, (refl, (refl, (refl, tt))))))))))

fields_of-NoRepeats :
    (c : Chunk) (terms : Text) → NoRepeats text_eq (map name_of (fields_of c terms))
unfolding fields_of text_eq
fields_of-NoRepeats c terms =
    (refl, (refl, (refl, (refl, (refl, (refl, (refl, (refl, (refl, (refl, tt))))))))))

module _ {S : Server} (laws : IsServer S) (repo : Text) (max_tf : ℕ) where
  -- Every chunk key holds a hash, or nothing.
  abbrev pub HoldsChunks : S.Db → Type 0
  HoldsChunks db = (id : Text) → S.holds_hash (Keys.chunk repo id) db ≡ true

  -- The fields of the chunk are behind its key.
  abbrev pub IsWritten : S.Db → FileChunk → Type 0
  IsWritten db e =
      HasFields (fields_of e.chunk (index_terms e.chunk max_tf))
        (S.hgetall (Keys.chunk repo e.id) db)

  pub entries_commands-IsWritten :
      (entries : List FileChunk) (rest : List Command) (db : S.Db)
      → HoldsChunks db
      → ((id : Text) → All (IsApart (Keys.chunk repo id)) rest)
      → NoRepeats text_eq (map entry_id entries)
      → All (IsWritten (run_all S (entries_commands repo max_tf entries ++ rest) db)) entries
  unfolding entries_commands entry_commands
  entries_commands-IsWritten [] rest db h a r = tt
  entries_commands-IsWritten (e ∷ entries) rest db h a r = (
    HasFields-run_all laws (Keys.chunk repo e.id) (fields_of e.chunk (index_terms e.chunk max_tf)) _
        db (fields_of-NoRepeats e.chunk (index_terms e.chunk max_tf))
        (fields_of-own e.chunk (index_terms e.chunk max_tf)) (h e.id)
        (IsApart-after repo max_tf e entries rest r.0 (a e.id)),
    subst (λ db'. All (IsWritten db') entries)
        (sym (
          ap (λ cs. run_all S cs db)
            (append_assoc (entry_commands repo max_tf e) (entries_commands repo max_tf entries)
              rest)
          ∙ run_all-append S (entry_commands repo max_tf e)
              (entries_commands repo max_tf entries ++ rest) db))
        (entries_commands-IsWritten entries rest (run_all S (entry_commands repo max_tf e) db)
          (λ id.
            holds_hash-run_all laws (Keys.chunk repo id) (entry_commands repo max_tf e) db
              (KeepsHash-entry_commands repo (Keys.chunk repo id) (IsHashKey-chunk repo id) max_tf
                e)
              (h id))
          a r.1),
  )

unseen-neq :
    (seen : List Text) (t u : Text) → has t seen ≡ true → has u seen ≡ false → text_eq t u ≡ false
unseen-neq seen t u h n = elim (Bool-cases (text_eq t u)) [
  | inl e ↦
      let clash : true ≡ false = sym h ∙ ap (λ s. has s seen) ((text_eq_iff t u).0 e) ∙ n in cc
  | inr e ↦ e
]

-- No id comes twice, and none that was seen before.
new_entries-unseen :
    (id : Chunk → Text) (seen : List Text) (chunks : List Chunk) (t : Text)
    → has t seen ≡ true
    → any (text_eq t) (map entry_id (new_entries id seen chunks)) ≡ false
unfolding new_entries has
new_entries-unseen id seen [] t h = refl
new_entries-unseen id seen (c ∷ chunks) t h = elim (Bool-cases (has (id c) seen)) [
  | inl e ↦ rw e (new_entries-unseen id seen chunks t h)
  | inr e ↦ rw e (
      ground (
        arith,
        unseen-neq seen t (id c) h e,
        new_entries-unseen id (id c ∷ seen) chunks t (ground arith),
      ))
]

pub new_entries-NoRepeats :
    (id : Chunk → Text) (seen : List Text) (chunks : List Chunk)
    → NoRepeats text_eq (map entry_id (new_entries id seen chunks))
unfolding new_entries has
new_entries-NoRepeats id seen [] = tt
new_entries-NoRepeats id seen (c ∷ chunks) = elim (Bool-cases (has (id c) seen)) [
  | inl e ↦ rw e (new_entries-NoRepeats id seen chunks)
  | inr e ↦ rw e (
    new_entries-unseen id (id c ∷ seen) chunks (id c) (rw (text_eq_refl (id c)) refl),
    new_entries-NoRepeats id (id c ∷ seen) chunks,
  )
]
