-- ===== src/Store/Runs.antt =====
-- What a pipeline leaves of a hash, on any server that keeps to `IsServer`.
use laya_codex.Common.{
  ℕ, ◌≡◌, refl, ◌∙◌, true, false, not, ◌||◌, List, [], ◌∷◌, ◌++◌, arith, Bool-cases, inl, inr, take,
  map, All, All-map, All-take,
}
use laya_codex.Common.Repeats.{NoRepeats}
use laya_codex.Common.Text.{Text, text_eq}
use laya_codex.Store.Codec.{Hash}
use laya_codex.Store.Codec.Exact.{HasFields}
use laya_codex.Store.Server.{
  Command, hset, key_of, changes_type, name_of, Server, IsServer, run_all, run_lost,
}

-- A command on another key.
abbrev pub IsApart : Text → Command → Type 0
IsApart key command = text_eq (key_of command) key ≡ false

-- A command that leaves a hash behind the key.
abbrev pub KeepsHash : Text → Command → Type 0
KeepsHash key command = (not (changes_type command) || not (text_eq (key_of command) key)) ≡ true

module _ (S : Server) where
  pub run_all-append :
      (cs ds : List Command) (db : S.Db) → run_all S (cs ++ ds) db ≡ run_all S ds (run_all S cs db)
  unfolding run_all
  run_all-append [] ds db = refl
  run_all-append (c ∷ cs) ds db = run_all-append cs ds (S.apply c db)

module _ {S : Server} (laws : IsServer S) (key : Text) where
  pub hgetall-run_all :
      (cs : List Command) (db : S.Db)
      → All (IsApart key) cs
      → S.hgetall key (run_all S cs db) ≡ S.hgetall key db
  unfolding run_all
  hgetall-run_all [] db a = refl
  hgetall-run_all (c ∷ cs) db a =
      hgetall-run_all cs (S.apply c db) a.1 ∙ laws.other_hash c key db a.0

  holds_hash-apply :
      (c : Command) (db : S.Db)
      → KeepsHash key c
      → S.holds_hash key db ≡ true
      → S.holds_hash key (S.apply c db) ≡ true
  holds_hash-apply c db k h = elim (Bool-cases (changes_type c)) [
    | inl e ↦ laws.other_type c key db (ground arith) ∙ h
    | inr e ↦ laws.keeps_type c key db e h
  ]

  pub holds_hash-run_all :
      (cs : List Command) (db : S.Db)
      → All (KeepsHash key) cs
      → S.holds_hash key db ≡ true
      → S.holds_hash key (run_all S cs db) ≡ true
  unfolding run_all
  holds_hash-run_all [] db a h = h
  holds_hash-run_all (c ∷ cs) db a h =
      holds_hash-run_all cs (S.apply c db) a.1 (holds_hash-apply c db a.0 h)

  pub holds_hash-run_lost :
      (lost : List ℕ) (cs : List Command) (db : S.Db)
      → All (KeepsHash key) cs
      → S.holds_hash key db ≡ true
      → S.holds_hash key (run_lost S lost cs db) ≡ true
  unfolding run_lost
  holds_hash-run_lost [] cs db a h = h
  holds_hash-run_lost (n ∷ lost) cs db a h =
      holds_hash-run_lost lost cs _ a
        (holds_hash-run_all (take n cs) db (All-take (KeepsHash key) n cs a) h)

  -- The fields that a pipeline sets, if the commands after are on other keys.
  pub HasFields-run_all :
      (fields : Hash) (cs : List Command) (db : S.Db)
      → NoRepeats text_eq (map name_of fields)
      → HasFields fields fields
      → S.holds_hash key db ≡ true
      → All (IsApart key) cs
      → HasFields fields (S.hgetall key (run_all S (hset key fields ∷ cs) db))
  unfolding run_all
  HasFields-run_all fields cs db r own h a =
      rw (hgetall-run_all cs (S.apply (hset key fields) db) a)
        (All-map fields (λ f e. laws.hset_field key fields db h r f.0 f.1 e) own)
