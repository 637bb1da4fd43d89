-- ===== src/Store/Server.antt =====
-- What crates/laya-store/src/store.rs sends through `Executor::run`, and the server behind it. Each
-- call of `run` is one trip: the pipelines that were lost on the way, each after some of its commands
-- had been applied, and whether the last attempt came back with an error.
use laya_codex.Common.{ℕ, ◌+◌, ◌≡◌, Bool, true, false, Option, none, some, List, [], ◌∷◌, take, map}
use laya_codex.Common.Integers.{ℤ}
use laya_codex.Common.Repeats.{NoRepeats}
use laya_codex.Common.Text.{Text, text_eq}
use laya_codex.Executor.{Error}
use laya_codex.Store.Codec.{Hash, field_value}

-- The commands that write; the last one with a number of seconds, 0 for no expiry.
pub data Command : Type 0 where
  hset : Text → Hash → Command
  del : Text → Command
  sadd : Text → Text → Command
  srem : Text → List Text → Command
  hincrby : Text → Text → ℤ → Command
  set_value : Text → Text → ℕ → Command

unfoldable pub key_of : Command → Text
key_of (hset key fields) = key
key_of (del key) = key
key_of (sadd key member) = key
key_of (srem key members) = key
key_of (hincrby key field delta) = key
key_of (set_value key value ttl) = key

-- Can the command turn a key that holds a hash, or nothing, into another type?
unfoldable pub changes_type : Command → Bool
changes_type (sadd key member) = true
changes_type (set_value key value ttl) = true
changes_type _ = false

-- A server: what a command does, and the answers of TYPE (is it a hash, or nothing?), HGETALL,
-- SMEMBERS and GET.
pub record Server : Type 1 where
  pub Db : Type 0
  pub apply : Command → Db → Db
  pub holds_hash : Text → Db → Bool
  pub hgetall : Text → Db → Hash
  pub smembers : Text → Db → List Text
  pub get : Text → Db → Option Text

abbrev pub name_of : Text × Text → Text
name_of field = field.0

-- What the code relies on of the documented commands.
pub record IsServer (S : Server) : Type 0 where
  pub other_hash :
      (command : Command) (key : Text) (db : S.Db)
      → text_eq (key_of command) key ≡ false
      → S.hgetall key (S.apply command db) ≡ S.hgetall key db
  pub other_type :
      (command : Command) (key : Text) (db : S.Db)
      → text_eq (key_of command) key ≡ false
      → S.holds_hash key (S.apply command db) ≡ S.holds_hash key db
  pub keeps_type :
      (command : Command) (key : Text) (db : S.Db)
      → changes_type command ≡ false
      → S.holds_hash key db ≡ true
      → S.holds_hash key (S.apply command db) ≡ true
  pub hset_field :
      (key : Text) (fields : Hash) (db : S.Db)
      → S.holds_hash key db ≡ true
      → NoRepeats text_eq (map name_of fields)
      → (name value : Text) → field_value name fields ≡ some value
      → field_value name (S.hgetall key (S.apply (hset key fields) db)) ≡ some value

pub record Trip : Type 0 where
  pub lost : List ℕ
  pub failure : Option Error

pub data Result (A : Type 0) : Type 0 where
  ok : A → Result A
  err : Error → Result A

answer : {A : Type 0} → Option Error → A → Result A
answer none a = ok a
answer (some e) a = err e

module _ (S : Server) where
  -- The database, and the trips made so far.
  pub record World : Type 0 where
    pub db : S.Db
    pub made : ℕ

  abbrev pub Action : Type 0 → Type 0
  Action A = World → Result A × World

  unfoldable pub run_all : List Command → S.Db → S.Db
  run_all [] db = db
  run_all (command ∷ commands) db = run_all commands (S.apply command db)

  -- The attempts that were lost after some commands.
  unfoldable pub run_lost : List ℕ → List Command → S.Db → S.Db
  unfolding run_all
  run_lost [] commands db = db
  run_lost (n ∷ lost) commands db = run_lost lost commands (run_all (take n commands) db)

  -- The last attempt: it goes through unless the trip fails.
  last_attempt : Option Error → List Command → S.Db → S.Db
  unfolding run_all
  last_attempt none commands db = run_all commands db
  last_attempt (some e) commands db = db

module _ {S : Server} where
  abbrev pub pure : {A : Type 0} → A → Action S A
  pure a w = (ok a, w)

  unfoldable pub and_then :
      {A B : Type 0} → Result A × World S → (A → Action S B) → Result B × World S
  and_then (ok a, w) f = f a w
  and_then (err e, w) f = (err e, w)

  infixl 5 ◌>>=◌
  unfoldable pub ◌>>=◌ : {A B : Type 0} → Action S A → (A → Action S B) → Action S B
  unfolding and_then
  (m >>= f) w = and_then (m w) f

  -- A trip that only reads.
  unfoldable pub ask : {A : Type 0} → (ℕ → Trip) → (S.Db → A) → Action S A
  unfolding answer
  ask trips query w =
      (answer (trips w.made).failure (query w.db), record { db = w.db; made = w.made + 1 })

  -- A trip with a pipeline of commands.
  unfoldable pub send : (ℕ → Trip) → List Command → Action S (Unit {0})
  unfolding answer run_lost last_attempt
  send trips commands w =
      let trip = trips w.made in
      (
        answer trip.failure tt,
        record {
          db = last_attempt S trip.failure commands (run_lost S trip.lost commands w.db);
          made = w.made + 1;
        },
      )
