-- ===== src/Store/Memory.antt =====
-- A server in memory that does what `IsServer` says.
use laya_codex.Common.{
  ℕ, ◌+◌, ◌-◌, ◌≡◌, refl, Bool, true, false, not, Option, none, some, List, [], ◌∷◌, ◌++◌, arith,
  map, if◌then◌else◌, Bool-cases, inl, inr, keep_if,
}
use laya_codex.Common.Integers.{ℤ, pos, negsuc}
use laya_codex.Common.Decimal.{decimal, parse_u32}
use laya_codex.Common.Text.{Text, text_eq, text_eq_refl, has}
use laya_codex.Store.Codec.{Hash, field_value}
use laya_codex.Store.Server.{
  Command, hset, del, sadd, srem, hincrby, set_value, key_of, changes_type, name_of, Server,
  IsServer,
}

pub data Value : Type 0 where
  hash : Hash → Value
  set : List Text → Value
  string : Text → Value

added : ℕ → ℤ → ℕ
added n (pos d) = n + d
added n (negsuc d) = n - d - 1

number_at : Text → Hash → ℕ
unfolding field_value parse_u32
number_at name h = elim (field_value name h) [
  | none ↦ 0
  | some t ↦ elim (parse_u32 t) [ none ↦ 0 | some n ↦ n ]
]

change : Command → Value → Value
unfolding has number_at added decimal
change (hset key fields) (hash h) =
    hash (fields ++ keep_if (λ f. not (has f.0 (map name_of fields))) h)
change (hset key fields) v = v
change (del key) v = hash []
change (sadd key member) (hash []) = set (member ∷ [])
change (sadd key member) (set members) =
    set (if has member members then members else member ∷ members)
change (sadd key member) v = v
change (srem key gone) (set members) = set (keep_if (λ m. not (has m gone)) members)
change (srem key gone) v = v
change (hincrby key field delta) (hash h) =
    hash (
      (field, decimal (added (number_at field h) delta)) ∷ keep_if (λ f. not (text_eq f.0 field)) h)
change (hincrby key field delta) v = v
change (set_value key value ttl) v = string value

is_hash : Value → Bool
is_hash (hash h) = true
is_hash v = false

fields_in : Value → Hash
fields_in (hash h) = h
fields_in v = []

members_in : Value → List Text
members_in (set members) = members
members_in v = []

string_in : Value → Option Text
string_in (string t) = some t
string_in v = none

unfoldable pub memory : Server
unfolding change key_of text_eq is_hash fields_in members_in string_in
memory = record {
  Db = Text → Value;
  apply =
      λ command db key. if text_eq (key_of command) key then change command (db key) else db key;
  holds_hash = λ key db. is_hash (db key);
  hgetall = λ key db. fields_in (db key);
  smembers = λ key db. members_in (db key);
  get = λ key db. string_in (db key);
}

is_hash-change :
    (c : Command) (v : Value)
    → changes_type c ≡ false
    → is_hash v ≡ true
    → is_hash (change c v) ≡ true
unfolding changes_type is_hash change
is_hash-change (hset key fields) (hash h) t e = refl
is_hash-change (del key) v t e = refl
is_hash-change (srem key gone) (hash h) t e = refl
is_hash-change (hincrby key field delta) (hash h) t e = refl
is_hash-change c v t e = cc

field_value-append :
    (name value : Text) (fields h : Hash)
    → field_value name fields ≡ some value
    → field_value name (fields ++ h) ≡ some value
unfolding field_value
field_value-append name value [] h e = cc
field_value-append name value (f ∷ fields) h e =
    ground (arith, field_value-append name value fields h)

hset_field-memory :
    (fields : Hash) (v : Value) (key name value : Text)
    → is_hash v ≡ true
    → field_value name fields ≡ some value
    → field_value name (fields_in (change (hset key fields) v)) ≡ some value
unfolding is_hash fields_in change
hset_field-memory fields (hash h) key name value e f = field_value-append name value fields _ f
hset_field-memory fields v key name value e f = cc

pub memory-IsServer : IsServer memory
unfolding memory
memory-IsServer = record {
  other_hash = λ c key db e. rw e refl;
  other_type = λ c key db e. rw e refl;
  keeps_type = λ c key db t e. elim (Bool-cases (text_eq (key_of c) key)) [
    | inl a ↦ rw a (is_hash-change c (db key) t e)
    | inr a ↦ rw a e
  ];
  hset_field = λ key fields db e r name value f.
      rw (text_eq_refl key) (hset_field-memory fields (db key) key name value e f);
}
