-- ===== src/Session/Keys.antt =====
-- The keys that crates/laya-cli/src/session.rs holds as sent: none twice, and the newest of them.
use laya_codex.Common.{
  ◌-◌, ◌≤◌, ◌≡◌, inl, inr, List, [], ◌∷◌, ◌++◌, arith, any, length, length-drop, Bool-cases,
}
use laya_codex.Common.Repeats.{NoRepeats, NoRepeats-drop, NoRepeats-snoc}
use laya_codex.Common.Text.{text_eq_sym}
use laya_codex.Session.{Key, key_eq, max_sent, push_key, push_keys, newest}

key_eq_sym : (a b : Key) → key_eq a b ≡ key_eq b a
unfolding key_eq
key_eq_sym a b = ground (arith, text_eq_sym a.path b.path)

NoRepeats-push_keys :
    (sent keys : List Key) → NoRepeats key_eq sent → NoRepeats key_eq (push_keys sent keys)
unfolding push_keys push_key
NoRepeats-push_keys sent [] h = h
NoRepeats-push_keys sent (k ∷ keys) h = elim (Bool-cases (any (key_eq k) sent)) [
  | inl e ↦ rw e (NoRepeats-push_keys sent keys h)
  | inr e ↦
      rw e (NoRepeats-push_keys (sent ++ k ∷ []) keys (NoRepeats-snoc key_eq key_eq_sym sent k h e))
]

pub length-newest : (sent : List Key) → length (newest sent) ≤ max_sent
unfolding newest
length-newest sent = (let e = length-drop (length sent - max_sent) sent in omega arith)

pub NoRepeats-newest :
    (sent keys : List Key) → NoRepeats key_eq sent → NoRepeats key_eq (newest (push_keys sent keys))
unfolding newest
NoRepeats-newest sent keys h =
    NoRepeats-drop key_eq (length (push_keys sent keys) - max_sent) (push_keys sent keys)
      (NoRepeats-push_keys sent keys h)
