-- ===== src/Executor/Pool.antt =====
-- The pooled connections of crates/laya-store/src/conn.rs and the generation that makes them stale.
use laya_codex.Common.{
  ℕ, zero, suc, ◌+◌, ◌%◌, ◌^◌, ◌≤◌, ◌<◌, ◌≡◌, refl, sym, subst, Bool, Option, none, some, arith,
  true, false, inl, inr, Bool-cases, length, get_elem?, set, All, All-map, length-set,
  get_elem?-set_self, All-set, All-get_elem?,
}
use laya_codex.Executor.{
  Executor, RedisError, RedisResult, ok, err, Round, TryLock, is_transient, slot, send, attempt,
  current, command, open_and_send, use_slot, scan, drop_poisoned,
}

-- The connection of one slot is of generation `g` at most.
abbrev pub OpenedBy : ℕ → Option ℕ → Type 0
OpenedBy g none = Unit {0}
OpenedBy g (some opened) = opened ≤ g

-- No pooled connection is newer than the executor's generation, and the pool is not empty.
pub record IsPool (x : Executor) : Type 0 where
  pub opened : All (OpenedBy x.generation) x.slots
  pub nonempty : 0 < length x.slots

scan-lt :
    (locks : ℕ → TryLock) (waited : Bool) (n start i tries : ℕ)
    → start < n
    → (scan locks waited n start i tries).0 < n
unfolding scan
scan-lt locks waited n start i zero h = h
scan-lt locks waited n start i (suc tries) h =
    let ih = scan-lt locks waited n start (i + 1) tries h in
    let here : (start + i) % n < n = grind arith in ground arith

-- What is proved of one slot's content in turn: the executor with slot `i` set to `v`.
set-IsPool :
    (x : Executor) (i : ℕ) (v : Option ℕ)
    → OpenedBy x.generation v
    → IsPool x
    → IsPool (record x { slots = set x.slots i v })
set-IsPool x i v o p = record {
  opened = All-set (OpenedBy x.generation) x.slots i v p.opened o;
  nonempty = rw length-set p.nonempty;
}

drop_poisoned-IsPool :
    (drops : Bool) (i : ℕ) (x : Executor)
    → IsPool x
    → i < length x.slots
    → IsPool (drop_poisoned drops i x)
      × (i < length (drop_poisoned drops i x).slots)
      × ((drop_poisoned drops i x).generation ≡ x.generation)
unfolding drop_poisoned
drop_poisoned-IsPool true i x p h = (set-IsPool x i none tt p, rw length-set h, refl)
drop_poisoned-IsPool false i x p h = (p, h, refl)

OpenedBy-next : (g : ℕ) (v : Option ℕ) → OpenedBy g v → OpenedBy (g + 1) v
OpenedBy-next g none h = tt
OpenedBy-next g (some o) h = omega arith

-- After a command on slot `i`: connected in the current generation if it succeeded, and empty, with
-- every other connection stale, if it was lost.
abbrev pub AfterCommand {ℓ} : {T : Type ℓ} → ℕ → ℕ → RedisResult T → Executor → Type 0
AfterCommand g i (ok v) x = (x.generation ≡ g) × (get_elem? x.slots i ≡ some (some g))
AfterCommand g i (err e) x =
    is_transient e ≡ true
    → (x.generation ≡ g + 1) × (get_elem? x.slots i ≡ some none) × All (OpenedBy g) x.slots

module _ {ℓ} {T : Type ℓ} where
  slot-lem :
      (x : Executor) (round : Round T)
      → IsPool x
      → IsPool (slot x round).0
        × ((slot x round).1 < length (slot x round).0.slots)
        × ((slot x round).0.generation ≡ x.generation)
  unfolding slot
  slot-lem x round p =
      let n : ℕ = length x.slots in
      let (i, drops) = scan round.locks round.waited_poisoned n (x.next % n) 0 n in
      let start : x.next % n < n = (let q = p.nonempty in grind arith) in
      drop_poisoned-IsPool drops i (record x { next = (x.next + 1) % 2 ^ 64 })
        (record { opened = p.opened; nonempty = p.nonempty })
        (scan-lt round.locks round.waited_poisoned n (x.next % n) 0 n start)

  command-lem :
      (x : Executor) (i : ℕ) (reply : RedisResult T)
      → IsPool x
      → i < length x.slots
      → get_elem? x.slots i ≡ some (some x.generation)
      → x.generation + 1 < 2 ^ 64
      → IsPool (command x i reply).1
        × AfterCommand x.generation i (command x i reply).0 (command x i reply).1
  unfolding command
  command-lem x i (ok v) p lt held small = (p, (refl, held))
  command-lem x i (err e) p lt held small = elim (Bool-cases (is_transient e)) [
    | inr reply ↦ rw reply (p, λ t. cc)
    | inl lost ↦
        let next : (x.generation + 1) % 2 ^ 64 ≡ x.generation + 1 = omega arith in
        let left = set-IsPool x i none tt p in
        rw lost (
          record {
            opened = rw next (All-map _ (OpenedBy-next x.generation) left.opened);
            nonempty = left.nonempty;
          },
          λ t. (next, get_elem?-set_self x.slots i none lt, left.opened),
        )
  ]

  -- The client can connect and the server passes the check, if a connection is wanted.
  abbrev pub Reachable : Round T → Type 0
  Reachable round = (round.verified ≡ none) × (round.connected ≡ none)

  connected-lem :
      (x : Executor) (i : ℕ) (round : Round T)
      → IsPool x
      → i < length x.slots
      → x.generation + 1 < 2 ^ 64
      → (verified connected : Option RedisError)
      → IsPool (open_and_send x i verified connected round.reply).1
        × (verified ≡ none
            → connected ≡ none
            → AfterCommand x.generation i
                (open_and_send x i verified connected round.reply).0
                (open_and_send x i verified connected round.reply).1)
  unfolding open_and_send
  connected-lem x i round p lt small (some e) connected = (p, λ v c. cc)
  connected-lem x i round p lt small none (some e) = (p, λ v c. cc)
  connected-lem x i round p lt small none none =
      let (q, a) =
        command-lem (record x { slots = set x.slots i (some x.generation) }) i round.reply
          (set-IsPool x i (some x.generation) (omega arith) p) (rw length-set lt)
          (get_elem?-set_self x.slots i (some x.generation) lt) small in
      (q, λ v c. a)

  use_slot-lem :
      (x : Executor) (i : ℕ) (round : Round T)
      → IsPool x
      → i < length x.slots
      → x.generation + 1 < 2 ^ 64
      → (found : Option ℕ)
      → ((o : ℕ) → found ≡ some o → get_elem? x.slots i ≡ some (some x.generation))
      → IsPool (use_slot found x i round).1
        × (Reachable round
            → AfterCommand x.generation i (use_slot found x i round).0 (use_slot found x i round).1)
  unfolding use_slot
  use_slot-lem x i round p lt small none held =
      let (q, a) =
        connected-lem (record x { slots = set x.slots i none }) i round (set-IsPool x i none tt p)
          (rw length-set lt) small round.verified round.connected in
      (q, λ r. a r.0 r.1)
  use_slot-lem x i round p lt small (some o) held =
      let (q, a) = command-lem x i round.reply p lt (held o refl) small in (q, λ r. a)

current-lem :
    (g : ℕ) (v : Option (Option ℕ)) (o : ℕ)
    → ((w : Option ℕ) → v ≡ some w → OpenedBy g w)
    → current g v ≡ some o
    → v ≡ some (some g)
unfolding current
current-lem g none o h e = cc
current-lem g (some none) o h e = cc
current-lem g (some (some opened)) o h e = ground (arith, h (some opened))

module _ {ℓ} {T : Type ℓ} where
  send-lem :
      (x : Executor) (i : ℕ) (round : Round T)
      → IsPool x
      → i < length x.slots
      → x.generation + 1 < 2 ^ 64
      → IsPool (send x i round).1
        × (Reachable round → AfterCommand x.generation i (send x i round).0 (send x i round).1)
  unfolding send
  send-lem x i round p lt small =
      use_slot-lem x i round p lt small (current x.generation (get_elem? x.slots i)) λ o e.
        current-lem x.generation (get_elem? x.slots i) o
          (λ w f. All-get_elem? (OpenedBy x.generation) x.slots i p.opened f) e

  -- One attempt, whatever the locks, the server and the connect answer: the pool holds no connection
  -- newer than the generation. If the server can be reached, a command that succeeds leaves its
  -- connection in a slot, opened in the current generation; and one whose connection is lost moves
  -- the generation on by one and leaves every pooled connection older than it, so none of these is
  -- used again.
  pub attempt-IsPool :
      (x : Executor) (round : Round T)
      → IsPool x
      → x.generation + 1 < 2 ^ 64
      → IsPool (attempt x round).1
        × (Reachable round
            → (i : ℕ) × AfterCommand x.generation i (attempt x round).0 (attempt x round).1)
  unfolding attempt
  attempt-IsPool x round p small =
      let (x', i) = slot x round in
      let (p', lt, g) = slot-lem x round p in
      let small' : x'.generation + 1 < 2 ^ 64 = subst (λ k. k + 1 < 2 ^ 64) (sym g) small in
      let (q, a) = send-lem x' i round p' lt small' in
      (q, λ r. (i, subst (λ k. AfterCommand k i (send x' i round).0 (send x' i round).1) g (a r)))
