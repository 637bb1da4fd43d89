-- ===== src/Executor.antt =====
-- crates/laya-store/src/conn.rs: the connection pool and the retrying executor over the breaker.
-- The redis client is not part of the repository: what it answers (a connect, a command) is an
-- input, one `Round` for each attempt. Times are inputs too, and the sleep between attempts, which
-- changes no state, is left out.
mod Pool
mod Retry
mod Policy
mod Tests
use laya_codex.Common.{
  ℕ, zero, suc, ◌+◌, ◌%◌, ◌^◌, max, Bool, true, false, not, ◌&&◌, ◌||◌, Option, none, some, List,
  [], ◌∷◌, ltb, ◌==◌, if◌then◌else◌, length, get_elem?, set,
}
use laya_codex.Breaker
use laya_codex.Breaker.{CircuitBreaker}

pub data OpKind : Type 0 where
  query bulk : OpKind

-- What the redis crate says of an error.
pub record RedisError : Type 0 where
  pub io_error : Bool
  pub timeout : Bool
  pub connection_dropped : Bool
  pub connection_refusal : Bool
  pub unrecoverable_error : Bool
  pub parse_kind : Bool

unfoldable pub is_transient : RedisError → Bool
is_transient e =
    e.io_error || e.timeout || e.connection_dropped || e.connection_refusal || e.unrecoverable_error
    || e.parse_kind

pub data RedisResult {ℓ} (T : Type ℓ) : Type ℓ where
  ok : T → RedisResult T
  err : RedisError → RedisResult T

-- `Mutex::try_lock` on one slot.
pub data TryLock : Type 0 where
  locked poisoned would_block : TryLock

-- What one attempt meets: the slots' locks (and whether the one it waits for is poisoned), the
-- server check, the connect, and the command on the connection.
pub record Round {ℓ} (T : Type ℓ) : Type ℓ where
  pub locks : ℕ → TryLock
  pub waited_poisoned : Bool
  pub verified : Option RedisError
  pub connected : Option RedisError
  pub reply : RedisResult T

-- `Executor`; a pooled connection is the generation in which it was opened.
pub record Executor : Type 0 where
  pub max_retries : ℕ
  pub slots : List (Option ℕ)
  pub next : ℕ
  pub generation : ℕ
  pub breaker : CircuitBreaker

empty_slots : ℕ → List (Option ℕ)
empty_slots zero = []
empty_slots (suc n) = none ∷ empty_slots n

unfoldable pub new : ℕ → ℕ → ℕ → ℕ → Executor
unfolding empty_slots
new pool_size max_retries threshold cooldown = record {
  max_retries = max_retries;
  slots = empty_slots (max pool_size 1);
  next = 0;
  generation = 0;
  breaker = Breaker.new threshold cooldown;
}

-- The rest of the scan of `slot`, `tries` slots of `n` left, from `start + i`: the slot taken, and
-- whether its connection is dropped because the lock was poisoned.
scan : (ℕ → TryLock) → Bool → ℕ → ℕ → ℕ → ℕ → ℕ × Bool
scan locks waited n start i zero = (start, waited)
scan locks waited n start i (suc tries) =
    let rest = scan locks waited n start (i + 1) tries in
    elim (locks ((start + i) % n)) [
      | locked ↦ ((start + i) % n, false)
      | poisoned ↦ ((start + i) % n, true)
      | would_block ↦ rest
    ]

-- `*g = None` on a poisoned lock.
drop_poisoned : Bool → ℕ → Executor → Executor
drop_poisoned true i x = record x { slots = set x.slots i none }
drop_poisoned false i x = x

-- The executor after `next.fetch_add` on a `usize`, with the slot taken.
unfoldable pub slot {ℓ} : {T : Type ℓ} → Executor → Round T → Executor × ℕ
unfolding scan drop_poisoned
slot x round =
    let n : ℕ = length x.slots in
    let (i, drops) = scan round.locks round.waited_poisoned n (x.next % n) 0 n in
    (drop_poisoned drops i (record x { next = (x.next + 1) % 2 ^ 64 }), i)

-- A slot with a connection of an older generation counts as empty.
current : ℕ → Option (Option ℕ) → Option ℕ
current generation none = none
current generation (some none) = none
current generation (some (some opened)) = if ltb opened generation then none else some opened

-- The command, on the connection now in slot `i`.
command {ℓ} : {T : Type ℓ} → Executor → ℕ → RedisResult T → RedisResult T × Executor
command x i (ok v) = (ok v, x)
command x i (err e) =
    if is_transient e
    then (err e, record x { slots = set x.slots i none; generation = (x.generation + 1) % 2 ^ 64 })
    else (err e, x)

-- Connects an empty slot, after the server check, and sends the command.
open_and_send {ℓ} :
    {T : Type ℓ}
    → Executor
    → ℕ
    → Option RedisError
    → Option RedisError
    → RedisResult T
    → RedisResult T × Executor
unfolding command
open_and_send x i (some e) connected reply = (err e, x)
open_and_send x i none (some e) reply = (err e, x)
open_and_send x i none none reply =
    command (record x { slots = set x.slots i (some x.generation) }) i reply

-- With the connection found in slot `i`, or none.
use_slot {ℓ} : {T : Type ℓ} → Option ℕ → Executor → ℕ → Round T → RedisResult T × Executor
unfolding command open_and_send
use_slot (some opened) x i round = command x i round.reply
use_slot none x i round =
    open_and_send (record x { slots = set x.slots i none }) i round.verified round.connected
      round.reply

unfoldable pub send {ℓ} : {T : Type ℓ} → Executor → ℕ → Round T → RedisResult T × Executor
unfolding current use_slot is_transient
send x i round = use_slot (current x.generation (get_elem? x.slots i)) x i round

unfoldable pub attempt {ℓ} : {T : Type ℓ} → Executor → Round T → RedisResult T × Executor
unfolding slot send
attempt x round = let (x', i) = slot x round in send x' i round

-- `Error`, as far as the executor makes one; `none` is the open circuit.
pub data Error : Type 0 where
  store_unavailable : Option RedisError → Error
  store_failed : RedisError → Error

pub data Outcome {ℓ} (T : Type ℓ) : Type ℓ where
  done : T → Outcome T
  failed : Error → Outcome T

unfoldable pub retries : OpKind → RedisError → Bool
retries bulk e = true
retries query e = not e.timeout

-- What `run` returns, the executor, and the attempts made.
pub record Run {ℓ} (T : Type ℓ) : Type ℓ where
  pub outcome : Outcome T
  pub executor : Executor
  pub attempts : ℕ

success {ℓ} : {T : Type ℓ} → Executor → ℕ → Outcome T → Run T
success x n outcome = record {
  outcome = outcome;
  executor = record x { breaker = Breaker.on_success x.breaker };
  attempts = n + 1;
}

failure {ℓ} : {T : Type ℓ} → Executor → ℕ → ℕ → RedisError → Run T
failure x n now e = record {
  outcome = failed (store_unavailable (some e));
  executor = record x { breaker = Breaker.on_failure_at x.breaker now };
  attempts = n + 1;
}

-- The arms of the `match` in `run`, `again` being the rounds that follow.
after_attempt {ℓ} :
    {T : Type ℓ} → OpKind → ℕ → ℕ → Executor → Option (Run T) → RedisResult T → Option (Run T)
unfolding success failure retries is_transient
after_attempt kind now n x again (ok v) = some (success x n (done v))
after_attempt kind now n x again (err e) =
    if is_transient e
    then (if ltb n x.max_retries && retries kind e then again else some (failure x n now e))
    else some (success x n (failed (store_failed e)))

-- The `loop` of `run` from attempt `n` on, which fails at the time `now`; `none` is fuel run out.
unfoldable pub loop {ℓ} :
    {T : Type ℓ} → ℕ → OpKind → (ℕ → Round T) → ℕ → ℕ → Executor → Option (Run T)
unfolding after_attempt
loop zero kind rounds now n x = none
loop (suc fuel) kind rounds now n x =
    let (r, x') = attempt x (rounds n) in
    let again = loop fuel kind rounds now (n + 1) x' in after_attempt kind now n x' again r

unfoldable pub run {ℓ} : {T : Type ℓ} → OpKind → (ℕ → Round T) → ℕ → ℕ → Executor → Option (Run T)
unfolding loop
run kind rounds started now x =
    let (granted, b) = Breaker.try_acquire_at x.breaker started in
    let x' : Executor = record x { breaker = b } in
    if granted
    then loop (x.max_retries + 1) kind rounds now 0 x'
    else some (record { outcome = failed (store_unavailable none); executor = x'; attempts = 0 })
