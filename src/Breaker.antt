-- ===== src/Breaker.antt =====
-- crates/laya-store/src/breaker.rs: the consecutive-failure circuit breaker. Time is an argument of
-- each call, in nanoseconds; `Instant::duration_since` stops at zero, as `-` does here. The mutex
-- makes each call one step, so a history is a list of calls.
mod Invariant
mod Probes
mod Tests
use laya_codex.Common.{
  ℕ, ◌+◌, ◌-◌, max, ◌≡◌, Bool, true, false, List, [], ◌∷◌, leb, ltb, if◌then◌else◌,
}

-- `BreakerState`, what a caller may see.
pub data BreakerState : Type 0 where
  closed opened half_open : BreakerState

-- `Inner`
pub data Inner : Type 0 where
  closed_after : ℕ → Inner
  open_until : ℕ → Inner
  half_open_since : ℕ → Inner

pub record CircuitBreaker : Type 0 where
  pub threshold : ℕ
  pub cooldown : ℕ
  pub inner : Inner

unfoldable pub new : ℕ → ℕ → CircuitBreaker
new threshold cooldown = record {
  threshold = max threshold 1;
  cooldown = cooldown;
  inner = closed_after 0;
}

-- The answer, and the state that replaces `*g`.
acquire_inner : Inner → ℕ → ℕ → Bool × Inner
acquire_inner (closed_after failures) cooldown now = (true, closed_after failures)
acquire_inner (open_until until) cooldown now =
    if leb until now then (true, half_open_since now) else (false, open_until until)
acquire_inner (half_open_since since) cooldown now =
    if leb cooldown (now - since)
    then (true, half_open_since now)
    else (false, half_open_since since)

unfoldable pub try_acquire_at : CircuitBreaker → ℕ → Bool × CircuitBreaker
unfolding acquire_inner
try_acquire_at b now =
    let (granted, inner') = acquire_inner b.inner b.cooldown now in
    (granted, record b { inner = inner' })

unfoldable pub on_success : CircuitBreaker → CircuitBreaker
on_success b = record b { inner = closed_after 0 }

fail_inner : Inner → ℕ → ℕ → ℕ → Inner
fail_inner (closed_after failures) threshold cooldown now =
    if ltb (failures + 1) threshold
    then closed_after (failures + 1)
    else open_until (now + cooldown)
fail_inner _ threshold cooldown now = open_until (now + cooldown)

unfoldable pub on_failure_at : CircuitBreaker → ℕ → CircuitBreaker
unfolding fail_inner
on_failure_at b now = record b { inner = fail_inner b.inner b.threshold b.cooldown now }

state_inner : Inner → BreakerState
state_inner (closed_after failures) = closed
state_inner (open_until until) = opened
state_inner (half_open_since since) = half_open

unfoldable pub state : CircuitBreaker → BreakerState
unfolding state_inner
state b = state_inner b.inner

-- The calls that a breaker receives, oldest first.
pub data Call : Type 0 where
  acquires : ℕ → Call
  succeeds : Call
  fails : ℕ → Call

unfoldable pub step : CircuitBreaker → Call → CircuitBreaker
unfolding try_acquire_at on_success on_failure_at
step b (acquires now) = (try_acquire_at b now).1
step b succeeds = on_success b
step b (fails now) = on_failure_at b now

unfoldable pub run : CircuitBreaker → List Call → CircuitBreaker
unfolding step
run b [] = b
run b (c ∷ cs) = run (step b c) cs
