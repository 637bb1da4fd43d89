-- ===== src/Executor/Tests.antt =====
-- Runs of the executor of crates/laya-store/src/conn.rs.
use laya_codex.Common.{
  ℕ, ◌+◌, ◌^◌, ◌≤◌, ◌<◌, ◌≡◌, refl, true, false, none, some, [], ◌∷◌, arith, if◌then◌else◌, ltb,
}
use laya_codex.Breaker
use laya_codex.Breaker.{CircuitBreaker}
use laya_codex.Executor.{
  Executor, bulk, RedisError, RedisResult, ok, err, Round, locked, Run, done, failed,
  store_unavailable, new, attempt, run,
}
use laya_codex.Executor.Policy.{IsLast, run-IsLast}
use laya_codex.Executor.Retry.{reported, run-reports_once}
use laya_codex.Executor.Pool.{IsPool, Reachable, AfterCommand, attempt-IsPool}

abbrev dropped : RedisError
dropped = record {
  io_error = false;
  timeout = false;
  connection_dropped = true;
  connection_refusal = false;
  unrecoverable_error = false;
  parse_kind = false;
}

abbrev round : RedisResult ℕ → Round ℕ
round r = record {
  locks = λ i. locked;
  waited_poisoned = false;
  verified = none;
  connected = none;
  reply = r;
}

-- The connection drops twice, then the command succeeds.
abbrev two_drops : ℕ → Round ℕ
two_drops n = if ltb n 2 then round (err dropped) else round (ok 7)

abbrev fresh : Executor
fresh = new 2 2 3 10

two_drops-run :
    run bulk two_drops 0 0 fresh
    ≡ some (record {
      outcome = done 7;
      executor = record {
        max_retries = 2;
        slots = some 2 ∷ none ∷ [];
        next = 3;
        generation = 2;
        breaker = Breaker.new 3 10;
      };
      attempts = 3;
    })
unfolding run new Breaker.new Breaker.try_acquire_at Breaker.on_success attempt
two_drops-run = refl

fresh-granted : (Breaker.try_acquire_at fresh.breaker 0).0 ≡ true
unfolding Breaker.try_acquire_at new Breaker.new
fresh-granted = refl

fresh-small : fresh.generation + 1 < 2 ^ 64
unfolding new
fresh-small = omega arith

fresh-IsPool : IsPool fresh
unfolding new
fresh-IsPool = record { opened = (tt, (tt, tt)); nonempty = omega arith }

run-reports_once_example :
    let b = (Breaker.try_acquire_at fresh.breaker 0).1 in
    (r : Run ℕ) × (run bulk two_drops 0 9 fresh ≡ some r)
    × ((Breaker.try_acquire_at fresh.breaker 0).0 ≡ false
        → (r.attempts ≡ 0)
          × (r.outcome ≡ failed (store_unavailable none))
          × (r.executor ≡ record fresh { breaker = b }))
    × ((Breaker.try_acquire_at fresh.breaker 0).0 ≡ true
        → (0 < r.attempts)
          × (r.attempts ≤ fresh.max_retries + 1)
          × (r.executor.breaker ≡ reported r.outcome b 9))
run-reports_once_example = run-reports_once bulk two_drops 0 9 fresh

run-IsLast_example :
    (r : Run ℕ) × (run bulk two_drops 0 9 fresh ≡ some r)
    × IsLast bulk fresh.max_retries two_drops
        (record fresh { breaker = (Breaker.try_acquire_at fresh.breaker 0).1 })
        r
run-IsLast_example = run-IsLast bulk two_drops 0 9 fresh fresh-granted

attempt-IsPool_example :
    IsPool (attempt fresh (round (err dropped))).1
    × (Reachable (round (err dropped))
        → (i : ℕ) × AfterCommand fresh.generation i
            (attempt fresh (round (err dropped))).0
            (attempt fresh (round (err dropped))).1)
attempt-IsPool_example = attempt-IsPool fresh (round (err dropped)) fresh-IsPool fresh-small
