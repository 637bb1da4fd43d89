-- ===== src/Breaker/Tests.antt =====
-- Runs of the breaker of crates/laya-store/src/breaker.rs.
use laya_codex.Common.{◌+◌, ◌≤◌, ◌<◌, ◌≡◌, ◌≢◌, ◌↔◌, refl, max, true, false, List, [], ◌∷◌, arith}
use laya_codex.Breaker.{
  CircuitBreaker, open_until, closed, Call, acquires, succeeds, fails, new, run, state,
  try_acquire_at,
}
use laya_codex.Breaker.Invariant.{failures_after, run-closed}
use laya_codex.Breaker.Probes.{ready_at, try_acquire_exact, one_probe_per_cooldown}

-- A breaker that opened on a failure at 5.
abbrev tripped : CircuitBreaker
tripped = record { threshold = 2; cooldown = 10; inner = open_until 15 }

abbrev two_failures : List Call
two_failures = fails 1 ∷ succeeds ∷ fails 3 ∷ acquires 4 ∷ fails 5 ∷ []

two_failures-run : run (new 2 10) two_failures ≡ tripped
unfolding run new
two_failures-run = refl

tripped-not_closed : state tripped ≢ closed
unfolding state
tripped-not_closed = λ e. cc

tripped-granted : (try_acquire_at tripped 20).0 ≡ true
unfolding try_acquire_at
tripped-granted = refl

run-closed_example :
    (state (run (new 2 10) two_failures) ≡ closed) ↔ (failures_after 0 two_failures < max 2 1)
run-closed_example = run-closed 2 10 two_failures

try_acquire_exact_example :
    (((try_acquire_at tripped 20).0 ≡ true) ↔ (ready_at tripped ≤ 20))
    × ((try_acquire_at tripped 20).0 ≡ false → (try_acquire_at tripped 20).1 ≡ tripped)
    × (state tripped ≢ closed
        → ready_at tripped ≤ 20
        → ready_at (try_acquire_at tripped 20).1 ≡ 20 + 10)
try_acquire_exact_example = try_acquire_exact tripped 20 (omega arith)

one_probe_per_cooldown_example :
    (try_acquire_at (run (try_acquire_at tripped 20).1 (acquires 22 ∷ fails 24 ∷ [])) 29).0 ≡ false
one_probe_per_cooldown_example =
    one_probe_per_cooldown tripped 20 29 (acquires 22 ∷ fails 24 ∷ []) (omega arith)
      tripped-not_closed tripped-granted (omega arith, (omega arith, tt)) (omega arith)
