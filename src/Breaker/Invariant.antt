-- ===== src/Breaker/Invariant.antt =====
-- The failure count of crates/laya-store/src/breaker.rs, over whole histories of calls.
use laya_codex.Common.{ℕ, ◌+◌, ◌≤◌, ◌<◌, max, ◌≡◌, refl, sym, subst, ◌∙◌, ◌↔◌, List, [], ◌∷◌, arith}
use laya_codex.Breaker.{
  CircuitBreaker, Inner, closed_after, open_until, half_open_since, closed, Call, acquires,
  succeeds, fails, new, step, run, state,
}

-- Failures reported since the last success, `n` of them before the history.
abbrev pub failures_after : ℕ → List Call → ℕ
failures_after n [] = n
failures_after n (acquires _ ∷ cs) = failures_after n cs
failures_after n (succeeds ∷ cs) = failures_after 0 cs
failures_after n (fails _ ∷ cs) = failures_after (n + 1) cs

-- What the state says of the number of failures since the last success.
abbrev Counts : Inner → ℕ → ℕ → Type 0
Counts (closed_after f) threshold n = (f ≡ n) × (n < threshold)
Counts (open_until _) threshold n = threshold ≤ n
Counts (half_open_since _) threshold n = threshold ≤ n

threshold-step : (b : CircuitBreaker) (c : Call) → (step b c).threshold ≡ b.threshold
unfolding step
threshold-step b (acquires now) = refl
threshold-step b succeeds = refl
threshold-step b (fails now) = refl

module _ (t cd n : ℕ) where
  abbrev at : Inner → CircuitBreaker
  at i = record { threshold = t; cooldown = cd; inner = i }

  step-Counts :
      (i : Inner) (c : Call)
      → 0 < t
      → Counts i t n
      → Counts (step (at i) c).inner t (failures_after n (c ∷ []))
  unfolding step
  step-Counts (closed_after f) (acquires now) p h = h
  step-Counts (open_until u) (acquires now) p h = ground arith
  step-Counts (half_open_since u) (acquires now) p h = ground arith
  step-Counts i succeeds p h = (refl, p)
  step-Counts (closed_after f) (fails now) p h = ground arith
  step-Counts (open_until u) (fails now) p h = omega arith
  step-Counts (half_open_since u) (fails now) p h = omega arith

failures_after-cons :
    (n : ℕ) (c : Call) (cs : List Call)
    → failures_after n (c ∷ cs) ≡ failures_after (failures_after n (c ∷ [])) cs
failures_after-cons n (acquires now) cs = refl
failures_after-cons n succeeds cs = refl
failures_after-cons n (fails now) cs = refl

run-Counts :
    (b : CircuitBreaker) (n t : ℕ) (cs : List Call)
    → b.threshold ≡ t
    → 0 < t
    → Counts b.inner t n
    → Counts (run b cs).inner t (failures_after n cs)
unfolding run
run-Counts b n t [] e p h = h
run-Counts b n t (c ∷ cs) e p h = rw (failures_after-cons n c cs) (
    run-Counts (step b c) (failures_after n (c ∷ [])) t cs (threshold-step b c ∙ e) p (
      subst (λ k. Counts (step b c).inner k (failures_after n (c ∷ []))) e
        (step-Counts b.threshold b.cooldown n b.inner c (omega arith)
          (subst (λ k. Counts b.inner k n) (sym e) h))))

Counts-closed : (b : CircuitBreaker) (t n : ℕ) → Counts b.inner t n → (state b ≡ closed) ↔ (n < t)
unfolding state
Counts-closed b t n h = ground arith

-- After any history of calls on a new breaker, whatever their times, the breaker is closed exactly
-- while the failures since the last success are fewer than the threshold (taken as at least one).
pub run-closed :
    (threshold cooldown : ℕ) (cs : List Call)
    → (state (run (new threshold cooldown) cs) ≡ closed) ↔ (failures_after 0 cs < max threshold 1)
unfolding new
run-closed threshold cooldown cs =
    Counts-closed (run (new threshold cooldown) cs) (max threshold 1) (failures_after 0 cs) (
      run-Counts (new threshold cooldown) 0 (max threshold 1) cs refl (omega arith)
        (refl, omega arith))
