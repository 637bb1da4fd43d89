-- ===== src/Executor/Retry.antt =====
-- How often `run` of crates/laya-store/src/conn.rs tries, and what it tells the breaker.
use laya_codex.Common.{
  ℕ, zero, suc, ◌+◌, ◌≤◌, ◌<◌, ◌≡◌, refl, ap, ◌∙◌, true, false, inl, inr, Option, none, some, arith,
  Bool-cases, ltb, ◌&&◌,
}
use laya_codex.Breaker
use laya_codex.Breaker.{CircuitBreaker}
use laya_codex.Executor.{
  Executor, OpKind, RedisResult, ok, err, Round, Run, Outcome, done, failed, store_unavailable,
  store_failed, is_transient, retries, slot, send, attempt, after_attempt, loop, run,
}

-- What one operation reports to the breaker: a failure if the store was unavailable, and otherwise a
-- success, a server's error reply included.
abbrev pub reported {ℓ} : {T : Type ℓ} → Outcome T → CircuitBreaker → ℕ → CircuitBreaker
reported (done v) b now = Breaker.on_success b
reported (failed (store_unavailable e)) b now = Breaker.on_failure_at b now
reported (failed (store_failed e)) b now = Breaker.on_success b

-- A run from attempt `n` on that ends within the retries, and reports once.
abbrev Ends {ℓ} : {T : Type ℓ} → ℕ → ℕ → CircuitBreaker → ℕ → Option (Run T) → Type ℓ
Ends {T} n most b now o =
    (r : Run T) × (o ≡ some r)
    × (n < r.attempts)
    × (r.attempts ≤ most)
    × (r.executor.breaker ≡ reported r.outcome b now)

abbrev Keeps : Executor → Executor → Type 0
Keeps x x' = (x'.breaker ≡ x.breaker) × (x'.max_retries ≡ x.max_retries)

module _ {ℓ} {T : Type ℓ} where
  slot-Keeps : (x : Executor) (round : Round T) → Keeps x (slot x round).0
  unfolding slot
  slot-Keeps x round = ground arith

  send-Keeps : (x : Executor) (i : ℕ) (round : Round T) → Keeps x (send x i round).1
  unfolding send
  send-Keeps x i round = ground arith

  -- An attempt leaves the breaker and the settings alone.
  pub attempt-Keeps : (x : Executor) (round : Round T) → Keeps x (attempt x round).1
  unfolding attempt
  attempt-Keeps x round =
      let (x', i) = slot x round in
      let (b, m) = slot-Keeps x round in let (b', m') = send-Keeps x' i round in (b' ∙ b, m' ∙ m)

  module _ (kind : OpKind) (now n most : ℕ) (b : CircuitBreaker) where
    after_attempt-Ends :
        (x : Executor) (again : Option (Run T)) (r : RedisResult T)
        → x.breaker ≡ b
        → x.max_retries + 1 ≡ most
        → n < most
        → (n + 1 < most → Ends (n + 1) most b now again)
        → Ends n most b now (after_attempt kind now n x again r)
    unfolding after_attempt
    after_attempt-Ends x again (ok v) e m lt h =
        (_, refl, omega arith, omega arith, ap Breaker.on_success e)
    after_attempt-Ends x again (err f) e m lt h = elim (Bool-cases (is_transient f)) [
      | inr reply ↦ rw reply (_, refl, omega arith, omega arith, ap Breaker.on_success e)
      | inl lost ↦ elim (Bool-cases (ltb n x.max_retries && retries kind f)) [
        | inr stop ↦
            rw (lost, stop)
              (_, refl, omega arith, omega arith, ap (λ c. Breaker.on_failure_at c now) e)
        | inl more ↦
            let (r, eq, lo, hi, rep) = h (ground arith) in
            rw (lost, more) (r, eq, omega arith, hi, rep)
      ]
    ]

  loop-Ends :
      (fuel : ℕ) (kind : OpKind) (rounds : ℕ → Round T) (now n most : ℕ) (b : CircuitBreaker)
      (x : Executor)
      → x.breaker ≡ b
      → x.max_retries + 1 ≡ most
      → n < most
      → most ≤ n + fuel
      → Ends n most b now (loop fuel kind rounds now n x)
  unfolding loop
  loop-Ends zero kind rounds now n most b x e m lt enough = absurd (omega arith)
  loop-Ends (suc fuel) kind rounds now n most b x e m lt enough =
      let x' = (attempt x (rounds n)).1 in
      let (eb, em) = attempt-Keeps x (rounds n) in
      let em' : x'.max_retries + 1 ≡ most = omega arith in
      after_attempt-Ends kind now n most b x' (loop fuel kind rounds now (n + 1) x')
        (attempt x (rounds n)).0 (eb ∙ e) em' lt
        (λ lt'. loop-Ends fuel kind rounds now (n + 1) most b x' (eb ∙ e) em' lt' (omega arith))

  -- Every operation ends. If the breaker refuses it, nothing is attempted, and nothing but the
  -- breaker's own answer changes. Otherwise there are at least one and at most `max_retries + 1`
  -- attempts, and whatever these meet, the breaker hears once of the operation: a failure exactly if
  -- the outcome is that the store is unavailable.
  pub run-reports_once :
      (kind : OpKind) (rounds : ℕ → Round T) (started now : ℕ) (x : Executor)
      → let b = (Breaker.try_acquire_at x.breaker started).1 in
        (r : Run T) × (run kind rounds started now x ≡ some r)
        × ((Breaker.try_acquire_at x.breaker started).0 ≡ false
            → (r.attempts ≡ 0)
              × (r.outcome ≡ failed (store_unavailable none))
              × (r.executor ≡ record x { breaker = b }))
        × ((Breaker.try_acquire_at x.breaker started).0 ≡ true
            → (0 < r.attempts)
              × (r.attempts ≤ x.max_retries + 1)
              × (r.executor.breaker ≡ reported r.outcome b now))
  unfolding run
  run-reports_once kind rounds started now x =
      let b = (Breaker.try_acquire_at x.breaker started).1 in
      elim (Bool-cases (Breaker.try_acquire_at x.breaker started).0) [
        | inl granted ↦
            let (r, eq, lo, hi, rep) =
              loop-Ends (x.max_retries + 1) kind rounds now 0 (x.max_retries + 1) b
                (record x { breaker = b }) refl refl (omega arith) (omega arith) in
            rw granted (r, eq, λ f. cc, λ _. (lo, hi, rep))
        | inr refused ↦ rw refused (_, refl, λ _. (refl, refl, refl), λ f. cc)
      ]
