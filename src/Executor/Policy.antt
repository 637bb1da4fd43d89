-- ===== src/Executor/Policy.antt =====
-- When `run` of crates/laya-store/src/conn.rs tries again, and with what it ends.
use laya_codex.Common.{
  ℕ, zero, suc, ◌+◌, ◌≤◌, ◌<◌, ◌≡◌, refl, subst, ◌∙◌, true, false, ◌⊎◌, inl, inr, Option, some,
  arith, Bool-cases, ltb, ◌&&◌,
}
use native.Mathlib.Numerals.{add-one}
use laya_codex.Breaker
use laya_codex.Executor.{
  Executor, OpKind, query, bulk, RedisError, RedisResult, ok, err, Round, Run, Outcome, done,
  failed, store_unavailable, store_failed, is_transient, retries, attempt, after_attempt, loop, run,
}
use laya_codex.Executor.Retry.{attempt-Keeps}

-- On a timeout a query is given up, and bulk work is not.
abbrev pub GivesUp : OpKind → RedisError → Type 0
GivesUp bulk e = true ≡ false
GivesUp query e = e.timeout ≡ true

abbrev pub GoesOn : OpKind → RedisError → Type 0
GoesOn bulk e = Unit
GoesOn query e = e.timeout ≡ false

retries_cases :
    (kind : OpKind) (e : RedisError)
    → ((retries kind e ≡ true) × GoesOn kind e) ⊎ ((retries kind e ≡ false) × GivesUp kind e)
unfolding retries
retries_cases bulk e = inl (refl, tt)
retries_cases query e = elim (Bool-cases e.timeout) [
  | inl t ↦ inr (rw t refl, t)
  | inr t ↦ inl (rw t refl, t)
]

module _ {ℓ} {T : Type ℓ} where
  -- A transient error, after which an operation of the kind goes on.
  abbrev pub Retried : OpKind → RedisResult T → Type 0
  Retried kind (ok v) = true ≡ false
  Retried kind (err e) = (is_transient e ≡ true) × GoesOn kind e

  -- What the last attempt, the one after `n` others, makes of an operation.
  abbrev pub EndsWith : OpKind → ℕ → ℕ → RedisResult T → Outcome T → Type ℓ
  EndsWith kind most n (ok v) outcome = outcome ≡ done v
  EndsWith kind most n (err e) outcome =
      ((is_transient e ≡ false) × (outcome ≡ failed (store_failed e)))
      ⊎ ((is_transient e ≡ true)
          × ((n ≡ most) ⊎ GivesUp kind e)
          × (outcome ≡ failed (store_unavailable (some e))))

  -- The executor before attempt `n`, if there is one.
  pub executor_at : (ℕ → Round T) → Executor → ℕ → Executor
  executor_at rounds x zero = x
  executor_at rounds x (suc n) = (attempt (executor_at rounds x n) (rounds n)).1

  pub result_at : (ℕ → Round T) → Executor → ℕ → RedisResult T
  unfolding executor_at
  result_at rounds x n = (attempt (executor_at rounds x n) (rounds n)).0

  -- The run of an operation by its last attempt.
  pub record IsLast (kind : OpKind) (most : ℕ) (rounds : ℕ → Round T) (x : Executor) (r : Run T)
      : Type ℓ where
    pub last : ℕ
    pub attempts : r.attempts ≡ last + 1
    pub before : (k : ℕ) → k < last → Retried kind (result_at rounds x k)
    pub ends : EndsWith kind most last (result_at rounds x last) r.outcome

  after_attempt-IsLast :
      (kind : OpKind) (now n : ℕ) (x : Executor) (again : Option (Run T)) (res : RedisResult T)
      → n ≤ x.max_retries
      → ((r : Run T) × (after_attempt kind now n x again res ≡ some r)
          × (r.attempts ≡ n + 1)
          × EndsWith kind x.max_retries n res r.outcome)
        ⊎ ((after_attempt kind now n x again res ≡ again) × Retried kind res × (n < x.max_retries))
  unfolding after_attempt
  after_attempt-IsLast kind now n x again (ok v) le = inl (_, refl, refl, refl)
  after_attempt-IsLast kind now n x again (err e) le = elim (Bool-cases (is_transient e)) [
    | inr reply ↦ rw reply (inl (_, refl, refl, inl (refl, refl)))
    | inl lost ↦ elim (retries_cases kind e) [
      | inr (stays, gives_up) ↦
          let stop : (ltb n x.max_retries && retries kind e) ≡ false = ground (arith, stays) in
          rw (lost, stop) (inl (_, refl, refl, inr (refl, inr gives_up, refl)))
      | inl (again_too, goes_on) ↦ elim (Bool-cases (ltb n x.max_retries)) [
        | inl more ↦ rw (lost, more, again_too) (inr (refl, (refl, goes_on), ground (arith, more)))
        | inr stop ↦
            rw (lost, stop) (inl (_, refl, refl, inr (refl, inl (ground (arith, le, stop)), refl)))
      ]
    ]
  ]

  module _ (kind : OpKind) (rounds : ℕ → Round T) (now : ℕ) (x : Executor) where
    executor_at_max : (n : ℕ) → (executor_at rounds x n).max_retries ≡ x.max_retries
    unfolding executor_at
    executor_at_max zero = refl
    executor_at_max (suc n) =
        (attempt-Keeps (executor_at rounds x n) (rounds n)).1 ∙ executor_at_max n

    executor_at_next :
        (n : ℕ) → executor_at rounds x (n + 1) ≡ (attempt (executor_at rounds x n) (rounds n)).1
    unfolding executor_at
    executor_at_next n = rw add-one refl

    before_next :
        (n : ℕ)
        → ((k : ℕ) → k < n → Retried kind (result_at rounds x k))
        → Retried kind (result_at rounds x n)
        → (k : ℕ) → k < n + 1
        → Retried kind (result_at rounds x k)
    before_next n h r k lt = elim (Bool-cases (ltb k n)) [
      | inl less ↦ h k (ground (arith, less))
      | inr last ↦
          let e : n ≡ k = ground (arith, last, lt) in
          subst (λ m. Retried kind (result_at rounds x m)) e r
    ]

    loop-IsLast :
        (fuel n : ℕ)
        → fuel + n ≡ x.max_retries + 1
        → n ≤ x.max_retries
        → ((k : ℕ) → k < n → Retried kind (result_at rounds x k))
        → (r : Run T) × (loop fuel kind rounds now n (executor_at rounds x n) ≡ some r)
          × IsLast kind x.max_retries rounds x r
    unfolding loop result_at
    loop-IsLast zero n f le h = absurd (omega (arith, f, le))
    loop-IsLast (suc fuel) n f le h =
        let before = executor_at rounds x n in
        let x' = (attempt before (rounds n)).1 in
        let res = (attempt before (rounds n)).0 in
        let m : x'.max_retries ≡ x.max_retries =
          (attempt-Keeps before (rounds n)).1 ∙ executor_at_max n in
        elim (after_attempt-IsLast kind now n x' (loop fuel kind rounds now (n + 1) x') res
          (omega (arith, le, m))) [
            | inl (r, eq, made, ends) ↦ (
              r,
              eq,
              record {
                last = n;
                attempts = made;
                before = h;
                ends = subst (λ most. EndsWith kind most n res r.outcome) m ends;
              },
            )
            | inr (eq, retried, lt) ↦
                let (r, e, l) =
                  loop-IsLast fuel (n + 1) (omega (arith, f)) (omega (arith, lt, m))
                    (before_next n h retried) in
                (
                  r,
                  eq
                      ∙ subst (λ y. loop fuel kind rounds now (n + 1) y ≡ some r)
                          (executor_at_next n) e,
                  l,
                )
          ]

-- If the breaker grants an operation, it ends with one last attempt: every attempt before met a
-- transient error, which for a query was no timeout. A value of the last attempt is returned, and an
-- error that is not transient passed on as the error of the store. A transient error makes the store
-- unavailable, and is the last only in attempt max_retries + 1, or for a query as a timeout.
pub run-IsLast {ℓ} :
    {T : Type ℓ} (kind : OpKind) (rounds : ℕ → Round T) (started now : ℕ) (x : Executor)
    → (Breaker.try_acquire_at x.breaker started).0 ≡ true
    → (r : Run T) × (run kind rounds started now x ≡ some r)
      × IsLast kind x.max_retries rounds
          (record x { breaker = (Breaker.try_acquire_at x.breaker started).1 })
          r
unfolding run executor_at
run-IsLast kind rounds started now x granted =
    let x' : Executor = record x { breaker = (Breaker.try_acquire_at x.breaker started).1 } in
    rw granted (
      loop-IsLast kind rounds now x' (x.max_retries + 1) 0 (omega arith) (omega arith)
        (λ k lt. absurd (omega (arith, lt))))
