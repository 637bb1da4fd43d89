-- ===== src/Breaker/Probes.antt =====
-- Who gets through a breaker that is not closed (crates/laya-store/src/breaker.rs).
use laya_codex.Common.{
  ℕ, ◌+◌, ◌≤◌, ◌<◌, ◌≡◌, refl, sym, subst, ◌∙◌, ◌≢◌, ◌↔◌, inl, inr, true, false, List, [], ◌∷◌,
  arith, Bool-cases,
}
use laya_codex.Breaker.{
  CircuitBreaker, closed_after, open_until, half_open_since, closed, Call, acquires, succeeds,
  fails, step, run, state, try_acquire_at,
}

-- The first moment at which a call may proceed.
abbrev pub ready_at : CircuitBreaker → ℕ
ready_at b = elim b.inner [
  | closed_after _ ↦ 0
  | open_until until ↦ until
  | half_open_since since ↦ since + b.cooldown
]

-- With a cooldown, a call may proceed exactly from that moment on; one that may not leaves the
-- breaker unchanged, and one that may through a breaker that is not closed becomes its one probe.
pub try_acquire_exact :
    (b : CircuitBreaker) (now : ℕ)
    → 0 < b.cooldown
    → (((try_acquire_at b now).0 ≡ true) ↔ (ready_at b ≤ now))
      × ((try_acquire_at b now).0 ≡ false → (try_acquire_at b now).1 ≡ b)
      × (state b ≢ closed → ready_at b ≤ now → ready_at (try_acquire_at b now).1 ≡ now + b.cooldown)
unfolding try_acquire_at state
try_acquire_exact b now c = ground arith

-- Every call of the history comes at or after `t`, and none is a success.
abbrev pub QuietFrom : ℕ → List Call → Type 0
QuietFrom t [] = Unit {0}
QuietFrom t (acquires now ∷ cs) = (t ≤ now) × QuietFrom t cs
QuietFrom t (succeeds ∷ cs) = ⊥
QuietFrom t (fails now ∷ cs) = (t ≤ now) × QuietFrom t cs

-- Not closed, and shut at least until `t + cooldown`.
record HoldsFrom (t : ℕ) (b : CircuitBreaker) : Type 0 where
  not_closed : state b ≢ closed
  shut : t + b.cooldown ≤ ready_at b

step-HoldsFrom :
    (t : ℕ) (b : CircuitBreaker) (c : Call) (cs : List Call)
    → QuietFrom t (c ∷ cs)
    → HoldsFrom t b
    → HoldsFrom t (step b c) × ((step b c).cooldown ≡ b.cooldown) × QuietFrom t cs
unfolding step state
step-HoldsFrom t b (acquires now) cs q h = ground arith
step-HoldsFrom t b succeeds cs q h = absurd q
step-HoldsFrom t b (fails now) cs q h = ground arith

run-HoldsFrom :
    (t : ℕ) (b : CircuitBreaker) (cs : List Call)
    → QuietFrom t cs
    → HoldsFrom t b
    → HoldsFrom t (run b cs) × ((run b cs).cooldown ≡ b.cooldown)
unfolding run
run-HoldsFrom t b [] q h = (h, refl)
run-HoldsFrom t b (c ∷ cs) q h =
    let (h', e, q') = step-HoldsFrom t b c cs q h in
    let (h'', e') = run-HoldsFrom t (step b c) cs q' h' in (h'', e' ∙ e)

cooldown-try_acquire : (b : CircuitBreaker) (t : ℕ) → (try_acquire_at b t).1.cooldown ≡ b.cooldown
unfolding try_acquire_at
cooldown-try_acquire b t = refl

probe-HoldsFrom :
    (b : CircuitBreaker) (t : ℕ)
    → 0 < b.cooldown
    → state b ≢ closed
    → (try_acquire_at b t).0 ≡ true
    → HoldsFrom t (try_acquire_at b t).1
unfolding try_acquire_at state
probe-HoldsFrom b t c held granted = ground arith

-- One probe for each cooldown: once a breaker that is not closed has let a call through at `t`, then
-- after any further calls and failures from `t` on, none of them a success, no call before
-- `t + cooldown` gets through.
pub one_probe_per_cooldown :
    (b : CircuitBreaker) (t now : ℕ) (cs : List Call)
    → 0 < b.cooldown
    → state b ≢ closed
    → (try_acquire_at b t).0 ≡ true
    → QuietFrom t cs
    → now < t + b.cooldown
    → (try_acquire_at (run (try_acquire_at b t).1 cs) now).0 ≡ false
one_probe_per_cooldown b t now cs c held granted q early =
    let (h, e) = run-HoldsFrom t (try_acquire_at b t).1 cs q (probe-HoldsFrom b t c held granted) in
    let (iff, same, _) =
      try_acquire_exact (run (try_acquire_at b t).1 cs) now
        (subst (λ k. 0 < k) (sym (e ∙ cooldown-try_acquire b t)) c) in
    let late = h.shut in
    elim (Bool-cases (try_acquire_at (run (try_acquire_at b t).1 cs) now).0) [
      | inl g ↦ absurd (omega (arith, iff.0 g, e, cooldown-try_acquire b t))
      | inr g ↦ g
    ]
