-- ===== src/Parse/Rows.antt =====
-- The loops over blank rows that crates/laya-parse/src/text.rs and src/cast.rs share.
use laya_codex.Common.{
  ℕ, zero, suc, ◌+◌, ◌-◌, ◌≤◌, ◌<◌, ◌≡◌, Bool, true, false, arith, ◌⊎◌, inl, inr, Bool-cases,
  if◌then◌else◌,
}
use native.Mathlib.Decide.{ℕ_discrete}

-- `while s < n && is_blank(s)`, with `left` rows up to the end.
unfoldable pub skip_blank : (ℕ → Bool) → ℕ → ℕ → ℕ
skip_blank blank zero s = s
skip_blank blank (suc left) s =
    let rest = skip_blank blank left (s + 1) in if blank s then rest else s

-- `while end > s && is_blank(end)`, with `room` rows above `s`.
unfoldable pub trim_end : (ℕ → Bool) → ℕ → ℕ → ℕ
trim_end blank zero end = end
trim_end blank (suc room) end =
    let rest = trim_end blank room (end - 1) in if blank end then rest else end

module _ (blank : ℕ → Bool) where
  pub skip_blank-lem :
      (left s : ℕ)
      → (s ≤ skip_blank blank left s)
        × (skip_blank blank left s ≤ s + left)
        × (skip_blank blank left s < s + left → blank (skip_blank blank left s) ≡ false)
        × ((r : ℕ) → s ≤ r → r < skip_blank blank left s → blank r ≡ true)
  unfolding skip_blank
  skip_blank-lem zero s =
      (omega arith, omega arith, λ h. absurd (omega arith), λ r a b. absurd (omega arith))
  skip_blank-lem (suc left) s =
      let (a, b, c, d) = skip_blank-lem left (s + 1) in
      elim (Bool-cases (blank s)) [
        | inr here ↦ rw here (omega arith, omega arith, λ h. here, λ r x y. absurd (omega arith))
        | inl e ↦ rw e (
          omega arith,
          omega arith,
          λ h. c (omega arith),
          λ r x y. elim (ℕ_discrete r s) [ yes same ↦ rw same e | no other ↦ d r (omega arith) y ],
        )
      ]

  pub trim_end-lem :
      (room end : ℕ)
      → room ≤ end
      → (trim_end blank room end ≤ end)
        × (end ≤ trim_end blank room end + room)
        × ((blank (trim_end blank room end) ≡ false) ⊎ (trim_end blank room end + room ≡ end))
  unfolding trim_end
  trim_end-lem zero end h = (omega arith, omega arith, inr (omega arith))
  trim_end-lem (suc room) end h = ground (arith, trim_end-lem room (end - 1))
