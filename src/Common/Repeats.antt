-- ===== src/Common/Repeats.antt =====
-- Lists without repeats under a Boolean equality, such as the keys of a hash set.
use laya_codex.Common.{
  ℕ, suc, zero, ◌≡◌, refl, Bool, false, ◌||◌, List, [], ◌∷◌, ◌++◌, arith, any, drop,
}

module _ {ℓ} {A : Type ℓ} where
  pub any-append : (p : A → Bool) (xs ys : List A) → any p (xs ++ ys) ≡ (any p xs || any p ys)
  any-append p [] ys = refl
  any-append p (x ∷ xs) ys = ground (arith, any-append p xs ys)

module _ {ℓ} {A : Type ℓ} (eq : A → A → Bool) where
  abbrev pub NoRepeats : List A → Type 0
  NoRepeats [] = Unit {0}
  NoRepeats (x ∷ xs) = (any (eq x) xs ≡ false) × NoRepeats xs

  pub NoRepeats-drop : (n : ℕ) (xs : List A) → NoRepeats xs → NoRepeats (drop n xs)
  NoRepeats-drop zero xs h = h
  NoRepeats-drop (suc n) [] h = tt
  NoRepeats-drop (suc n) (x ∷ xs) h = NoRepeats-drop n xs h.1

  pub NoRepeats-snoc :
      ((a b : A) → eq a b ≡ eq b a)
      → (xs : List A) (x : A) → NoRepeats xs
      → any (eq x) xs ≡ false
      → NoRepeats (xs ++ x ∷ [])
  NoRepeats-snoc s [] x h e = (refl, tt)
  NoRepeats-snoc s (y ∷ xs) x h e = (
    ground (arith, any-append (eq y) xs (x ∷ []), s y x),
    NoRepeats-snoc s xs x h.1 (ground arith),
  )
