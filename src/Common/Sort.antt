-- ===== src/Common/Sort.antt =====
-- The stable sort of `slice::sort_by`, as an insertion sort over a test `after x y`: the comparator
-- orders `x` strictly behind `y`.
use laya_codex.Common.{
  length, ◌∙◌, ap, any, ◌||◌, take, All-take, ℕ, zero, suc, ◌≡◌, refl, Bool, true, false, List, [],
  ◌∷◌, arith, if◌then◌else◌, Bool-cases, inl, inr, All, All-map, keep_if,
}
use mathlib.Core.List.{Perm}
use mathlib.Core.List.Perm

-- What makes a comparator fit for sorting: a strict weak order.
pub record IsWeakOrder {ℓ} {A : Type ℓ} (after : A → A → Bool) : Type ℓ where
  pub asym : (x y : A) → after x y ≡ true → after y x ≡ false
  pub neg_trans : (x y z : A) → after x y ≡ false → after y z ≡ false → after x z ≡ false

module _ {ℓ} {A : Type ℓ} (after : A → A → Bool) where
  unfoldable pub insert : A → List A → List A
  insert x [] = x ∷ []
  insert x (y ∷ ys) = if after x y then y ∷ insert x ys else x ∷ y ∷ ys

  unfoldable pub sort : List A → List A
  unfolding insert
  sort [] = []
  sort (x ∷ xs) = insert x (sort xs)

  -- No entry stands behind one that it should precede.
  abbrev pub IsSorted : List A → Type ℓ
  IsSorted [] = Unit
  IsSorted (x ∷ xs) = All (λ y. after x y ≡ false) xs × IsSorted xs

  insert-perm : (x : A) (ys : List A) → Perm (insert x ys) (x ∷ ys)
  unfolding insert
  insert-perm x [] = Perm.refl _
  insert-perm x (y ∷ ys) = elim (Bool-cases (after x y)) [
    | inl e ↦ rw e (Perm.trans (Perm.cons y (insert-perm x ys)) (Perm.swap x y ys))
    | inr e ↦ rw e (Perm.refl _)
  ]

  -- Sorting only reorders.
  pub sort-perm : (xs : List A) → Perm (sort xs) xs
  unfolding sort
  sort-perm [] = Perm.refl _
  sort-perm (x ∷ xs) = Perm.trans (insert-perm x (sort xs)) (Perm.cons x (sort-perm xs))

  All-insert {κ} : (P : A → Type κ) (x : A) (ys : List A) → P x → All P ys → All P (insert x ys)
  unfolding insert
  All-insert P x [] px a = (px, tt)
  All-insert P x (y ∷ ys) px a = elim (Bool-cases (after x y)) [
    | inl e ↦ rw e (a.0, All-insert P x ys px a.1)
    | inr e ↦ rw e (px, a)
  ]

  pub All-sort {κ} : (P : A → Type κ) (xs : List A) → All P xs → All P (sort xs)
  unfolding sort
  All-sort P [] a = tt
  All-sort P (x ∷ xs) a = All-insert P x (sort xs) a.0 (All-sort P xs a.1)

  insert-IsSorted : IsWeakOrder after → (x : A) (ys : List A) → IsSorted ys → IsSorted (insert x ys)
  unfolding insert
  insert-IsSorted w x [] s = (tt, tt)
  insert-IsSorted w x (y ∷ ys) s = elim (Bool-cases (after x y)) [
    | inl e ↦
        rw e
          (All-insert (λ z. after y z ≡ false) x ys (w.asym x y e) s.0, insert-IsSorted w x ys s.1)
    | inr e ↦ rw e ((e, All-map ys (λ z n. w.neg_trans x y z e n) s.0), s)
  ]

  -- Under a strict weak order the result is sorted.
  pub sort-IsSorted : IsWeakOrder after → (xs : List A) → IsSorted (sort xs)
  unfolding sort
  sort-IsSorted w [] = tt
  sort-IsSorted w (x ∷ xs) = insert-IsSorted w x (sort xs) (sort-IsSorted w xs)

  -- Entries among which the comparator sees no difference.
  module _ (p : A → Bool) (alike : (x y : A) → p x ≡ true → p y ≡ true → after x y ≡ false) where
    keep_if-insert : (x : A) (ys : List A) → keep_if p (insert x ys) ≡ keep_if p (x ∷ ys)
    unfolding insert
    keep_if-insert x [] = refl
    keep_if-insert x (y ∷ ys) = ground (arith, keep_if-insert x ys, alike x y)

    -- The sort is stable: such entries keep their order.
    pub keep_if-sort : (xs : List A) → keep_if p (sort xs) ≡ keep_if p xs
    unfolding sort
    keep_if-sort [] = refl
    keep_if-sort (x ∷ xs) = ground (arith, keep_if-insert x (sort xs), keep_if-sort xs)

  pub any-insert : (p : A → Bool) (x : A) (ys : List A) → any p (insert x ys) ≡ any p (x ∷ ys)
  unfolding insert
  any-insert p x [] = refl
  any-insert p x (y ∷ ys) = elim (Bool-cases (after x y)) [
    | inl e ↦ rw e (ground (arith, any-insert p x ys))
    | inr e ↦ rw e refl
  ]

  -- Sorting loses nothing.
  pub any-sort : (p : A → Bool) (xs : List A) → any p (sort xs) ≡ any p xs
  unfolding sort
  any-sort p [] = refl
  any-sort p (x ∷ xs) = any-insert p x (sort xs) ∙ ap (λ b. p x || b) (any-sort p xs)

  pub take-IsSorted : (n : ℕ) (xs : List A) → IsSorted xs → IsSorted (take n xs)
  take-IsSorted zero xs s = tt
  take-IsSorted (suc n) [] s = tt
  take-IsSorted (suc n) (x ∷ xs) s =
      (All-take (λ y. after x y ≡ false) n xs s.0, take-IsSorted n xs s.1)

  length-insert : (x : A) (ys : List A) → length (insert x ys) ≡ suc (length ys)
  unfolding insert
  length-insert x [] = refl
  length-insert x (y ∷ ys) = ground (arith, length-insert x ys)

  pub length-sort : (xs : List A) → length (sort xs) ≡ length xs
  unfolding sort
  length-sort [] = refl
  length-sort (x ∷ xs) = length-insert x (sort xs) ∙ ap suc (length-sort xs)
