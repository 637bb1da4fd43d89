-- ===== src/Common/Splitting.antt =====
-- Lemmas on splitting a text at the characters with a property.
use laya_codex.Common.{
  ℕ, ◌≡◌, refl, Bool, true, false, List, [], ◌∷◌, ◌++◌, All, Bool-cases, inl, inr, ◌∙◌, ap, subst,
  sym, flatten, keep_if, not,
}
use laya_codex.Common.Text.{Text, split_by, join, add_to_first}

module _ (p : ℕ → Bool) where
  -- No character has `p`.
  abbrev pub Free : Text → Type 0
  Free = All (λ c. p c ≡ false)

  split_by-nonempty :
      (s : Text) → (first : Text) × (pieces : List Text) × (split_by p s ≡ first ∷ pieces)
  unfolding split_by
  split_by-nonempty [] = ([], [], refl)
  split_by-nonempty (a ∷ s) = elim (Bool-cases (p a)) [
    | inl e ↦ rw e ([], _, refl)
    | inr e ↦ rw (e, (split_by-nonempty s).2) (_, _, refl)
  ]

  split_by-Free : (s : Text) → Free s → split_by p s ≡ s ∷ []
  unfolding split_by
  split_by-Free [] f = refl
  split_by-Free (a ∷ s) f = rw (f.0, split_by-Free s f.1) refl

  split_by-append :
      (c : ℕ) → p c ≡ true → (s t : Text) → Free s → split_by p (s ++ c ∷ t) ≡ s ∷ split_by p t
  unfolding split_by
  split_by-append c h [] t f = rw h refl
  split_by-append c h (a ∷ s) t f = rw (f.0, split_by-append c h s t f.1) refl

  -- Splitting undoes joining by a character with `p`, if no piece has one.
  pub split_by-join :
      (c : ℕ)
      → p c ≡ true
      → (s : Text) (pieces : List Text) → All Free (s ∷ pieces)
      → split_by p (join (c ∷ []) (s ∷ pieces)) ≡ s ∷ pieces
  unfolding join
  split_by-join c h s [] f = split_by-Free s f.0
  split_by-join c h s (t ∷ pieces) f =
      split_by-append c h s _ f.0 ∙ ap (λ ps. s ∷ ps) (split_by-join c h t pieces f.1)

  -- The pieces have no such character.
  pub split_by-All : (s : Text) → All Free (split_by p s)
  unfolding split_by
  split_by-All [] = (tt, tt)
  split_by-All (a ∷ s) = elim (Bool-cases (p a)) [
    | inl e ↦ rw e (tt, split_by-All s)
    | inr e ↦
        let (first, pieces, q) = split_by-nonempty s in
        let free = subst (All Free) q (split_by-All s) in rw (e, q) ((e, free.0), free.1)
  ]

module _ (p : ℕ → Bool) where
  -- The pieces hold all the other characters.
  pub flatten-split_by : (s : Text) → flatten (split_by p s) ≡ keep_if (λ c. not (p c)) s
  unfolding split_by
  flatten-split_by [] = refl
  flatten-split_by (a ∷ s) = elim (Bool-cases (p a)) [
    | inl e ↦ rw e (flatten-split_by s)
    | inr e ↦
        let (first, pieces, q) = split_by-nonempty p s in
        rw (e, q) (ap (λ t. a ∷ t) (ap flatten (sym q) ∙ flatten-split_by s))
  ]

module _ (p : ℕ → Bool) where
  add_to_first-append :
      (a : ℕ) (s : Text) (pieces : List Text)
      → add_to_first a (split_by p s) ++ pieces ≡ add_to_first a (split_by p s ++ pieces)
  unfolding add_to_first
  add_to_first-append a s pieces = let (first, more, q) = split_by-nonempty p s in rw q refl

  -- A character with `p` splits the text.
  pub split_by-at :
      (c : ℕ) → p c ≡ true → (s t : Text) → split_by p (s ++ c ∷ t) ≡ split_by p s ++ split_by p t
  unfolding split_by
  split_by-at c h [] t = rw h refl
  split_by-at c h (a ∷ s) t = elim (Bool-cases (p a)) [
    | inl e ↦ rw e (ap (λ ps. [] ∷ ps) (split_by-at c h s t))
    | inr e ↦ rw (e, split_by-at c h s t) (sym (add_to_first-append a s (split_by p t)))
  ]
