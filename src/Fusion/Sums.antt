-- ===== src/Fusion/Sums.antt =====
-- crates/laya-rank/src/fusion.rs: the entry of an id in scores that gains were added to.
use laya_codex.Common.{
  ◌≡◌, refl, sym, ◌∙◌, ap, ◌++◌, Bool, true, false, ◌||◌, Option, none, some, List, [], ◌∷◌, arith,
  if◌then◌else◌, Bool-cases, inl, inr, any,
}
use laya_codex.Common.Sort
use laya_codex.Common.Repeats.{NoRepeats}
use laya_codex.Common.Text.{Text, text_eq, text_eq_iff, text_eq_sym}
use laya_codex.Fusion.{Floats, add_gain, add_gains}

-- Texts that are not the same are not both the same as a third.
pub not_both : (s t u : Text) → text_eq s t ≡ false → text_eq t u ≡ true → text_eq s u ≡ false
not_both s t u n h = rw (sym ((text_eq_iff t u).0 h)) n

module _ {F : Type 0} where
  -- The entry of an id.
  unfoldable pub score_in : Text → List (Text × F) → Option F
  score_in id [] = none
  score_in id (e ∷ scores) =
      let rest = score_in id scores in if text_eq e.0 id then some e.1 else rest

  abbrev pub same_id : Text × F → Text × F → Bool
  same_id a b = text_eq a.0 b.0

  NoRepeats-insert :
      (after : Text × F → Text × F → Bool) (x : Text × F) (xs : List (Text × F))
      → any (same_id x) xs ≡ false
      → NoRepeats same_id xs
      → NoRepeats same_id (Sort.insert after x xs)
  unfolding Sort.insert
  NoRepeats-insert after x [] h n = (refl, tt)
  NoRepeats-insert after x (y ∷ xs) h n = elim (Bool-cases (after x y)) [
    | inl e ↦ rw e (
      ground (arith, Sort.any-insert after (same_id y) x xs, text_eq_sym y.0 x.0, h, n.0),
      NoRepeats-insert after x xs (ground (arith, h)) n.1,
    )
    | inr e ↦ rw e (h, n)
  ]

  pub NoRepeats-sort :
      (after : Text × F → Text × F → Bool) (xs : List (Text × F))
      → NoRepeats same_id xs
      → NoRepeats same_id (Sort.sort after xs)
  unfolding Sort.sort
  NoRepeats-sort after [] n = tt
  NoRepeats-sort after (x ∷ xs) n =
      NoRepeats-insert after x (Sort.sort after xs) (Sort.any-sort after (same_id x) xs ∙ n.0)
        (NoRepeats-sort after xs n.1)

  score_in-insert :
      (after : Text × F → Text × F → Bool) (id : Text) (x : Text × F) (xs : List (Text × F))
      → any (same_id x) xs ≡ false
      → score_in id (Sort.insert after x xs) ≡ score_in id (x ∷ xs)
  unfolding Sort.insert score_in
  score_in-insert after id x [] h = refl
  score_in-insert after id x (y ∷ xs) h = elim (Bool-cases (after x y)) [
    | inl e ↦
        rw (e, score_in-insert after id x xs (ground (arith, h)))
          (elim (Bool-cases (text_eq y.0 id)) [
            | inl q ↦ rw (q, not_both x.0 y.0 id (ground (arith, h)) q) refl
            | inr q ↦ rw q refl
          ])
    | inr e ↦ rw e refl
  ]

  pub score_in-sort :
      (after : Text × F → Text × F → Bool) (id : Text) (xs : List (Text × F))
      → NoRepeats same_id xs
      → score_in id (Sort.sort after xs) ≡ score_in id xs
  unfolding Sort.sort score_in
  score_in-sort after id [] n = refl
  score_in-sort after id (x ∷ xs) n =
      score_in-insert after id x (Sort.sort after xs) (Sort.any-sort after (same_id x) xs ∙ n.0)
      ∙ ap (λ o. if text_eq x.0 id then some x.1 else o) (score_in-sort after id xs n.1)

module _ {F : Type 0} (ops : Floats F) where
  unfoldable pub or_zero : Option F → F
  or_zero none = ops.zero
  or_zero (some s) = s

  -- The sum of the gains of an id, in order, onto what it has.
  unfoldable pub sum_from : Option F → Text → List (Text × F) → Option F
  unfolding or_zero
  sum_from o id [] = o
  sum_from o id (g ∷ gains) =
      sum_from (if text_eq g.0 id then some (ops.add (or_zero o) g.1) else o) id gains

  any-add_gain :
      (x : Text × F) (id : Text) (gain : F) (scores : List (Text × F))
      → any (same_id x) (add_gain ops id gain scores) ≡ (text_eq x.0 id || any (same_id x) scores)
  unfolding add_gain
  any-add_gain x id gain [] = refl
  any-add_gain x id gain (e ∷ scores) = elim (Bool-cases (text_eq e.0 id)) [
    | inl h ↦ rw (h, (text_eq_iff e.0 id).0 h) (ground arith)
    | inr h ↦ rw (h, any-add_gain x id gain scores) (ground arith)
  ]

  NoRepeats-add_gain :
      (id : Text) (gain : F) (scores : List (Text × F))
      → NoRepeats same_id scores
      → NoRepeats same_id (add_gain ops id gain scores)
  unfolding add_gain
  NoRepeats-add_gain id gain [] n = (refl, tt)
  NoRepeats-add_gain id gain (e ∷ scores) n = elim (Bool-cases (text_eq e.0 id)) [
    | inl h ↦ rw h n
    | inr h ↦ rw h (
      ground (arith, any-add_gain e id gain scores, h, n.0),
      NoRepeats-add_gain id gain scores n.1,
    )
  ]

  pub NoRepeats-add_gains :
      (scores gains : List (Text × F))
      → NoRepeats same_id scores
      → NoRepeats same_id (add_gains ops scores gains)
  unfolding add_gains
  NoRepeats-add_gains scores [] n = n
  NoRepeats-add_gains scores (g ∷ gains) n =
      NoRepeats-add_gains (add_gain ops g.0 g.1 scores) gains (NoRepeats-add_gain g.0 g.1 scores n)

  score_in-add_gain :
      (i id : Text) (gain : F) (scores : List (Text × F))
      → score_in id (add_gain ops i gain scores) ≡ (
          if text_eq i id
          then some (ops.add (or_zero (score_in id scores)) gain)
          else score_in id scores)
  unfolding add_gain score_in or_zero
  score_in-add_gain i id gain [] = refl
  score_in-add_gain i id gain (e ∷ scores) = elim (Bool-cases (text_eq e.0 i)) [
    | inl h ↦
        let same = ap (λ t. text_eq t id) ((text_eq_iff e.0 i).0 h) in
        elim (Bool-cases (text_eq i id)) [
          | inl q ↦ rw (h, same, q) refl
          | inr q ↦ rw (h, same, q) refl
        ]
    | inr h ↦
        rw (h, score_in-add_gain i id gain scores)
          (elim (Bool-cases (text_eq e.0 id)) [
            | inl q ↦ rw (q, not_both i e.0 id (text_eq_sym i e.0 ∙ h) q) refl
            | inr q ↦ rw q refl
          ])
  ]

  pub score_in-add_gains :
      (id : Text) (scores gains : List (Text × F))
      → score_in id (add_gains ops scores gains) ≡ sum_from (score_in id scores) id gains
  unfolding add_gains sum_from
  score_in-add_gains id scores [] = refl
  score_in-add_gains id scores (g ∷ gains) =
      score_in-add_gains id (add_gain ops g.0 g.1 scores) gains
      ∙ ap (λ o. sum_from o id gains) (score_in-add_gain g.0 id g.1 scores)

  pub sum_from-append :
      (o : Option F) (id : Text) (gains more : List (Text × F))
      → sum_from o id (gains ++ more) ≡ sum_from (sum_from o id gains) id more
  unfolding sum_from
  sum_from-append o id [] more = refl
  sum_from-append o id (g ∷ gains) more =
      sum_from-append (if text_eq g.0 id then some (ops.add (or_zero o) g.1) else o) id gains more
