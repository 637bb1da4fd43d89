-- ===== src/Related/Covered.antt =====
-- crates/laya-rank/src/related.rs: why a candidate is not among the related places.
use laya_codex.Common.{
  ℕ, ◌≤◌, ◌≡◌, refl, sym, subst, true, false, ◌⊎◌, List, [], ◌∷◌, ◌++◌, arith, leb, Bool-cases, inl,
  inr, length, any, All, length-append,
}
use laya_codex.Common.Repeats.{any-append, NoRepeats}
use laya_codex.Common.Text.{Text}
use laya_codex.Core.{RankedSpan, Related}
use laya_codex.Related.{
  max_per_file, overlaps_place, interleave, taken_of, Accepted, overlaps_existing, accept,
  merge_places, merge_related,
}
use laya_codex.Related.Merged.{
  in_file, in_file-append, overlaps_place_self, IsAccepted, accept-IsAccepted, merge_places-extends,
  merge_places-IsAccepted,
}

module _ {F : Type 0} (existing : List (RankedSpan F)) (max_related : ℕ) where
  -- Why a place is missing.
  abbrev pub IsCovered : List Related → Related → Type 0
  IsCovered out r =
      (any (overlaps_place r) out ≡ true)
      ⊎ ((overlaps_existing existing r ≡ true)
          ⊎ ((in_file r.path out ≡ max_per_file) ⊎ (length out ≡ max_related)))

module _ {F : Type 0} (existing : List (RankedSpan F)) (max_related : ℕ) where
  -- What accounts for a missing place still does when more is accepted.
  IsCovered-append :
      (out more : List Related) (r : Related)
      → length (out ++ more) ≤ max_related
      → in_file r.path (out ++ more) ≤ max_per_file
      → IsCovered existing max_related out r
      → IsCovered existing max_related (out ++ more) r
  IsCovered-append out more r b f (inl h) =
      inl (rw (any-append (overlaps_place r) out more, h) refl)
  IsCovered-append out more r b f (inr (inl h)) = inr (inl h)
  IsCovered-append out more r b f (inr (inr (inl h))) =
      inr (inr (inl (omega (arith, in_file-append r.path out more, f, h))))
  IsCovered-append out more r b f (inr (inr (inr h))) =
      inr (inr (inr (omega (arith, length-append out more, b, h))))

  accept-IsCovered :
      (a : Accepted) (r : Related)
      → r.start_line ≤ r.end_line
      → IsAccepted existing max_related a
      → IsCovered existing max_related (accept existing a r).out r
  unfolding accept
  accept-IsCovered a r o i = elim (Bool-cases (overlaps_existing existing r)) [
    | inl e ↦ rw e (inr (inl refl))
    | inr n ↦ elim (Bool-cases (any (overlaps_place r) a.out)) [
      | inl e ↦ rw (n, e) (inl e)
      | inr m ↦ elim (Bool-cases (leb max_per_file (taken_of r.path a.per_file))) [
        | inl e ↦ rw (n, m, e) (inr (inr (inl (ground (arith, i.counted r.path, i.few r.path, e)))))
        | inr e ↦
            rw (n, m, e)
              (inl (
                rw (any-append (overlaps_place r) a.out (r ∷ []), overlaps_place_self r o)
                  (ground arith)))
      ]
    ]
  ]

  All-IsCovered :
      (out : List Related) (rs : List Related)
      → length out ≡ max_related
      → All (IsCovered existing max_related out) rs
  All-IsCovered out [] h = tt
  All-IsCovered out (r ∷ rs) h = (inr (inr (inr h)), All-IsCovered out rs h)

  merge_places-stop :
      (a : Accepted) (rs : List Related)
      → leb max_related (length a.out) ≡ true
      → merge_places existing max_related a rs ≡ a
  unfolding merge_places
  merge_places-stop a [] e = refl
  merge_places-stop a (r ∷ rs) e = rw e refl

  merge_places-go :
      (a : Accepted) (r : Related) (rs : List Related)
      → leb max_related (length a.out) ≡ false
      → merge_places existing max_related a (r ∷ rs)
        ≡ merge_places existing max_related (accept existing a r) rs
  unfolding merge_places
  merge_places-go a r rs e = rw e refl

  merge_places-covers :
      (a : Accepted) (rs : List Related)
      → All (λ (r : Related). r.start_line ≤ r.end_line) rs
      → IsAccepted existing max_related a
      → All (IsCovered existing max_related (merge_places existing max_related a rs).out) rs
  merge_places-covers a [] o i = tt
  merge_places-covers a (r ∷ rs) o i = elim (Bool-cases (leb max_related (length a.out))) [
    | inl e ↦
        subst (λ (f : Accepted). All (IsCovered existing max_related f.out) (r ∷ rs))
          (sym (merge_places-stop a (r ∷ rs) e))
          (All-IsCovered a.out (r ∷ rs) (ground (arith, i.bounded, e)))
    | inr e ↦
        let i' = accept-IsAccepted existing max_related a r (ground (arith, e)) i in
        let (more, q) = merge_places-extends existing max_related (accept existing a r) rs in
        let final = merge_places-IsAccepted existing max_related (accept existing a r) rs i' in
        subst (λ (f : Accepted). All (IsCovered existing max_related f.out) (r ∷ rs))
          (sym (merge_places-go a r rs e))
          (
            subst (λ out. IsCovered existing max_related out r) (sym q)
                (IsCovered-append (accept existing a r).out more r
                  (subst (λ out. length out ≤ max_related) q final.bounded)
                  (subst (λ out. in_file r.path out ≤ max_per_file) q (final.few r.path))
                  (accept-IsCovered a r o.0 i)),
            merge_places-covers (accept existing a r) rs o.1 i',
          )
  ]

-- What `merge` promises of the candidates.
pub record IsMerged {F : Type 0} (existing : List (RankedSpan F)) (max_related : ℕ)
    (candidates out : List Related) : Type 0 where
  pub bounded : length out ≤ max_related
  pub apart : All (λ r. overlaps_existing existing r ≡ false) out
  pub disjoint : NoRepeats overlaps_place out
  pub few : (path : Text) → in_file path out ≤ max_per_file
  pub covered : All (IsCovered existing max_related out) candidates

-- If no candidate ends before it starts: the related places are at most max_related, overlap neither
-- a span of the answer nor each other, and lie at most two in a file; and a candidate overlaps one of
-- them, unless it overlaps a span, its file has two of them, or they are max_related.
pub merge_related-IsMerged :
    {F : Type 0} (existing : List (RankedSpan F)) (max_related : ℕ) (callees callers : List Related)
    → All (λ (r : Related). r.start_line ≤ r.end_line) (interleave callees callers)
    → IsMerged existing max_related
        (interleave callees callers)
        (merge_related existing callees callers max_related)
unfolding merge_related taken_of
merge_related-IsMerged {F} existing max_related callees callers o =
    let start : Accepted = record { out = []; per_file = [] } in
    let i : IsAccepted existing max_related start = record {
      bounded = omega arith;
      apart = tt;
      disjoint = tt;
      counted = λ path. refl;
      few = λ path. omega arith;
    } in
    let final = merge_places-IsAccepted existing max_related start (interleave callees callers) i in
    record {
      bounded = final.bounded;
      apart = final.apart;
      disjoint = final.disjoint;
      few = final.few;
      covered = merge_places-covers existing max_related start (interleave callees callers) o i;
    }
