-- ===== src/Related/Merged.antt =====
-- crates/laya-rank/src/related.rs: what `merge` lets through.
use laya_codex.Common.{
  ℕ, ◌+◌, ◌≤◌, ◌<◌, ◌≡◌, refl, sym, ◌∙◌, ap, true, false, ◌||◌, List, [], ◌∷◌, ◌++◌, arith, leb,
  if◌then◌else◌, Bool-cases, inl, inr, length, any, keep_if, All, All-append, length-append,
}
use laya_codex.Common.Repeats.{NoRepeats, NoRepeats-snoc}
use mathlib.Core.List.{append_assoc, append-nil}
use laya_codex.Common.Text.{Text, text_eq, text_eq_iff, text_eq_sym, text_eq_refl}
use laya_codex.Core.{RankedSpan, Related}
use laya_codex.Related.{
  max_per_file, place_overlaps, overlaps_place, taken_of, Accepted, overlaps_existing, accept,
  merge_places,
}

-- How many of the places are in the file.
abbrev pub in_file : Text → List Related → ℕ
in_file path out = length (keep_if (λ (r : Related). text_eq r.path path) out)

module _ {F : Type 0} (existing : List (RankedSpan F)) (max_related : ℕ) where
  -- The promise of the list that comes out, and of the counts kept beside it.
  pub record IsAccepted (a : Accepted) : Type 0 where
    pub bounded : length a.out ≤ max_related
    pub apart : All (λ r. overlaps_existing existing r ≡ false) a.out
    pub disjoint : NoRepeats overlaps_place a.out
    pub counted : (path : Text) → taken_of path a.per_file ≡ in_file path a.out
    pub few : (path : Text) → in_file path a.out ≤ max_per_file

overlaps_place_sym : (r o : Related) → overlaps_place r o ≡ overlaps_place o r
unfolding overlaps_place place_overlaps
overlaps_place_sym r o = ground (arith, text_eq_sym r.path o.path)

pub overlaps_place_self : (r : Related) → r.start_line ≤ r.end_line → overlaps_place r r ≡ true
unfolding overlaps_place place_overlaps
overlaps_place_self r o = ground (arith, text_eq_refl r.path, o)

in_file-snoc :
    (path : Text) (out : List Related) (r : Related)
    → in_file path (out ++ r ∷ [])
      ≡ (if text_eq r.path path then in_file path out + 1 else in_file path out)
in_file-snoc path [] r = ground arith
in_file-snoc path (o ∷ out) r = ground (arith, in_file-snoc path out r)

pub in_file-append :
    (path : Text) (out more : List Related)
    → in_file path (out ++ more) ≡ in_file path out + in_file path more
in_file-append path [] more = omega arith
in_file-append path (o ∷ out) more = ground (arith, in_file-append path out more)

counted-snoc :
    (a : Accepted) (r : Related)
    → ((path : Text) → taken_of path a.per_file ≡ in_file path a.out)
    → (path : Text)
    → taken_of path ((r.path, taken_of r.path a.per_file + 1) ∷ a.per_file)
      ≡ in_file path (a.out ++ r ∷ [])
unfolding taken_of
counted-snoc a r counted path = elim (Bool-cases (text_eq r.path path)) [
  | inl e ↦
      rw (in_file-snoc path a.out r, e)
        (ap (λ n. n + 1)
          (ap (λ p. taken_of p a.per_file) ((text_eq_iff r.path path).0 e) ∙ counted path))
  | inr e ↦ rw (in_file-snoc path a.out r, e) (counted path)
]

few-snoc :
    (a : Accepted) (r : Related)
    → ((path : Text) → taken_of path a.per_file ≡ in_file path a.out)
    → ((path : Text) → in_file path a.out ≤ max_per_file)
    → leb max_per_file (taken_of r.path a.per_file) ≡ false
    → (path : Text) → in_file path (a.out ++ r ∷ []) ≤ max_per_file
few-snoc a r counted few h path = elim (Bool-cases (text_eq r.path path)) [
  | inl e ↦
      let same = ap (λ p. taken_of p a.per_file) ((text_eq_iff r.path path).0 e) ∙ counted path in
      rw (in_file-snoc path a.out r, e) (ground (arith, h, same))
  | inr e ↦ rw (in_file-snoc path a.out r, e) (few path)
]

module _ {F : Type 0} (existing : List (RankedSpan F)) (max_related : ℕ) where
  pub accept-IsAccepted :
      (a : Accepted) (r : Related)
      → length a.out < max_related
      → IsAccepted existing max_related a
      → IsAccepted existing max_related (accept existing a r)
  unfolding accept
  accept-IsAccepted a r room i =
      elim (Bool-cases (
        overlaps_existing existing r
        || any (overlaps_place r) a.out
        || leb max_per_file (taken_of r.path a.per_file))) [
          | inl e ↦ rw e i
          | inr e ↦ rw e (record {
            bounded = omega (arith, room, length-append a.out (r ∷ []));
            apart = All-append _ a.out (r ∷ []) i.apart (ground arith, tt);
            disjoint =
                NoRepeats-snoc overlaps_place overlaps_place_sym a.out r i.disjoint (ground arith);
            counted = counted-snoc a r i.counted;
            few = few-snoc a r i.counted i.few (ground arith);
          })
        ]

  accept-extends :
      (a : Accepted) (r : Related)
      → (more : List Related) × ((accept existing a r).out ≡ a.out ++ more)
  unfolding accept
  accept-extends a r =
      elim (Bool-cases (
        overlaps_existing existing r
        || any (overlaps_place r) a.out
        || leb max_per_file (taken_of r.path a.per_file))) [
          | inl e ↦ rw e ([], sym (append-nil a.out))
          | inr e ↦ rw e (r ∷ [], refl)
        ]

  pub merge_places-extends :
      (a : Accepted) (rs : List Related)
      → (more : List Related) × ((merge_places existing max_related a rs).out ≡ a.out ++ more)
  unfolding merge_places
  merge_places-extends a [] = ([], sym (append-nil a.out))
  merge_places-extends a (r ∷ rs) = elim (Bool-cases (leb max_related (length a.out))) [
    | inl e ↦ rw e ([], sym (append-nil a.out))
    | inr e ↦
        let (first, p) = accept-extends a r in
        let (more, q) = merge_places-extends (accept existing a r) rs in
        rw e (first ++ more, q ∙ ap (λ out. out ++ more) p ∙ append_assoc a.out first more)
  ]

  pub merge_places-IsAccepted :
      (a : Accepted) (rs : List Related)
      → IsAccepted existing max_related a
      → IsAccepted existing max_related (merge_places existing max_related a rs)
  unfolding merge_places
  merge_places-IsAccepted a [] i = i
  merge_places-IsAccepted a (r ∷ rs) i = elim (Bool-cases (leb max_related (length a.out))) [
    | inl e ↦ rw e i
    | inr e ↦
        rw e (
          merge_places-IsAccepted (accept existing a r) rs (accept-IsAccepted a r (ground arith) i))
  ]
