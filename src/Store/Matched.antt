-- ===== src/Store/Matched.antt =====
-- crates/laya-store/src/store.rs: the chunks that match identifiers, against a count over the sets.
use laya_codex.Common.{
  ℕ, ◌+◌, ◌≡◌, refl, sym, ◌∙◌, ap, Bool, true, false, ◌||◌, Option, none, some, List, [], ◌∷◌,
  arith, if◌then◌else◌, Bool-cases, inl, inr, any, All, map, take,
}
use laya_codex.Common.Repeats.{NoRepeats}
use laya_codex.Common.Sort
use laya_codex.Common.Text.{Text, text_eq, text_eq_iff, text_eq_sym, has}
use laya_codex.Fusion.Sums.{not_both}
use laya_codex.Store.Read.{Match, add_match, add_matches, matches_from, after_match, rank_matches}
use laya_codex.Store.Ranked.{IsRanked, rank_matches-IsRanked, after_match-IsWeakOrder}

-- The count and the first set of an id.
pub found_in : Text → List Match → Option (ℕ × ℕ)
found_in id [] = none
found_in id (m ∷ matches) =
    let rest = found_in id matches in if text_eq m.id id then some (m.count, m.first) else rest

pub first_from : ℕ → Text → List (List Text) → Option ℕ
first_from order id [] = none
first_from order id (s ∷ sets) =
    let rest = first_from (order + 1) id sets in if has id s then some order else rest

pub count_in : Text → List (List Text) → ℕ
count_in id [] = 0
count_in id (s ∷ sets) = if has id s then 1 + count_in id sets else count_in id sets

-- How many of the sets have the id, and which is the first.
pub counted_in : Text → List (List Text) → Option ℕ → Option (ℕ × ℕ)
counted_in id sets none = none
counted_in id sets (some first) = some (count_in id sets, first)

abbrev pub same_match : Match → Match → Bool
same_match a b = text_eq a.id b.id

bump : ℕ → Option (ℕ × ℕ) → Option (ℕ × ℕ)
bump order none = some (1, order)
bump order (some c) = some (c.0 + 1, c.1)

found_in-add_match :
    (order : ℕ) (i id : Text) (matches : List Match)
    → found_in id (add_match order i matches)
      ≡ (if text_eq i id then bump order (found_in id matches) else found_in id matches)
unfolding add_match found_in bump
found_in-add_match order i id [] = refl
found_in-add_match order i id (m ∷ matches) = elim (Bool-cases (text_eq m.id i)) [
  | inl h ↦
      let same = ap (λ t. text_eq t id) ((text_eq_iff m.id i).0 h) in
      elim (Bool-cases (text_eq i id)) [
        | inl q ↦ rw (h, same, q) refl
        | inr q ↦ rw (h, same, q) refl
      ]
  | inr h ↦
      rw (h, found_in-add_match order i id matches)
        (elim (Bool-cases (text_eq m.id id)) [
          | inl q ↦ rw (q, not_both i m.id id (text_eq_sym i m.id ∙ h) q) refl
          | inr q ↦ rw q refl
        ])
]

-- An id is not in a list without one that is the same as it.
has_not :
    (i id : Text) (ids : List Text)
    → text_eq i id ≡ true
    → any (text_eq i) ids ≡ false
    → has id ids ≡ false
unfolding has
has_not i id ids q h = rw (sym ((text_eq_iff i id).0 q)) h

found_in-add_matches :
    (order : ℕ) (ids : List Text) (id : Text) (matches : List Match)
    → NoRepeats text_eq ids
    → found_in id (add_matches order ids matches)
      ≡ (if has id ids then bump order (found_in id matches) else found_in id matches)
unfolding add_matches has found_in
found_in-add_matches order [] id matches n = refl
found_in-add_matches order (i ∷ ids) id matches n =
    found_in-add_matches order ids id (add_match order i matches) n.1
    ∙ rw (found_in-add_match order i id matches, text_eq_sym id i)
        (elim (Bool-cases (text_eq i id)) [
          | inl q ↦ rw (q, has_not i id ids q n.0) refl
          | inr q ↦ rw q refl
        ])

tally : ℕ → Text → List (List Text) → Option (ℕ × ℕ) → Option (ℕ × ℕ)
tally order id [] o = o
tally order id (s ∷ sets) o = tally (order + 1) id sets (if has id s then bump order o else o)

found_in-matches_from :
    (order : ℕ) (sets : List (List Text)) (id : Text) (matches : List Match)
    → All (NoRepeats text_eq) sets
    → found_in id (matches_from order sets matches) ≡ tally order id sets (found_in id matches)
unfolding matches_from tally
found_in-matches_from order [] id matches a = refl
found_in-matches_from order (s ∷ sets) id matches a =
    found_in-matches_from (order + 1) sets id (add_matches order s matches) a.1
    ∙ ap (tally (order + 1) id sets) (found_in-add_matches order s id matches a.0)

tally-some :
    (order : ℕ) (id : Text) (sets : List (List Text)) (c : ℕ × ℕ)
    → tally order id sets (some c) ≡ some (c.0 + count_in id sets, c.1)
unfolding tally count_in bump
tally-some order id [] c = ap (λ n. some (n, c.1)) (omega arith)
tally-some order id (s ∷ sets) c = elim (Bool-cases (has id s)) [
  | inl e ↦
      rw e (tally-some (order + 1) id sets (c.0 + 1, c.1) ∙ ap (λ n. some (n, c.1)) (omega arith))
  | inr e ↦ rw e (tally-some (order + 1) id sets c)
]

count_in-hit :
    (id : Text) (s : List Text) (sets : List (List Text))
    → has id s ≡ true
    → 1 + count_in id sets ≡ count_in id (s ∷ sets)
unfolding count_in
count_in-hit id s sets e = rw e refl

counted_in-miss :
    (id : Text) (s : List Text) (sets : List (List Text)) (first : Option ℕ)
    → has id s ≡ false
    → counted_in id sets first ≡ counted_in id (s ∷ sets) first
unfolding counted_in count_in
counted_in-miss id s sets none e = refl
counted_in-miss id s sets (some first) e = rw e refl

tally-none :
    (order : ℕ) (id : Text) (sets : List (List Text))
    → tally order id sets none ≡ counted_in id sets (first_from order id sets)
unfolding tally counted_in first_from bump
tally-none order id [] = refl
tally-none order id (s ∷ sets) = elim (Bool-cases (has id s)) [
  | inl e ↦ rw e (
      tally-some (order + 1) id sets (1, order)
      ∙ ap (λ n. some (n, order)) (count_in-hit id s sets e))
  | inr e ↦ rw e (
      tally-none (order + 1) id sets ∙ counted_in-miss id s sets (first_from (order + 1) id sets) e)
]

any-add_match :
    (x : Match) (order : ℕ) (i : Text) (matches : List Match)
    → any (same_match x) (add_match order i matches)
      ≡ (text_eq x.id i || any (same_match x) matches)
unfolding add_match
any-add_match x order i [] = refl
any-add_match x order i (m ∷ matches) = elim (Bool-cases (text_eq m.id i)) [
  | inl h ↦ rw (h, (text_eq_iff m.id i).0 h) (ground arith)
  | inr h ↦ rw (h, any-add_match x order i matches) (ground arith)
]

NoRepeats-add_match :
    (order : ℕ) (i : Text) (matches : List Match)
    → NoRepeats same_match matches
    → NoRepeats same_match (add_match order i matches)
unfolding add_match
NoRepeats-add_match order i [] n = (refl, tt)
NoRepeats-add_match order i (m ∷ matches) n = elim (Bool-cases (text_eq m.id i)) [
  | inl h ↦ rw h n
  | inr h ↦ rw h (
    ground (arith, any-add_match m order i matches, h, n.0),
    NoRepeats-add_match order i matches n.1,
  )
]

NoRepeats-add_matches :
    (order : ℕ) (ids : List Text) (matches : List Match)
    → NoRepeats same_match matches
    → NoRepeats same_match (add_matches order ids matches)
unfolding add_matches
NoRepeats-add_matches order [] matches n = n
NoRepeats-add_matches order (i ∷ ids) matches n =
    NoRepeats-add_matches order ids (add_match order i matches)
      (NoRepeats-add_match order i matches n)

NoRepeats-matches_from :
    (order : ℕ) (sets : List (List Text)) (matches : List Match)
    → NoRepeats same_match matches
    → NoRepeats same_match (matches_from order sets matches)
unfolding matches_from
NoRepeats-matches_from order [] matches n = n
NoRepeats-matches_from order (s ∷ sets) matches n =
    NoRepeats-matches_from (order + 1) sets (add_matches order s matches)
      (NoRepeats-add_matches order s matches n)

pub record IsMatched (sets : List (List Text)) (by_first : Bool) (matches : List Match)
    : Type 0 where
  pub no_repeats : NoRepeats same_match matches
  pub counted : (id : Text) → found_in id matches ≡ counted_in id sets (first_from 0 id sets)
  pub ordered : Sort.IsSorted (after_match by_first) (Sort.sort (after_match by_first) matches)
  pub ranked :
      (limit : ℕ)
      → (out : List Match) × ((rank_matches matches by_first limit ≡ map (λ m. m.id) out)
          × ((out ≡ take limit (Sort.sort (after_match by_first) matches)) × IsRanked by_first out))

-- If no set has an id twice: the matches have each id of the sets once, and no other, with the
-- number of sets that have it and the first of these; and sorted, no match stands before one that
-- has more sets, or as many and, where the first set counts, an earlier first, or else a smaller
-- id. For every limit, rank_matches returns the ids of the first so many of these, and of any two
-- of them the earlier has more sets, or as many and either an earlier first set, where the first
-- set counts, or, where it does not count or is the same, an id that is not larger.
pub matches_from-IsMatched :
    (sets : List (List Text)) (by_first : Bool)
    → All (NoRepeats text_eq) sets
    → IsMatched sets by_first (matches_from 0 sets [])
unfolding found_in
matches_from-IsMatched sets by_first a = record {
  no_repeats = NoRepeats-matches_from 0 sets [] tt;
  counted = λ id. found_in-matches_from 0 sets id [] a ∙ tally-none 0 id sets;
  ordered =
      Sort.sort-IsSorted (after_match by_first) (after_match-IsWeakOrder by_first)
        (matches_from 0 sets []);
  ranked = rank_matches-IsRanked by_first (matches_from 0 sets []);
}
