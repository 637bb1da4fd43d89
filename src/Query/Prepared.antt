-- ===== src/Query/Prepared.antt =====
-- What `prepare_terms` of crates/laya-store/src/query.rs lets through.
use laya_codex.Common.{
  ℕ, ◌+◌, ◌≤◌, ◌≡◌, sym, subst, ◌∙◌, true, false, not, ◌&&◌, inl, inr, List, [], ◌∷◌, ◌++◌, arith,
  ltb, take, length, length-take, length-map, map, any, All, All-take, All-append, Bool-cases,
}
use laya_codex.Common.Sort
use laya_codex.Common.Sort.{All-sort, length-sort}
use laya_codex.Common.Repeats.{NoRepeats, NoRepeats-snoc, any-append}
use laya_codex.Common.Text.{Text, text_eq, text_eq_iff, text_eq_sym, to_ascii_lowercase}
use laya_codex.Query.{
  is_term, gather, Placed, enumerate, after_longer, after_place, term_of, keep_longest,
  prepare_terms,
}

abbrev pub IsTerm : Text → Type 0
IsTerm t = is_term t ≡ true

enumerate-All :
    (i : ℕ) (ts : List Text) → All IsTerm ts → All (λ p. IsTerm (term_of p)) (enumerate i ts)
unfolding enumerate
enumerate-All i [] a = tt
enumerate-All i (t ∷ ts) a = (a.0, enumerate-All (i + 1) ts a.1)

map-All : (ps : List Placed) → All (λ p. IsTerm (term_of p)) ps → All IsTerm (map term_of ps)
map-All [] a = tt
map-All (p ∷ ps) a = (a.0, map-All ps a.1)

keep_longest-All : (cap : ℕ) (ts : List Text) → All IsTerm ts → All IsTerm (keep_longest cap ts)
unfolding keep_longest
keep_longest-All cap ts a = map-All _ (
    All-sort after_place (λ p. IsTerm (term_of p)) _
      (All-take (λ p. IsTerm (term_of p)) cap _
        (All-sort after_longer (λ p. IsTerm (term_of p)) (enumerate 0 ts) (enumerate-All 0 ts a))))

length-keep_longest : (cap : ℕ) (ts : List Text) → length (keep_longest cap ts) ≤ cap
unfolding keep_longest
length-keep_longest cap ts =
    let kept = take cap (Sort.sort after_longer (enumerate 0 ts)) in
    let a = length-map term_of (Sort.sort after_place kept) in
    let b = length-sort after_place kept in
    let c = length-take cap (Sort.sort after_longer (enumerate 0 ts)) in omega arith

gather-All : (out terms : List Text) → All IsTerm out → All IsTerm (gather out terms)
unfolding gather
gather-All out [] a = a
gather-All out (t ∷ terms) a =
    let u = to_ascii_lowercase t in
    elim (Bool-cases (is_term u && not (any (text_eq u) out))) [
      | inl e ↦
          let good : is_term u ≡ true = ground arith in
          rw e (gather-All (out ++ u ∷ []) terms (All-append IsTerm out (u ∷ []) a (good, tt)))
      | inr e ↦ rw e (gather-All out terms a)
    ]

-- What is out stays out.
gather-keeps :
    (out terms : List Text) (u : Text)
    → any (text_eq u) out ≡ true
    → any (text_eq u) (gather out terms) ≡ true
unfolding gather
gather-keeps out [] u h = h
gather-keeps out (t ∷ terms) u h =
    let v = to_ascii_lowercase t in
    elim (Bool-cases (is_term v && not (any (text_eq v) out))) [
      | inl e ↦ rw e (
          gather-keeps (out ++ v ∷ []) terms u (any-append (text_eq u) out (v ∷ []) ∙ ground arith))
      | inr e ↦ rw e (gather-keeps out terms u h)
    ]

-- Every term that the query asks for, lowercased, is gathered.
gather-all :
    (out terms : List Text) (u : Text)
    → is_term u ≡ true
    → any (λ t. text_eq (to_ascii_lowercase t) u) terms ≡ true
    → any (text_eq u) (gather out terms) ≡ true
unfolding gather
gather-all out [] u good h = cc
gather-all out (t ∷ terms) u good h =
    let v = to_ascii_lowercase t in
    elim (Bool-cases (text_eq v u)) [
      | inr other ↦ elim (Bool-cases (is_term v && not (any (text_eq v) out))) [
        | inl e ↦ rw e (gather-all (out ++ v ∷ []) terms u good (ground arith))
        | inr e ↦ rw e (gather-all out terms u good (ground arith))
      ]
      | inl found ↦
          let same = (text_eq_iff v u).0 found in
          elim (Bool-cases (is_term v && not (any (text_eq v) out))) [
            | inl e ↦ rw e (
                gather-keeps (out ++ v ∷ []) terms u
                  (any-append (text_eq u) out (v ∷ []) ∙ ground (arith, text_eq_sym v u)))
            | inr e ↦
                let there : any (text_eq u) out ≡ true =
                  subst (λ w. any (text_eq w) out ≡ true) same
                    (let fine : is_term v ≡ true = subst (λ w. is_term w ≡ true) (sym same) good in
                      ground arith) in
                rw e (gather-keeps out terms u there)
          ]
    ]

gather-NoRepeats :
    (out terms : List Text) → NoRepeats text_eq out → NoRepeats text_eq (gather out terms)
unfolding gather
gather-NoRepeats out [] h = h
gather-NoRepeats out (t ∷ terms) h =
    let v = to_ascii_lowercase t in
    elim (Bool-cases (is_term v && not (any (text_eq v) out))) [
      | inl e ↦
          let new : any (text_eq v) out ≡ false = ground arith in
          rw e (
            gather-NoRepeats (out ++ v ∷ []) terms (NoRepeats-snoc text_eq text_eq_sym out v h new))
      | inr e ↦ rw e (gather-NoRepeats out terms h)
    ]

-- What `prepare_terms` gathers has no repeats and holds each term of the query, lowercased, that is
-- fit to be sent. At most `cap` terms come out, all of them fit to be sent, and all that were
-- gathered if these are no more than `cap`.
pub prepare_terms-IsTerm :
    (terms : List Text) (cap : ℕ)
    → let all = gather [] terms in
      NoRepeats text_eq all
      × ((u : Text)
          → is_term u ≡ true
          → any (λ t. text_eq (to_ascii_lowercase t) u) terms ≡ true
          → any (text_eq u) all ≡ true)
      × All IsTerm (prepare_terms terms cap)
      × (length (prepare_terms terms cap) ≤ cap)
      × (length all ≤ cap → prepare_terms terms cap ≡ all)
unfolding prepare_terms
prepare_terms-IsTerm terms cap =
    let all = gather [] terms in
    (
      gather-NoRepeats [] terms tt,
      gather-all [] terms,
      elim (Bool-cases (ltb cap (length all))) [
        | inl e ↦ rw e (keep_longest-All cap all (gather-All [] terms tt))
        | inr e ↦ rw e (gather-All [] terms tt)
      ],
      elim (Bool-cases (ltb cap (length all))) [
        | inl e ↦ rw e (length-keep_longest cap all)
        | inr e ↦ rw e (ground arith)
      ],
      λ few. ground arith,
    )
