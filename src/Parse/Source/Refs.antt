-- ===== src/Parse/Source/Refs.antt =====
-- Which names `chunk_refs` of crates/laya-parse/src/cast.rs records.
use laya_codex.Common.{
  ℕ, ◌≤◌, ◌<◌, ◌≡◌, ◌==◌, refl, sym, subst, ◌∙◌, Bool, true, false, not, ◌&&◌, ◌||◌, ◌⊎◌, inl, inr,
  List, [], ◌∷◌, ◌++◌, arith, any, leb, ltb, length, length-append, All, All-append, Bool-cases,
}
use laya_codex.Common.Repeats.{NoRepeats, NoRepeats-snoc, any-append}
use laya_codex.Common.Text.{Text, text_eq, text_eq_iff, text_eq_sym}
use laya_codex.Parse.Source.{RefOcc, max_refs, from_row, refs_from, chunk_refs}

module _ (admissible : Text → Bool) (defines : List Text) where
  -- What may be recorded.
  abbrev pub IsRef : Text → Type 0
  IsRef t = (admissible t ≡ true) × (any (text_eq t) defines ≡ false)

  -- What is recorded, from `out` on.
  record IsRefs (out : List Text) : Type 0 where
    few : length out ≤ max_refs
    distinct : NoRepeats text_eq out
    refs : All IsRef out

  refs_from-IsRefs :
      (e : ℕ) (out : List Text) (rs : List RefOcc)
      → length out < max_refs
      → IsRefs out
      → IsRefs (refs_from admissible defines e out rs)
  unfolding refs_from
  refs_from-IsRefs e out [] h i = i
  refs_from-IsRefs e out (r ∷ rs) h i = elim (Bool-cases (ltb e r.row)) [
    | inl past ↦ rw past i
    | inr near ↦
        elim (Bool-cases
          (not (admissible r.name) || any (text_eq r.name) defines || any (text_eq r.name) out)) [
            | inl skip ↦ rw (near, skip) (refs_from-IsRefs e out rs h i)
            | inr take ↦
                let l = length-append out (r.name ∷ []) in
                let new : any (text_eq r.name) out ≡ false = ground arith in
                let fit : IsRef r.name = (ground arith, ground arith) in
                let i' : IsRefs (out ++ r.name ∷ []) = record {
                  few = omega arith;
                  distinct = NoRepeats-snoc text_eq text_eq_sym out r.name i.distinct new;
                  refs = All-append IsRef out (r.name ∷ []) i.refs (fit, tt);
                } in
                elim (Bool-cases (length (out ++ r.name ∷ []) == max_refs)) [
                  | inl full ↦ rw (near, take, full) i'
                  | inr room ↦
                      rw (near, take, room)
                        (refs_from-IsRefs e (out ++ r.name ∷ []) rs (ground arith) i')
                ]
          ]
  ]

  -- References in the order of their rows.
  abbrev pub InOrder : List RefOcc → Type 0
  InOrder [] = Unit {0}
  InOrder (r ∷ rs) = All (λ q. r.row ≤ q.row) rs × InOrder rs

  -- Some reference to `u` stands on rows `s..=e`.
  abbrev pub refers : Text → ℕ → ℕ → List RefOcc → Bool
  refers u s e rs = any (λ r. leb s r.row && leb r.row e && text_eq r.name u) rs

  none_behind :
      (u : Text) (s e m : ℕ) (rs : List RefOcc)
      → e < m
      → All (λ q. m ≤ q.row) rs
      → refers u s e rs ≡ false
  none_behind u s e m [] h a = refl
  none_behind u s e m (r ∷ rs) h a = (let b = a.0 in ground (arith, none_behind u s e m rs h a.1))

  from_row-lem :
      (u : Text) (s e : ℕ) (rs : List RefOcc)
      → InOrder rs
      → (refers u s e (from_row s rs) ≡ refers u s e rs) × InOrder (from_row s rs)
  unfolding from_row
  from_row-lem u s e [] o = (refl, tt)
  from_row-lem u s e (r ∷ rs) o = elim (Bool-cases (ltb r.row s)) [
    | inl b ↦ (let (eq, o') = from_row-lem u s e rs o.1 in rw b (ground arith, o'))
    | inr b ↦ rw b (refl, o)
  ]

  refs_from-keeps :
      (e : ℕ) (out : List Text) (rs : List RefOcc) (u : Text)
      → any (text_eq u) out ≡ true
      → any (text_eq u) (refs_from admissible defines e out rs) ≡ true
  unfolding refs_from
  refs_from-keeps e out [] u h = h
  refs_from-keeps e out (r ∷ rs) u h = ground (
    arith,
    refs_from-keeps e out rs u,
    refs_from-keeps e (out ++ r.name ∷ []) rs u,
    any-append (text_eq u) out (r.name ∷ []),
  )

  -- A name that may be recorded is, unless there is no room.
  refs_from-all :
      (s e : ℕ) (out : List Text) (rs : List RefOcc) (u : Text)
      → InOrder rs
      → IsRef u
      → refers u s e rs ≡ true
      → (any (text_eq u) (refs_from admissible defines e out rs) ≡ true)
        ⊎ (length (refs_from admissible defines e out rs) ≡ max_refs)
  unfolding refs_from
  refs_from-all s e out [] u o i h = cc
  refs_from-all s e out (r ∷ rs) u o i h = elim (Bool-cases (ltb e r.row)) [
    | inl past ↦ absurd (let none = none_behind u s e r.row rs (ground arith) o.0 in ground arith)
    | inr near ↦
        elim (Bool-cases
          (not (admissible r.name) || any (text_eq r.name) defines || any (text_eq r.name) out)) [
            | inl skip ↦ elim (Bool-cases (text_eq r.name u)) [
              | inr other ↦ rw (near, skip) (refs_from-all s e out rs u o.1 i (ground arith))
              | inl found ↦
                  let same = (text_eq_iff r.name u).0 found in
                  let fit : IsRef r.name = subst IsRef (sym same) i in
                  let there : any (text_eq r.name) out ≡ true =
                    (let a = fit.0 in let b = fit.1 in ground arith) in
                  rw (near, skip)
                    (inl (
                      refs_from-keeps e out rs u
                        (subst (λ t. any (text_eq t) out ≡ true) same there)))
            ]
            | inr take ↦ elim (Bool-cases (length (out ++ r.name ∷ []) == max_refs)) [
              | inl full ↦ rw (near, take, full) (inr (ground arith))
              | inr room ↦ elim (Bool-cases (text_eq r.name u)) [
                | inr other ↦
                    rw (near, take, room)
                      (refs_from-all s e (out ++ r.name ∷ []) rs u o.1 i (ground arith))
                | inl found ↦
                    rw (near, take, room)
                      (inl (
                        refs_from-keeps e (out ++ r.name ∷ []) rs u (
                          any-append (text_eq u) out (r.name ∷ [])
                          ∙ ground (arith, text_eq_sym u r.name))))
              ]
            ]
          ]
  ]

-- With the references of a file in the order of their rows: a chunk on rows `s..=e` records at most
-- `max_refs` names, none twice, each admissible and none that the chunk defines; and it records
-- every such name that is referred to on its rows, unless it has `max_refs` already.
pub chunk_refs-IsRef :
    (admissible : Text → Bool) (refs : List RefOcc) (defines : List Text) (s e : ℕ)
    → InOrder admissible defines refs
    → let out = chunk_refs admissible refs defines s e in
      (length out ≤ max_refs)
      × NoRepeats text_eq out
      × All (IsRef admissible defines) out
      × ((u : Text)
          → IsRef admissible defines u
          → refers admissible defines u s e refs ≡ true
          → (any (text_eq u) out ≡ true) ⊎ (length out ≡ max_refs))
unfolding chunk_refs
chunk_refs-IsRef admissible refs defines s e o =
    let i =
      refs_from-IsRefs admissible defines e [] (from_row s refs) (omega arith)
        (record { few = omega arith; distinct = tt; refs = tt }) in
    (
      i.few,
      i.distinct,
      i.refs,
      λ u fit h.
          (let (eq, o') = from_row-lem admissible defines u s e refs o in
            refs_from-all admissible defines s e [] (from_row s refs) u o' fit (eq ∙ h)),
    )
