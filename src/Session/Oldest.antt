-- ===== src/Session/Oldest.antt =====
-- crates/laya-cli/src/session.rs: the session that was touched longest ago.
use laya_codex.Common.{
  ℕ, ◌≤◌, ◌≡◌, refl, sym, subst, ◌∙◌, true, false, ◌⊎◌, inl, inr, Option, none, some, List, [], ◌∷◌,
  arith, All, All-map, Bool-cases,
}
use laya_codex.Common.Text.{Text, text_eq, text_eq_iff, text_eq_refl}
use laya_codex.Session.{Entry, contains, touched_lt, oldest_of, lookup}
use laya_codex.Session.Bounds.{DistinctIds}

lt_of_lt :
    (x best o : Option ℕ)
    → touched_lt x best ≡ true
    → touched_lt x o ≡ false
    → touched_lt best o ≡ false
unfolding touched_lt
lt_of_lt none none o h k = cc
lt_of_lt none (some b) none h k = refl
lt_of_lt none (some b) (some c) h k = cc
lt_of_lt (some a) none o h k = cc
lt_of_lt (some a) (some b) none h k = refl
lt_of_lt (some a) (some b) (some c) h k = ground arith

not_lt_trans :
    (x best o : Option ℕ)
    → touched_lt x best ≡ false
    → touched_lt best o ≡ false
    → touched_lt x o ≡ false
unfolding touched_lt
not_lt_trans none none none h k = refl
not_lt_trans none none (some c) h k = cc
not_lt_trans none (some b) o h k = cc
not_lt_trans (some a) none none h k = refl
not_lt_trans (some a) none (some c) h k = cc
not_lt_trans (some a) (some b) none h k = refl
not_lt_trans (some a) (some b) (some c) h k = ground arith

lt_irrefl : (x : Option ℕ) → touched_lt x x ≡ false
unfolding touched_lt
lt_irrefl none = refl
lt_irrefl (some a) = ground arith

-- The first time is not after the second, and no time at all is before every time.
abbrev pub NotAfter : Option ℕ → Option ℕ → Type 0
NotAfter none x = Unit
NotAfter (some a) none = true ≡ false
NotAfter (some a) (some b) = a ≤ b

touched_lt-NotAfter : (x o : Option ℕ) → touched_lt x o ≡ false → NotAfter o x
unfolding touched_lt
touched_lt-NotAfter x none h = tt
touched_lt-NotAfter none (some a) h = h
touched_lt-NotAfter (some b) (some a) h = ground arith

module _ {F : Type 0} where
  -- None of the entries was touched before this one.
  abbrev pub IsOldest : List (Entry F) → Entry F → Type 0
  IsOldest m e = All (λ x. NotAfter e.session.touched x.session.touched) m

  Unbeaten : List (Entry F) → Entry F → Type 0
  Unbeaten m e = All (λ x. touched_lt x.session.touched e.session.touched ≡ false) m

  oldest_of-Unbeaten : (e : Entry F) (m : List (Entry F)) → Unbeaten (e ∷ m) (oldest_of e m)
  unfolding oldest_of Unbeaten
  oldest_of-Unbeaten e [] = (lt_irrefl e.session.touched, tt)
  oldest_of-Unbeaten e (x ∷ m) =
      elim (Bool-cases (touched_lt x.session.touched e.session.touched)) [
        | inl t ↦
            let ih = oldest_of-Unbeaten x m in
            let eq : oldest_of e (x ∷ m) ≡ oldest_of x m = rw t refl in
            subst (Unbeaten (e ∷ x ∷ m)) (sym eq) (
              lt_of_lt x.session.touched e.session.touched (oldest_of x m).session.touched t ih.0,
              ih,
            )
        | inr t ↦
            let ih = oldest_of-Unbeaten e m in
            let eq : oldest_of e (x ∷ m) ≡ oldest_of e m = rw t refl in
            subst (Unbeaten (e ∷ x ∷ m)) (sym eq) (
              ih.0,
              (
                not_lt_trans x.session.touched e.session.touched (oldest_of e m).session.touched t
                    ih.0,
                ih.1,
              ),
            )
      ]

  pub oldest_of-IsOldest : (e : Entry F) (m : List (Entry F)) → IsOldest (e ∷ m) (oldest_of e m)
  unfolding Unbeaten
  oldest_of-IsOldest e m =
      All-map (e ∷ m) (λ x. touched_lt-NotAfter x.session.touched (oldest_of e m).session.touched)
        (oldest_of-Unbeaten e m)

  -- An entry that is later in the map is found past the first.
  lookup-later :
      (x : Entry F) (k : Text) (m : List (Entry F))
      → contains x.id m ≡ false
      → contains k m ≡ true
      → (lookup k (x ∷ m) ≡ lookup k m) × (contains k (x ∷ m) ≡ true)
  unfolding lookup
  lookup-later x k m h c = elim (Bool-cases (text_eq x.id k)) [
    | inl t ↦ absurd (let clash : contains k m ≡ false = rw ((text_eq_iff x.id k).0 t) at h in cc)
    | inr t ↦ (rw t refl, ground (arith, c))
  ]

  unfoldable pub Held : Entry F → List (Entry F) → Type 0
  Held old m = (lookup old.id m ≡ some old.session) × (contains old.id m ≡ true)

  Held-head : (x : Entry F) (m : List (Entry F)) → Held x (x ∷ m)
  unfolding Held lookup
  Held-head x m = (rw (text_eq_refl x.id) refl, ground (arith, text_eq_refl x.id))

  Held-tail :
      (x old : Entry F) (m : List (Entry F))
      → contains x.id m ≡ false
      → Held old m
      → Held old (x ∷ m)
  unfolding Held
  Held-tail x old m h a = let l = lookup-later x old.id m h a.1 in (l.0 ∙ a.0, l.1)

  Held-oldest_of :
      (e : Entry F) (m : List (Entry F))
      → DistinctIds m
      → (oldest_of e m ≡ e) ⊎ Held (oldest_of e m) m
  unfolding oldest_of
  Held-oldest_of e [] d = inl refl
  Held-oldest_of e (x ∷ m) d = elim (Bool-cases (touched_lt x.session.touched e.session.touched)) [
    | inl t ↦ rw t (
        inr (elim (Held-oldest_of x m d.1) [
          | inl same ↦ subst (λ o. Held o (x ∷ m)) (sym same) (Held-head x m)
          | inr a ↦ Held-tail x (oldest_of x m) m d.0 a
        ]))
    | inr t ↦ rw t (elim (Held-oldest_of e m d.1) [
      | inl same ↦ inl same
      | inr a ↦ inr (Held-tail x (oldest_of e m) m d.0 a)
    ])
  ]

  pub Held-oldest :
      (e : Entry F) (m : List (Entry F)) → DistinctIds (e ∷ m) → Held (oldest_of e m) (e ∷ m)
  Held-oldest e m d = elim (Held-oldest_of e m d.1) [
    | inl same ↦ subst (λ o. Held o (e ∷ m)) (sym same) (Held-head e m)
    | inr a ↦ Held-tail e (oldest_of e m) m d.0 a
  ]
