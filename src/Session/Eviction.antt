-- ===== src/Session/Eviction.antt =====
-- Which sessions a call of crates/laya-cli/src/session.rs changes.
use laya_codex.Common.{
  ℕ, ◌≤◌, ◌<◌, ◌≡◌, refl, sym, ◌∙◌, ap, true, false, ◌⊎◌, inl, inr, none, some, List, [], ◌∷◌,
  arith, leb, length, Bool-cases,
}
use laya_codex.Common.Text.{Text, text_eq, text_eq_iff, text_eq_refl}
use laya_codex.Session.{
  Session, Entry, max_sessions, contains, upsert, remove, oldest_of, remove_oldest, evict,
  with_session, lookup, session_at, or_default,
}
use laya_codex.Session.Bounds.{DistinctIds, contains-remove}
use laya_codex.Session.Oldest.{IsOldest, Held, oldest_of-IsOldest, Held-oldest}

module _ {F : Type 0} where
  lookup-absent : (id : Text) (m : List (Entry F)) → contains id m ≡ false → lookup id m ≡ none
  unfolding lookup
  lookup-absent id [] h = refl
  lookup-absent id (e ∷ m) h = ground (arith, h, lookup-absent id m)

  lookup-remove :
      (id k : Text) (m : List (Entry F))
      → text_eq id k ≡ false
      → lookup k (remove id m) ≡ lookup k m
  unfolding lookup remove
  lookup-remove id k [] h = refl
  lookup-remove id k (e ∷ m) h = elim (Bool-cases (text_eq e.id id)) [
    | inl t ↦ (let same = (text_eq_iff e.id id).0 t in rw t (rw same (ground arith)))
    | inr t ↦ rw t (ground (arith, lookup-remove id k m h))
  ]

  lookup-upsert :
      (id k : Text) (f : Session F → Session F) (m : List (Entry F))
      → text_eq id k ≡ false
      → lookup k (upsert id f m) ≡ lookup k m
  unfolding lookup upsert
  lookup-upsert id k f [] h = ground arith
  lookup-upsert id k f (e ∷ m) h = elim (Bool-cases (text_eq e.id id)) [
    | inl t ↦ (let same = (text_eq_iff e.id id).0 t in rw t (rw same (ground arith)))
    | inr t ↦ rw t (ground (arith, lookup-upsert id k f m h))
  ]

  lookup-upsert_self :
      (id : Text) (f : Session F → Session F) (m : List (Entry F))
      → lookup id (upsert id f m) ≡ some (f (session_at id m))
  unfolding lookup upsert session_at
  lookup-upsert_self id f [] = (let e = text_eq_refl id in ground arith)
  lookup-upsert_self id f (e ∷ m) = ground (arith, lookup-upsert_self id f m)

  lookup-remove_self :
      (id : Text) (m : List (Entry F)) → DistinctIds m → lookup id (remove id m) ≡ none
  unfolding lookup remove
  lookup-remove_self id [] d = refl
  lookup-remove_self id (e ∷ m) d = elim (Bool-cases (text_eq e.id id)) [
    | inl t ↦ rw t (lookup-absent id m (rw ((text_eq_iff e.id id).0 t) at d.0))
    | inr t ↦ rw t (rw t (lookup-remove_self id m d.1))
  ]

  -- All sessions but `id` are as they were.
  abbrev pub Spared : Text → List (Entry F) → List (Entry F) → Type 0
  Spared id m out = (k : Text) → text_eq id k ≡ false → lookup k out ≡ lookup k m

  -- A session of the map that was touched longest ago is gone, and all others but `id` are as they
  -- were.
  pub record Evicted (id : Text) (m out : List (Entry F)) : Type 0 where
    pub old : Entry F
    pub held : lookup old.id m ≡ some old.session
    pub oldest : IsOldest m old
    pub gone : lookup old.id out ≡ none
    pub others :
        (k : Text) → text_eq id k ≡ false → text_eq old.id k ≡ false → lookup k out ≡ lookup k m

  -- How a call for `id` makes room.
  abbrev pub MakesRoom : Text → List (Entry F) → List (Entry F) → Type 0
  MakesRoom id m out =
      ((contains id m ≡ true) × Spared id m out)
      ⊎ (((length m < max_sessions) × Spared id m out)
          ⊎ ((contains id m ≡ false) × (max_sessions ≤ length m) × Evicted id m out))

  remove_oldest-Evicted :
      (id : Text) (m : List (Entry F))
      → 0 < length m
      → DistinctIds m
      → Evicted id m (remove_oldest m)
  unfolding remove_oldest Held
  remove_oldest-Evicted id [] h d = absurd (omega (arith, h))
  remove_oldest-Evicted id (e ∷ m) h d = record {
    old = oldest_of e m;
    held = (Held-oldest e m d).0;
    oldest = oldest_of-IsOldest e m;
    gone = lookup-remove_self (oldest_of e m).id (e ∷ m) d;
    others = λ k other past. lookup-remove (oldest_of e m).id k (e ∷ m) past;
  }

  evict-MakesRoom : (id : Text) (m : List (Entry F)) → DistinctIds m → MakesRoom id m (evict id m)
  unfolding evict
  evict-MakesRoom id m d = elim (Bool-cases (contains id m)) [
    | inl there ↦ inl (there, λ k other. rw there refl)
    | inr new ↦ elim (Bool-cases (leb max_sessions (length m))) [
      | inl full ↦
          rw (new, full)
            (inr (
              inr
                (refl, ground (arith, full), remove_oldest-Evicted id m (ground (arith, full)) d)))
      | inr room ↦ inr (inl (ground (arith, room), λ k other. rw (new, room) refl))
    ]
  ]

  contains-remove_oldest :
      (k : Text) (m : List (Entry F)) → contains k m ≡ false → contains k (remove_oldest m) ≡ false
  unfolding remove_oldest
  contains-remove_oldest k [] h = h
  contains-remove_oldest k (e ∷ m) h = contains-remove k (oldest_of e m).id (e ∷ m) h

  contains-evict :
      (id : Text) (m : List (Entry F)) → contains id m ≡ false → contains id (evict id m) ≡ false
  unfolding evict
  contains-evict id m h = elim (Bool-cases (leb max_sessions (length m))) [
    | inl full ↦ rw (h, full) (contains-remove_oldest id m h)
    | inr room ↦ rw (h, room) h
  ]

  session_at-evict : (id : Text) (m : List (Entry F)) → session_at id (evict id m) ≡ session_at id m
  unfolding session_at evict
  session_at-evict id m = elim (Bool-cases (contains id m)) [
    | inl there ↦ rw there refl
    | inr new ↦
        ap or_default
          (lookup-absent id (evict id m) (contains-evict id m new) ∙ sym (lookup-absent id m new))
  ]

  not_held :
      (id k : Text) (m : List (Entry F)) {s : Session F}
      → contains id m ≡ false
      → lookup k m ≡ some s
      → text_eq id k ≡ false
  not_held id k m new held = elim (Bool-cases (text_eq id k)) [
    | inl t ↦ absurd (
        let none_there : lookup k m ≡ none =
          lookup-absent k m (rw ((text_eq_iff id k).0 t) at new) in
        cc)
    | inr t ↦ t
  ]

  MakesRoom-upsert :
      (id : Text) (f : Session F → Session F) (m out : List (Entry F))
      → MakesRoom id m out
      → MakesRoom id m (upsert id f out)
  MakesRoom-upsert id f m out (inl (there, spared)) =
      inl (there, λ k other. lookup-upsert id k f out other ∙ spared k other)
  MakesRoom-upsert id f m out (inr (inl (room, spared))) =
      inr (inl (room, λ k other. lookup-upsert id k f out other ∙ spared k other))
  MakesRoom-upsert id f m out (inr (inr (new, full, e))) = inr (
      inr (
        new,
        full,
        record {
          old = e.old;
          held = e.held;
          oldest = e.oldest;
          gone = lookup-upsert id e.old.id f out (not_held id e.old.id m new e.held) ∙ e.gone;
          others = λ k other past. lookup-upsert id k f out other ∙ e.others k other past;
        },
      ))

  -- In a map without repeated ids, a call for session `id` works on that session as it was, or on a
  -- new one, with the time of the call. If `id` was there or the map was not full, every other session
  -- is as it was before. Otherwise one session of the map that was touched longest ago is gone, and
  -- every other is as it was.
  pub with_session-lookup :
      (now : ℕ) (id : Text) (f : Session F → Session F) (m : List (Entry F))
      → DistinctIds m
      → let out = with_session now id f m in
        (lookup id out ≡ some (f (record (session_at id m) { touched = some now })))
        × MakesRoom id m out
  unfolding with_session
  with_session-lookup now id f m d =
      let g : Session F → Session F = λ s. f (record s { touched = some now }) in
      (
        lookup-upsert_self id g (evict id m) ∙ ap (λ s. some (g s)) (session_at-evict id m),
        MakesRoom-upsert id g m (evict id m) (evict-MakesRoom id m d),
      )
