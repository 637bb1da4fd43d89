-- ===== src/Parse/Segments/Finish/Small.antt =====
-- `merge_small` of crates/laya-parse/src/cast.rs walks as Parse/Merging says.
use laya_codex.Common.{
  ℕ, zero, suc, ◌+◌, ◌-◌, ◌*◌, ◌≤◌, ◌<◌, ◌≡◌, refl, sym, subst, ap₂, min, max, Bool, true, false,
  Option, none, some, List, [], ◌∷◌, arith, inl, inr, Bool-cases, leb, length, rev_onto,
}
use laya_codex.Parse.Config.{ChunkConfig}
use laya_codex.Parse.Merging.{
  Step, pass, stay, back as join_before, ahead as join_behind, NoRoomBack, NoRoomAhead, hull,
  Step-shrinks, Step-Walk, Walk,
}
use laya_codex.Parse.Merging.Outcome.{Walks, ends, more}
use laya_codex.Parse.Segments.{Affinity, Seg, seg_rows, absorb}
use laya_codex.Parse.Segments.Finish.{
  span_of, spans, go_back, back_rows, ahead_rows, join_to, small_round, merge_small,
}

module _ (cfg : ChunkConfig) where
  abbrev RoomBack : List Seg → Seg → Type 0
  RoomBack [] x = ⊥
  RoomBack (p ∷ done) x = x.end - p.start < cfg.max_lines

  abbrev RoomAhead : Seg → List Seg → Type 0
  RoomAhead x [] = ⊥
  RoomAhead x (y ∷ todo) = y.end - x.start < cfg.max_lines

  -- What an answer of `go_back` says of the neighbours.
  abbrev Choice : List Seg → Seg → List Seg → Option Bool → Type 0
  Choice done x todo none =
      NoRoomBack cfg (spans done) (span_of x) × NoRoomAhead cfg (span_of x) (spans todo)
  Choice done x todo (some true) = RoomBack done x
  Choice done x todo (some false) = RoomAhead x todo

  go_back-Choice :
      (done : List Seg) (x : Seg) (todo : List Seg) (a : Affinity)
      → Choice done x todo
          (go_back (back_rows cfg.max_lines done x) (ahead_rows cfg.max_lines x todo) a)
  unfolding go_back back_rows ahead_rows
  go_back-Choice [] x [] a = (tt, tt)
  go_back-Choice [] x (y ∷ todo) a = elim (Bool-cases (leb (y.end - x.start + 1) cfg.max_lines)) [
    | inl e ↦ rw e (ground arith)
    | inr e ↦ rw e (tt, ground arith)
  ]
  go_back-Choice (p ∷ done) x [] a = elim (Bool-cases (leb (x.end - p.start + 1) cfg.max_lines)) [
    | inl e ↦ rw e (ground arith)
    | inr e ↦ rw e (ground arith, tt)
  ]
  go_back-Choice (p ∷ done) x (y ∷ todo) a =
      elim (Bool-cases (leb (x.end - p.start + 1) cfg.max_lines)) [
        | inl b ↦ elim (Bool-cases (leb (y.end - x.start + 1) cfg.max_lines)) [
          | inl f ↦ rw (b, f) (ground arith)
          | inr f ↦ rw (b, f) (ground arith)
        ]
        | inr b ↦ elim (Bool-cases (leb (y.end - x.start + 1) cfg.max_lines)) [
          | inl f ↦ rw (b, f) (ground arith)
          | inr f ↦ rw (b, f) (ground arith, ground arith)
        ]
      ]

  absorb-hull :
      (p x : Seg)
      → p.start ≤ x.start
      → p.end ≤ x.end
      → hull (span_of p) (span_of x) ≡ span_of (absorb p x)
  unfolding absorb
  absorb-hull p x h k =
      let e : p.start ≡ min p.start x.start = omega arith in
      let e' : x.end ≡ max p.end x.end = omega arith in
      ap₂ (λ a b. record { first = a; last = b }) e e'

  absorb-hull_behind :
      (x y : Seg)
      → x.start ≤ y.start
      → x.end ≤ y.end
      → hull (span_of x) (span_of y) ≡ span_of (absorb y x)
  unfolding absorb
  absorb-hull_behind x y h k =
      let e : x.start ≡ min y.start x.start = omega arith in
      let e' : y.end ≡ max y.end x.end = omega arith in
      ap₂ (λ a b. record { first = a; last = b }) e e'

  -- The round of the spans.
  abbrev Round : List Seg → Seg → List Seg → List Seg × List Seg → Type 0
  Round done x todo r = Step cfg (spans done) (span_of x ∷ spans todo) (spans r.0) (spans r.1)

  join_to-Step :
      (m : ℕ) (done : List Seg) (x : Seg) (todo : List Seg) (o : Option Bool)
      → Walk cfg m (spans done) (span_of x ∷ spans todo)
      → Choice done x todo o
      → Round done x todo (join_to o done x todo)
  unfolding join_to
  join_to-Step m done x todo none w c = stay (span_of x) c.0 c.1
  join_to-Step m [] x todo (some true) w c = absurd c
  join_to-Step m (p ∷ done) x todo (some true) w c =
      let before = w.before in
      let behind = w.behind in
      subst
        (λ k. Step cfg (spans (p ∷ done)) (span_of x ∷ spans todo) (spans done) (k ∷ spans todo))
        (absorb-hull p x (omega arith) (omega arith)) (join_before (span_of p) (span_of x) c)
  join_to-Step m done x [] (some false) w c = absurd c
  join_to-Step m done x (y ∷ todo) (some false) w c =
      let behind = w.behind in
      subst
        (λ k.
          Step cfg (spans done) (span_of x ∷ span_of y ∷ spans todo) (spans done) (k ∷ spans todo))
        (absorb-hull_behind x y (omega arith) (omega arith)) (join_behind (span_of x) (span_of y) c)

  small_round-Step :
      (m : ℕ) (done : List Seg) (x : Seg) (todo : List Seg)
      → Walk cfg m (spans done) (span_of x ∷ spans todo)
      → Round done x todo (small_round cfg done x todo)
  unfolding small_round
  small_round-Step m done x todo w = elim (Bool-cases (leb cfg.min_lines (seg_rows x))) [
    | inl e ↦ rw e (pass (span_of x) (ground arith))
    | inr e ↦ rw e (join_to-Step m done x todo _ w (go_back-Choice done x todo x.affinity))
  ]

  spans-rev_onto :
      (done todo : List Seg) → spans (rev_onto done todo) ≡ rev_onto (spans done) (spans todo)
  spans-rev_onto [] todo = refl
  spans-rev_onto (x ∷ done) todo = spans-rev_onto done (x ∷ todo)

  -- Enough fuel ends the walk.
  pub merge_small-Walks :
      (fuel m : ℕ) (done todo : List Seg)
      → Walk cfg m (spans done) (spans todo)
      → 2 * length (spans todo) + length (spans done) < fuel
      → (r : List Seg) × (merge_small cfg fuel done todo ≡ some r)
        × Walks cfg (spans done) (spans todo) (spans r)
  unfolding merge_small
  merge_small-Walks zero m done todo w h = absurd (omega arith)
  merge_small-Walks (suc fuel) m done [] w h = (
    _,
    refl,
    subst (λ k. Walks cfg (spans done) [] k) (sym (spans-rev_onto done [])) (ends (spans done)),
  )
  merge_small-Walks (suc fuel) m done (x ∷ todo) w h =
      let st = small_round-Step m done x todo w in
      let (done', todo') = small_round cfg done x todo in
      let shrinks = Step-shrinks cfg st in
      let (m', w') = Step-Walk cfg m st w in
      let (r, e, ws) = merge_small-Walks fuel m' done' todo' w' (omega arith) in (r, e, more st ws)
