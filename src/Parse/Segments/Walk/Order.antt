-- ===== src/Parse/Segments/Walk/Order.antt =====
-- The segments that the walk of crates/laya-parse/src/cast.rs emits do not overlap, stand in file
-- order and fit `max_lines`.
use laya_codex.Common.{
  ℕ, zero, suc, ◌+◌, ◌-◌, ◌/◌, ◌≤◌, ◌<◌, ◌≡◌, sym, subst, min, Bool, true, Option, none, some, List,
  [], ◌∷◌, arith, leb, leb→le, Bool-cases, inl, inr,
}
use laya_codex.Common.Text.{Text, codes}
use laya_codex.Parse.Segments.{Seg, seg_rows, absorb, ChildUnit, Limits}
use laya_codex.Parse.Segments.UnitOrder.{last_row, IsNested}
use laya_codex.Parse.Segments.Walk.{
  cut_rows, cut, trivia_seg, join_carry, push_prefix, block_start, carry_on, trivia_carry,
  flush_acc,
}

module _ (l : Limits) (pos : 0 < l.max) where
  -- Newest first, below row `m`, without overlap, each within `max_lines`.
  abbrev pub Emitted : ℕ → List Seg → Type 0
  Emitted m [] = Unit
  Emitted m (x ∷ out) =
      (x.start ≤ x.end) × (x.end < m) × (x.end - x.start < l.max) × Emitted x.start out

  -- Room for what comes from row `m` on, behind an accumulator or carry.
  abbrev pub Ready : ℕ → Option Seg → List Seg → Type 0
  Ready m none out = Emitted m out
  Ready m (some a) out =
      (a.start ≤ a.end) × (a.end < m) × (a.end - a.start < l.max) × Emitted a.start out

  pub Emitted-mono : (m m' : ℕ) (out : List Seg) → m ≤ m' → Emitted m out → Emitted m' out
  Emitted-mono m m' [] h b = tt
  Emitted-mono m m' (x ∷ out) h b = (b.0, omega arith, b.2, b.3)

  pub Ready-mono :
      (m m' : ℕ) (a : Option Seg) (out : List Seg) → m ≤ m' → Ready m a out → Ready m' a out
  Ready-mono m m' none out h r = Emitted-mono m m' out h r
  Ready-mono m m' (some a) out h r = (r.0, omega arith, r.2, r.3)

  cut_rows-Emitted :
      (left a end : ℕ) (kind : Text) (out : List Seg)
      → a ≤ end + 1
      → Emitted a out
      → Emitted (end + 1) (cut_rows l.max left a end kind out)
  unfolding cut_rows
  cut_rows-Emitted zero a end kind out h b = Emitted-mono a (end + 1) out h b
  cut_rows-Emitted (suc left) a end kind out h b = elim (Bool-cases (leb a end)) [
    | inr e ↦ rw e (Emitted-mono a (end + 1) out h b)
    | inl e ↦
        let le = leb→le a end e in
        rw e (
          cut_rows-Emitted left (min (a + l.max - 1) end + 1) end kind _ (omega arith)
            (omega arith, omega arith, omega arith, b))
  ]

  pub cut-Emitted :
      (m a end : ℕ) (kind : Text) (out : List Seg)
      → m ≤ a
      → a ≤ end + 1
      → Emitted m out
      → Emitted (end + 1) (cut l a end kind out)
  unfolding cut
  cut-Emitted m a end kind out h k b =
      cut_rows-Emitted (end + 1 - a) a end kind out k (Emitted-mono m a out h b)

  -- `absorb` of something from row `m` on: the accumulator grows to its end.
  pub absorb-Ready :
      (m : ℕ) (a b : Seg) (out : List Seg)
      → Ready m (some a) out
      → m ≤ b.start
      → b.start ≤ b.end
      → b.end - a.start < l.max
      → Ready (b.end + 1) (some (absorb a b)) out
  unfolding absorb
  absorb-Ready m a b out r h k fits =
      let e : min a.start b.start ≡ a.start = omega arith in
      (omega arith, omega arith, omega arith, subst (λ k. Emitted k out) (sym e) r.3)

  pub flush_acc-Emitted :
      (m : ℕ) (fits : Bool) (a : Option Seg) (out : List Seg)
      → Ready m a out
      → Emitted m (flush_acc fits a out)
  unfolding flush_acc
  flush_acc-Emitted m fits none out r = r
  flush_acc-Emitted m fits (some a) out r = r

  -- Where a unit stands, as far as the walk needs it.
  abbrev pub UnitAt : ℕ → ChildUnit → Type 0
  UnitAt m u =
      (m ≤ u.start)
      × (u.start ≤ u.node_start)
      × (u.node_start ≤ u.end)
      × (u.has_trivia ≡ true → u.start < u.node_start)
      × (last_row l u.child ≤ u.end)
      × IsNested l u.child

  -- What is carried into a unit, but for its size.
  abbrev Carried : ChildUnit → Option Seg → List Seg → Type 0
  Carried u none out = Emitted u.node_start out
  Carried u (some c) out =
      (c.start ≤ c.end) × (c.end < u.node_start) × (c.start ≤ u.start) × Emitted c.start out

  join_carry-Carried :
      (m : ℕ) (prefix : Option Seg) (u : ChildUnit) (out : List Seg)
      → UnitAt m u
      → Ready m prefix out
      → Carried u (join_carry prefix (trivia_seg u)) out
  unfolding join_carry trivia_seg
  join_carry-Carried m none u out w r = elim (Bool-cases u.has_trivia) [
    | inl e ↦
        let lt = w.3 e in
        rw e (omega arith, omega arith, omega arith, Emitted-mono m u.start out w.0 r)
    | inr e ↦ rw e (Emitted-mono m u.node_start out (omega arith) r)
  ]
  join_carry-Carried m (some p) u out w r = elim (Bool-cases u.has_trivia) [
    | inl e ↦
        let lt = w.3 e in
        let e' : min p.start u.start ≡ p.start = omega arith in
        rw e (omega arith, omega arith, omega arith, subst (λ k. Emitted k out) (sym e') r.3)
    | inr e ↦ rw e (r.0, omega arith, omega arith, r.3)
  ]

  push_prefix-Emitted :
      (m : ℕ) (prefix : Option Seg) (out : List Seg)
      → Ready m prefix out
      → Emitted m (push_prefix prefix out)
  unfolding push_prefix
  push_prefix-Emitted m none out r = r
  push_prefix-Emitted m (some p) out r = r

  block_start-in :
      (m : ℕ) (prefix : Option Seg) (c : Seg) (u : ChildUnit) (out : List Seg)
      → UnitAt m u
      → Ready m prefix out
      → c.start ≤ u.start
      → block_start prefix c u.start ≡ u.start
  unfolding block_start
  block_start-in m none c u out w r h = omega arith
  block_start-in m (some p) c u out w r h = omega arith

  carry_on-Ready :
      (m : ℕ) (prefix carry : Option Seg) (u : ChildUnit) (out : List Seg)
      → UnitAt m u
      → Ready m prefix out
      → Carried u carry out
      → let r = carry_on l prefix u carry out in Ready u.node_start r.0 r.1
  unfolding carry_on
  carry_on-Ready m prefix none u out w r c = c
  carry_on-Ready m prefix (some c) u out w r k = elim (Bool-cases (leb (seg_rows c) (l.max / 2))) [
    | inl small ↦
        let le = leb→le (seg_rows c) (l.max / 2) small in rw small (k.0, k.1, omega arith, k.3)
    | inr big ↦ rw big (elim (Bool-cases u.has_trivia) [
      | inr e ↦
          rw e (Emitted-mono m u.node_start _ (omega arith) (push_prefix-Emitted m prefix out r))
      | inl e ↦
          let lt = w.3 e in
          let b = block_start-in m prefix c u out w r k.2 in
          let comment = codes "comment" in
          let end : u.node_start - 1 + 1 ≡ u.node_start = omega arith in
          rw (e, b)
            (subst
              (λ k. Emitted k (cut l u.start (u.node_start - 1) comment (push_prefix prefix out)))
              end
              (cut-Emitted m u.start (u.node_start - 1) comment (push_prefix prefix out) w.0
                (omega arith) (push_prefix-Emitted m prefix out r)))
    ])
  ]

  pub trivia_carry-Ready :
      (m : ℕ) (prefix : Option Seg) (u : ChildUnit) (out : List Seg)
      → UnitAt m u
      → Ready m prefix out
      → let r = trivia_carry l prefix u out in Ready u.node_start r.0 r.1
  unfolding trivia_carry
  trivia_carry-Ready m prefix u out w r =
      carry_on-Ready m prefix (join_carry prefix (trivia_seg u)) u out w r
        (join_carry-Carried m prefix u out w r)
