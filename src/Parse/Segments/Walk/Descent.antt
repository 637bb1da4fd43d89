-- ===== src/Parse/Segments/Walk/Descent.antt =====
-- The descent of crates/laya-parse/src/cast.rs through the tree keeps its segments in order.
use laya_codex.Common.{
  ℕ, zero, suc, ◌+◌, ◌-◌, ◌≤◌, ◌<◌, ◌≡◌, sym, subst, min, max, Bool, true, false, not, ◌&&◌, ◌||◌,
  Option, none, some, List, [], ◌∷◌, arith, ltb, Bool-cases, inl, inr,
}
use laya_codex.Parse.Tree.{Node, info, has_children}
use laya_codex.Parse.Segments.{Seg, ChildUnit, unit_seg, Limits, rows_of, units}
use laya_codex.Parse.Segments.UnitOrder.{
  last_row, IsNested, UnitsFrom, RowsOf, rows_of-RowsOf, units-order,
}
use laya_codex.Parse.Segments.Walk.{
  cut, trivia_carry, Loop, header, Descend, descend_with, flush_acc, after_flush, not_absorbed,
  round_with, child_round, child_rounds, last_acc, children_of, push_carry, first_row, with_carry,
  own_seg, emit, node_at, segment, max_depth,
}
use laya_codex.Parse.Segments.Walk.Order.{
  Emitted, Ready, Emitted-mono, Ready-mono, UnitAt, cut-Emitted, absorb-Ready, flush_acc-Emitted,
  trivia_carry-Ready,
}

module _ (l : Limits) (pos : 0 < l.max) where
  -- What emitting a node from a row on promises.
  abbrev Descends : Descend → Type 0
  Descends d =
      (n : Node) (floor : ℕ) (carry : Option Seg) (out : List Seg)
      → IsNested l n
      → Ready l pos floor carry out
      → Emitted l pos (max floor (last_row l n + 1)) (d n floor carry out)

  module _ (d : Descend) (descends : Descends d) where
    descend_with-Emitted :
        (m : ℕ) (prefix : Option Seg) (u : ChildUnit) (out : List Seg)
        → UnitAt l pos m u
        → Ready l pos m prefix out
        → Emitted l pos (u.end + 1) (descend_with l d prefix u out)
    unfolding descend_with
    descend_with-Emitted m prefix u out w r =
        let (carry, out') = trivia_carry l prefix u out in
        Emitted-mono l pos (max u.node_start (last_row l u.child + 1)) (u.end + 1)
          (d u.child u.node_start carry out') (omega arith)
          (descends u.child u.node_start carry out' w.5
            (trivia_carry-Ready l pos m prefix u out w r))

    after_flush-Ready :
        (m : ℕ) (u : ChildUnit) (v : Loop)
        → UnitAt l pos m u
        → Ready l pos m v.acc v.out
        → let v' = after_flush l d u v in Ready l pos (u.end + 1) v'.acc v'.out
    unfolding after_flush unit_seg
    after_flush-Ready m u v w r =
        let fits = ltb (u.end - u.start) l.max in
        let out = flush_acc fits v.acc v.out in
        let b : Emitted l pos m out = flush_acc-Emitted l pos m fits v.acc v.out r in
        elim (Bool-cases fits) [
          | inl e ↦ rw e (
            omega arith,
            omega arith,
            ground arith,
            Emitted-mono l pos m u.start (flush_acc true v.acc v.out) w.0
                (flush_acc-Emitted l pos m true v.acc v.out r),
          )
          | inr e ↦ rw e (elim (Bool-cases (info u.child).trivia) [
            | inl t ↦ rw t (
                cut-Emitted l pos m u.start u.end (unit_seg u).kind (flush_acc false v.acc v.out)
                  w.0 (omega arith) (flush_acc-Emitted l pos m false v.acc v.out r))
            | inr t ↦ rw t (
                descend_with-Emitted m none u (flush_acc false v.acc v.out) w
                  (flush_acc-Emitted l pos m false v.acc v.out r))
          ])
        ]

    not_absorbed-Ready :
        (root : Bool) (m : ℕ) (u : ChildUnit) (v : Loop)
        → UnitAt l pos m u
        → Ready l pos m v.acc v.out
        → let v' = not_absorbed l root d u v in Ready l pos (u.end + 1) v'.acc v'.out
    unfolding not_absorbed
    not_absorbed-Ready root m u v w r =
        elim (Bool-cases (header l root v && not (info u.child).trivia)) [
          | inl e ↦ rw e (descend_with-Emitted m v.acc u v.out w r)
          | inr e ↦ rw e (after_flush-Ready m u v w r)
        ]

    round_with-Ready :
        (root : Bool) (m : ℕ) (u : ChildUnit) (v : Loop) (a : Option Seg)
        → UnitAt l pos m u
        → Ready l pos m v.acc v.out
        → Ready l pos m a v.out
        → let v' = round_with l root d u v a in Ready l pos (u.end + 1) v'.acc v'.out
    unfolding round_with unit_seg
    round_with-Ready root m u v none w r q = not_absorbed-Ready root m u v w r
    round_with-Ready root m u v (some a) w r q = elim (Bool-cases (ltb (u.end - a.start) l.max)) [
      | inl e ↦ rw e (absorb-Ready l pos m a (unit_seg u) v.out q w.0 (omega arith) (ground arith))
      | inr e ↦ rw e (not_absorbed-Ready root m u v w r)
    ]

    child_rounds-Ready :
        (root : Bool) (last m : ℕ) (us : List ChildUnit) (v : Loop)
        → m ≤ last + 1
        → UnitsFrom l last m us
        → Ready l pos m v.acc v.out
        → let v' = child_rounds l root d us v in Ready l pos (last + 1) v'.acc v'.out
    unfolding child_rounds child_round
    child_rounds-Ready root last m [] v h f r = Ready-mono l pos m (last + 1) v.acc v.out h r
    child_rounds-Ready root last m (u ∷ us) v h f r =
        child_rounds-Ready root last (u.end + 1) us (child_round l root d u v) (omega arith) f.7
          (round_with-Ready root m u v v.acc (f.0, f.1, f.2, f.3, f.4, f.6) r r)

    last_acc-Emitted :
        (m : ℕ) (flushed : Bool) (a : Option Seg) (out : List Seg)
        → Ready l pos m a out
        → Emitted l pos m (last_acc flushed a out)
    unfolding last_acc
    last_acc-Emitted m flushed none out r = r
    last_acc-Emitted m true (some a) out r = r
    last_acc-Emitted m false (some a) out r = r

    children_of-Emitted :
        (root : Bool) (n : Node) (floor : ℕ) (carry : Option Seg) (out : List Seg)
        → IsNested l n
        → floor ≤ last_row l n + 1
        → Ready l pos floor carry out
        → Emitted l pos (last_row l n + 1) (children_of l root d n floor carry out)
    unfolding children_of
    children_of-Emitted root n floor carry out k h r =
        let start : Loop = record { acc = carry; flushed = false; own_from = none; out = out } in
        let v = child_rounds l root d (units l n floor) start in
        last_acc-Emitted (last_row l n + 1) v.flushed v.acc v.out (
          child_rounds-Ready root (last_row l n) floor (units l n floor) start h
            (units-order l n floor k) r)

  with_carry-Emitted :
      (carry : Option Seg) (n : Node) (s e : ℕ) (out : List Seg)
      → s ≤ e
      → Ready l pos s carry out
      → e - first_row carry s < l.max
      → Emitted l pos (e + 1) (with_carry carry (own_seg n s e) ∷ out)
  unfolding with_carry own_seg first_row
  with_carry-Emitted none n s e out h r fits = (h, omega arith, fits, r)
  with_carry-Emitted (some c) n s e out h r fits =
      let m : min s c.start ≡ c.start = omega arith in
      (omega arith, omega arith, omega arith, subst (λ k. Emitted l pos k out) (sym m) r.3)

  first_row-Emitted :
      (carry : Option Seg) (s e : ℕ) (out : List Seg)
      → s ≤ e
      → Ready l pos s carry out
      → (first_row carry s ≤ e) × Emitted l pos (first_row carry s) out
  unfolding first_row
  first_row-Emitted none s e out h r = (h, r)
  first_row-Emitted (some c) s e out h r = (omega arith, r.3)

  push_carry-Emitted :
      (m : ℕ) (carry : Option Seg) (out : List Seg)
      → Ready l pos m carry out
      → Emitted l pos m (push_carry carry out)
  unfolding push_carry
  push_carry-Emitted m none out r = r
  push_carry-Emitted m (some c) out r = r

  emit-Emitted :
      (deep : Bool) (split : ℕ → List Seg) (n : Node) (floor : ℕ) (carry : Option Seg)
      (out : List Seg) (o : Option (ℕ × ℕ))
      → Ready l pos floor carry out
      → RowsOf l n floor o
      → ((s : ℕ)
          → deep ≡ false
          → s ≤ last_row l n
          → Ready l pos s carry out
          → Emitted l pos (last_row l n + 1) (split s))
      → Emitted l pos (max floor (last_row l n + 1)) (emit l deep split n carry out o)
  unfolding emit
  emit-Emitted deep split n floor carry out none r o f =
      Emitted-mono l pos floor (max floor (last_row l n + 1)) (push_carry carry out) (omega arith)
        (push_carry-Emitted floor carry out r)
  emit-Emitted deep split n floor carry out (some (s, e)) r (lo, hi, eq) f =
      let here = Ready-mono l pos floor s carry out lo r in
      let (in_rows, before) = first_row-Emitted carry s e out hi here in
      let start = first_row carry s in
      let e' : e + 1 ≤ max floor (last_row l n + 1) = omega arith in
      elim (Bool-cases (ltb (e - start) l.max)) [
        | inl fits ↦ rw fits (
            Emitted-mono l pos (e + 1) (max floor (last_row l n + 1))
              (with_carry carry (own_seg n s e) ∷ out) e'
              (with_carry-Emitted carry n s e out hi here (ground arith)))
        | inr big ↦ rw big (elim (Bool-cases (deep || not (has_children n))) [
          | inl c ↦ rw c (
              Emitted-mono l pos (e + 1) (max floor (last_row l n + 1))
                (cut l start e (info n).kind out) e'
                (cut-Emitted l pos start start e (info n).kind out (omega arith) (omega arith)
                  before))
          | inr c ↦ rw c (
              Emitted-mono l pos (last_row l n + 1) (max floor (last_row l n + 1)) (split s)
                (omega arith) (f s (ground arith) (omega arith) here))
        ])
      ]

  node_at-Descends : (depth : ℕ) → Descends (node_at l depth)
  unfolding node_at
  node_at-Descends zero n floor carry out k r =
      emit-Emitted true (λ s. out) n floor carry out (rows_of l n floor) r
        (rows_of-RowsOf l n floor) (λ s e. cc)
  node_at-Descends (suc depth) n floor carry out k r =
      emit-Emitted false (λ s. children_of l false (node_at l depth) n s carry out) n floor carry
        out (rows_of l n floor) r (rows_of-RowsOf l n floor)
        (λ s e h q.
          children_of-Emitted (node_at l depth) (node_at-Descends depth) false n s carry out k
            (omega arith) q)

  -- Whatever the tree, as long as the rows of its nodes are nested, the segments of the whole walk
  -- do not overlap, stand in file order, end by the last row of the root, and fit `max_lines`.
  pub segment-Emitted :
      (root : Node) → IsNested l root → Emitted l pos (last_row l root + 1) (segment l root)
  unfolding segment
  segment-Emitted root k =
      children_of-Emitted (node_at l (max_depth - 1)) (node_at-Descends (max_depth - 1)) true root 0
        none [] k (omega arith) tt
