-- ===== src/Parse/Segments/UnitOrder.antt =====
-- The units of a node (`Segmenter::units` in crates/laya-parse/src/cast.rs) stand in file order.
use laya_codex.Common.{
  ℕ, ◌+◌, ◌-◌, ◌≤◌, ◌<◌, ◌≡◌, refl, min, max, Bool, true, false, Option, none, some, List, [], ◌∷◌,
  ◌++◌, arith, leb, leb→le, Bool-cases, inl, inr,
}
use mathlib.Core.List.{append-nil}
use laya_codex.Parse.Tree.{Node, Nodes, node, nil, cons, info, node_rows}
use laya_codex.Parse.Segments.{
  ChildUnit, Trivia, Limits, rows_of, extend_trivia, trivia_unit, child_unit, take_trivia,
  unit_round, units_from, units,
}

module _ (l : Limits) where
  -- The last row of the file that a node owns.
  abbrev pub last_row : Node → ℕ
  last_row n = min (node_rows (info n)).1 (l.rows - 1)

  -- The rows of a child end within its parent, as a syntax tree reports them.
  unfoldable mutual
    pub IsNested : Node → Type 0
    IsNested (node i cs) = AreNested (min (node_rows i).1 (l.rows - 1)) cs

    pub AreNested : ℕ → Nodes → Type 0
    AreNested e nil = Unit
    AreNested e (cons n ns) = (last_row n ≤ e) × IsNested n × AreNested e ns

  -- The rows that `rows_of` gives a node from row `floor` on.
  abbrev pub RowsOf : Node → ℕ → Option (ℕ × ℕ) → Type 0
  RowsOf n floor none = Unit
  RowsOf n floor (some (s, e)) = (floor ≤ s) × (s ≤ e) × (e ≡ last_row n)

  pub rows_of-RowsOf : (n : Node) (floor : ℕ) → RowsOf n floor (rows_of l n floor)
  unfolding rows_of
  rows_of-RowsOf n floor =
      let s : ℕ = max (node_rows (info n)).0 floor in
      elim (Bool-cases (leb s (last_row n))) [
        | inl e ↦ rw e (omega arith, leb→le s (last_row n) e, refl)
        | inr e ↦ rw e tt
      ]

  -- Units in file order from row `m` on, up to row `last`.
  abbrev pub UnitsFrom : ℕ → ℕ → List ChildUnit → Type 0
  UnitsFrom last m [] = Unit
  UnitsFrom last m (u ∷ us) =
      (m ≤ u.start)
      × (u.start ≤ u.node_start)
      × (u.node_start ≤ u.end)
      × (u.has_trivia ≡ true → u.start < u.node_start)
      × (last_row u.child ≤ u.end)
      × (u.end ≤ last)
      × IsNested u.child
      × UnitsFrom last (u.end + 1) us

  -- Trivia that wait, on rows from `m` on and below `next`.
  abbrev TriviaIn : ℕ → ℕ → ℕ → Option Trivia → Type 0
  TriviaIn last m next none = Unit
  TriviaIn last m next (some t) =
      (m ≤ t.first)
      × (t.first ≤ t.last)
      × (t.last < next)
      × (last_row t.first_node ≤ t.last)
      × (t.last ≤ last)
      × IsNested t.first_node

  module _ (last : ℕ) where
    UnitsFrom-mono :
        (m m' : ℕ) (us : List ChildUnit) → m' ≤ m → UnitsFrom last m us → UnitsFrom last m' us
    UnitsFrom-mono m m' [] h f = tt
    UnitsFrom-mono m m' (u ∷ us) h f = (omega arith, f.1, f.2, f.3, f.4, f.5, f.6, f.7)

    trivia_unit-order :
        (m next : ℕ) (t : Option Trivia) (us : List ChildUnit)
        → m ≤ next
        → TriviaIn last m next t
        → UnitsFrom last next us
        → UnitsFrom last m (trivia_unit t ++ us)
    unfolding trivia_unit
    trivia_unit-order m next none us h t f = UnitsFrom-mono next m us h f
    trivia_unit-order m next (some x) us h t f = (
      t.0,
      omega arith,
      t.1,
      λ e. cc,
      t.3,
      t.4,
      t.5,
      UnitsFrom-mono next (x.last + 1) us (omega arith) f,
    )

    take_trivia-order :
        (m next s e : ℕ) (n : Node) (named : Bool) (t : Option Trivia) (us : List ChildUnit)
        → m ≤ next
        → TriviaIn last m next t
        → next ≤ s
        → s ≤ e
        → last_row n ≤ e
        → e ≤ last
        → IsNested n
        → UnitsFrom last (e + 1) us
        → UnitsFrom last m (take_trivia t named s e n ++ us)
    unfolding take_trivia child_unit
    take_trivia-order m next s e n true (some t) us h w a b c d k f =
        (w.0, omega arith, b, λ x. omega arith, c, d, k, f)
    take_trivia-order m next s e n false (some t) us h w a b c d k f = (
      w.0,
      omega arith,
      w.1,
      λ x. cc,
      w.3,
      w.4,
      w.5,
      (omega arith, omega arith, b, λ x. cc, c, d, k, f),
    )
    take_trivia-order m next s e n named none us h w a b c d k f =
        (omega arith, omega arith, b, λ x. cc, c, d, k, f)

    extend_trivia-in :
        (m next s e : ℕ) (n : Node) (t : Option Trivia)
        → m ≤ next
        → TriviaIn last m next t
        → next ≤ s
        → s ≤ e
        → last_row n ≤ e
        → e ≤ last
        → IsNested n
        → TriviaIn last m (e + 1) (some (extend_trivia t s e n))
    unfolding extend_trivia
    extend_trivia-in m next s e n none h w a b c d k = (omega arith, b, omega arith, c, d, k)
    extend_trivia-in m next s e n (some t) h w a b c d k =
        (w.0, omega arith, omega arith, omega arith, d, w.5)

    -- One child, whatever `rest` gives for the children behind it.
    unit_round-order :
        (m next : ℕ) (t : Option Trivia) (n : Node) (o : Option (ℕ × ℕ))
        (rest : ℕ → Option Trivia → List ChildUnit)
        → m ≤ next
        → TriviaIn last m next t
        → last_row n ≤ last
        → IsNested n
        → RowsOf n next o
        → ((m' next' : ℕ) (t' : Option Trivia)
            → m' ≤ next'
            → TriviaIn last m' next' t'
            → UnitsFrom last m' (rest next' t'))
        → let r = unit_round o next t n in UnitsFrom last m (r.2 ++ rest r.0 r.1)
    unfolding unit_round
    unit_round-order m next t n none rest h w a k r f = f m next t h w
    unit_round-order m next t n (some (s, e)) rest h w a k r f = elim (Bool-cases (info n).trivia) [
      | inl c ↦ rw c (
          f m (e + 1) (some (extend_trivia t s e n)) (omega arith)
            (extend_trivia-in m next s e n t h w r.0 r.1 (omega arith) (omega arith) k))
      | inr c ↦ rw c (
          take_trivia-order m next s e n (info n).named t (rest (e + 1) none) h w r.0 r.1
            (omega arith) (omega arith) k (f (e + 1) (e + 1) none (omega arith) tt))
    ]

    -- The units of a list of children, with the trivia that wait before them.
    units_from-order :
        (m next : ℕ) (t : Option Trivia) (ns : Nodes)
        → m ≤ next
        → TriviaIn last m next t
        → AreNested last ns
        → UnitsFrom last m (units_from l next t ns)
    unfolding units_from IsNested
    units_from-order m next t nil h w k =
        rw (← append-nil (trivia_unit t)) (trivia_unit-order m next t [] h w tt)
    units_from-order m next t (cons n ns) h w k =
        unit_round-order m next t n (rows_of l n next) (λ next' t'. units_from l next' t' ns) h w
          k.0 k.1 (rows_of-RowsOf n next)
          (λ m' next' t' h' w'. units_from-order m' next' t' ns h' w' k.2)

  -- The units of a node from row `floor` on.
  pub units-order :
      (n : Node) (floor : ℕ) → IsNested n → UnitsFrom (last_row n) floor (units l n floor)
  unfolding units IsNested
  units-order (node i cs) floor k =
      units_from-order (last_row (node i cs)) floor floor none cs (omega arith) tt k
