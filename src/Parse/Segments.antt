-- ===== src/Parse/Segments.antt =====
-- crates/laya-parse/src/cast.rs: cAST chunking, as segments of rows. `Segmenter::out` is kept newest
-- first.
pub mod Walk
pub mod Finish
pub mod UnitOrder
use laya_codex.Common.{
  ℕ, zero, suc, ◌+◌, ◌-◌, ◌/◌, ◌*◌, min, max, Bool, true, false, not, ◌&&◌, ◌||◌, Option, none,
  some, List, [], ◌∷◌, ◌++◌, leb, ltb, if◌then◌else◌,
}
use laya_codex.Common.Text.{Text, codes}
use laya_codex.Parse.Tree.{
  Node, Nodes, node, nil, cons, info, children, node_rows, kind_of, has_children,
}

pub data Affinity : Type 0 where
  either back fwd : Affinity

pub record Seg : Type 0 where
  pub start : ℕ
  pub end : ℕ
  pub kind : Text
  pub weight : ℕ
  pub affinity : Affinity

abbrev pub seg_rows : Seg → ℕ
seg_rows s = s.end - s.start + 1

unfoldable pub absorb : Seg → Seg → Seg
absorb s other = record {
  start = min s.start other.start;
  end = max s.end other.end;
  kind = if ltb s.weight other.weight then other.kind else s.kind;
  weight = if ltb s.weight other.weight then other.weight else s.weight;
  affinity = s.affinity;
}

-- `Unit`: a child node with the comment and attribute rows directly before it.
pub record ChildUnit : Type 0 where
  pub start : ℕ
  pub end : ℕ
  pub child : Node
  pub node_start : ℕ
  pub has_trivia : Bool

unfoldable pub unit_seg : ChildUnit → Seg
unit_seg u = record {
  start = u.start;
  end = u.end;
  kind = kind_of u.child;
  weight = if (info u.child).named then u.end - u.node_start + 1 else 0;
  affinity = either;
}

-- The fields of `Segmenter` that do not change.
pub record Limits : Type 0 where
  pub max : ℕ
  pub header_max : ℕ
  pub rows : ℕ

abbrev clamped : ℕ → ℕ → Option (ℕ × ℕ)
clamped s e = if leb s e then some (s, e) else none

unfoldable pub rows_of : Limits → Node → ℕ → Option (ℕ × ℕ)
unfolding node_rows
rows_of l n floor = let (s, e) = node_rows (info n) in clamped (max s floor) (min e (l.rows - 1))

-- The trivia that wait for the next child: their first and last row, and the first node.
pub record Trivia : Type 0 where
  pub first : ℕ
  pub last : ℕ
  pub first_node : Node

pub extend_trivia : Option Trivia → ℕ → ℕ → Node → Trivia
extend_trivia none s e n = record { first = s; last = e; first_node = n }
extend_trivia (some t) s e n = record t { last = e }

pub trivia_unit : Option Trivia → List ChildUnit
trivia_unit none = []
trivia_unit (some t) =
    record {
      start = t.first;
      end = t.last;
      child = t.first_node;
      node_start = t.first;
      has_trivia = false;
    }
    ∷ []

pub child_unit : ℕ → ℕ → Node → ChildUnit
child_unit s e n = record { start = s; end = e; child = n; node_start = s; has_trivia = false }

-- The units that a child on rows `s..=e` completes, by whether it is named.
pub take_trivia : Option Trivia → Bool → ℕ → ℕ → Node → List ChildUnit
unfolding trivia_unit child_unit
take_trivia (some t) true s e n =
    record { start = t.first; end = e; child = n; node_start = s; has_trivia = true } ∷ []
take_trivia (some t) false s e n = trivia_unit (some t) ++ child_unit s e n ∷ []
take_trivia none named s e n = child_unit s e n ∷ []

-- One child: the next free row, the trivia that wait, and the units completed.
pub unit_round : Option (ℕ × ℕ) → ℕ → Option Trivia → Node → ℕ × Option Trivia × List ChildUnit
unfolding extend_trivia take_trivia
unit_round none next_free trivia n = (next_free, trivia, [])
unit_round (some (s, e)) next_free trivia n =
    if (info n).trivia
    then (e + 1, some (extend_trivia trivia s e n), [])
    else (e + 1, none, take_trivia trivia (info n).named s e n)

pub units_from : Limits → ℕ → Option Trivia → Nodes → List ChildUnit
unfolding unit_round rows_of
units_from l next_free trivia nil = trivia_unit trivia
units_from l next_free trivia (cons n ns) =
    let (next', trivia', us) = unit_round (rows_of l n next_free) next_free trivia n in
    us ++ units_from l next' trivia' ns

unfoldable pub units : Limits → Node → ℕ → List ChildUnit
unfolding units_from
units l n floor = units_from l floor none (children n)
