-- ===== src/Parse/Segments/Walk.antt =====
-- `Segmenter` of crates/laya-parse/src/cast.rs: the walk over the tree that emits segments, here
-- newest first. `depth` counts down from `MAX_DEPTH`.
pub mod Order
pub mod Descent
use laya_codex.Common.{
  ℕ, zero, suc, ◌+◌, ◌-◌, ◌/◌, min, max, Bool, true, false, not, ◌&&◌, ◌||◌, Option, none, some,
  List, [], ◌∷◌, leb, ltb, if◌then◌else◌,
}
use laya_codex.Common.Text.{Text, codes}
use laya_codex.Parse.Tree.{Node, info, has_children}
use laya_codex.Parse.Segments.{
  Affinity, either, back, fwd, Seg, seg_rows, absorb, ChildUnit, unit_seg, Limits, rows_of, units,
}

abbrev pub max_depth : ℕ
max_depth = 256

-- `cut`: the rows `a..=end` in pieces of `max` rows. Each piece takes a row at least, so `left`,
-- the number of the rows, is enough rounds.
pub cut_rows : ℕ → ℕ → ℕ → ℕ → Text → List Seg → List Seg
cut_rows max zero a end kind out = out
cut_rows max (suc left) a end kind out =
    let b = min (a + max - 1) end in
    let piece : Seg = record {
      start = a;
      end = b;
      kind = kind;
      weight = b - a + 1;
      affinity = either;
    } in
    let rest = cut_rows max left (b + 1) end kind (piece ∷ out) in if leb a end then rest else out

unfoldable pub cut : Limits → ℕ → ℕ → Text → List Seg → List Seg
unfolding cut_rows
cut l start end kind out = cut_rows l.max (end + 1 - start) start end kind out

trivia_seg : ChildUnit → Option Seg
trivia_seg u =
    if u.has_trivia
    then some (record {
      start = u.start;
      end = u.node_start - 1;
      kind = codes "comment";
      weight = 0;
      affinity = fwd;
    })
    else none

join_carry : Option Seg → Option Seg → Option Seg
unfolding absorb
join_carry (some p) (some t) = some (absorb p t)
join_carry (some p) none = some p
join_carry none t = t

push_prefix : Option Seg → List Seg → List Seg
push_prefix none out = out
push_prefix (some p) out = record p { affinity = fwd } ∷ out

-- Where the comment block that is too long to carry starts.
block_start : Option Seg → Seg → ℕ → ℕ
block_start none c start = max c.start start
block_start (some p) c start = max (p.end + 1) start

carry_on : Limits → Option Seg → ChildUnit → Option Seg → List Seg → Option Seg × List Seg
unfolding cut push_prefix block_start
carry_on l prefix u none out = (none, out)
carry_on l prefix u (some c) out =
    if leb (seg_rows c) (l.max / 2) then (some (record c { weight = 0 }), out) else (
      none,
      if u.has_trivia
          then cut l (block_start prefix c u.start) (u.node_start - 1) (codes "comment")
              (push_prefix prefix out)
          else push_prefix prefix out,
    )

-- Leading comment rows of a split unit, carried into its first piece when small enough.
unfoldable pub trivia_carry : Limits → Option Seg → ChildUnit → List Seg → Option Seg × List Seg
unfolding carry_on trivia_seg join_carry
trivia_carry l prefix u out = carry_on l prefix u (join_carry prefix (trivia_seg u)) out

-- The variables of the loop of `children`.
pub record Loop : Type 0 where
  pub acc : Option Seg
  pub flushed : Bool
  pub own_from : Option ℕ
  pub out : List Seg

or_from : Option ℕ → ℕ → ℕ
or_from none start = start
or_from (some f) start = f

own_rows : Option ℕ → Seg → ℕ
own_rows none a = 0
own_rows (some f) a = a.end + 1 - f

header : Limits → Bool → Loop → Bool
unfolding own_rows
header l is_root v = elim v.acc [
  | none ↦ false
  | some a ↦
      not is_root
      && not v.flushed
      && leb (own_rows v.own_from a) l.header_max
      && leb (seg_rows a) (l.max / 2)
]

-- Emits a node from a row on, with what is carried into it.
abbrev pub Descend : Type 0
Descend = Node → ℕ → Option Seg → List Seg → List Seg

descend_with : Limits → Descend → Option Seg → ChildUnit → List Seg → List Seg
unfolding trivia_carry
descend_with l descend prefix u out =
    let (carry, out') = trivia_carry l prefix u out in descend u.child u.node_start carry out'

pub flush_acc : Bool → Option Seg → List Seg → List Seg
flush_acc fits none out = out
flush_acc fits (some a) out = record a { affinity = if fits then either else fwd } ∷ out

is_some : Option Seg → Bool
is_some none = false
is_some (some a) = true

-- A unit behind a flushed accumulator.
after_flush : Limits → Descend → ChildUnit → Loop → Loop
unfolding flush_acc is_some descend_with cut unit_seg
after_flush l descend u v =
    let fits = ltb (u.end - u.start) l.max in
    let out = flush_acc fits v.acc v.out in
    if fits
    then record {
      acc = some (unit_seg u);
      flushed = v.flushed || is_some v.acc;
      own_from = some u.start;
      out = out;
    }
    else record v {
      acc = none;
      flushed = true;
      out =
          if (info u.child).trivia
          then cut l u.start u.end (unit_seg u).kind out
          else descend_with l descend none u out;
    }

-- A unit that the accumulator, if there is one, has no room for.
not_absorbed : Limits → Bool → Descend → ChildUnit → Loop → Loop
unfolding header descend_with after_flush
not_absorbed l is_root descend u v =
    if header l is_root v && not (info u.child).trivia
    then record v { acc = none; flushed = true; out = descend_with l descend v.acc u v.out }
    else after_flush l descend u v

-- A unit, with the accumulator, or none.
round_with : Limits → Bool → Descend → ChildUnit → Loop → Option Seg → Loop
unfolding not_absorbed or_from absorb unit_seg
round_with l is_root descend u v none = not_absorbed l is_root descend u v
round_with l is_root descend u v (some a) =
    if ltb (u.end - a.start) l.max
    then record v {
      acc = some (absorb a (unit_seg u));
      own_from = some (or_from v.own_from u.start);
    }
    else not_absorbed l is_root descend u v

unfoldable pub child_round : Limits → Bool → Descend → ChildUnit → Loop → Loop
unfolding round_with
child_round l is_root descend u v = round_with l is_root descend u v v.acc

pub child_rounds : Limits → Bool → Descend → List ChildUnit → Loop → Loop
unfolding child_round
child_rounds l is_root descend [] v = v
child_rounds l is_root descend (u ∷ us) v =
    child_rounds l is_root descend us (child_round l is_root descend u v)

last_acc : Bool → Option Seg → List Seg → List Seg
last_acc flushed none out = out
last_acc flushed (some a) out = (if flushed then record a { affinity = back } else a) ∷ out

unfoldable pub children_of : Limits → Bool → Descend → Node → ℕ → Option Seg → List Seg → List Seg
unfolding child_rounds last_acc units
children_of l is_root descend n floor carry out =
    let v =
      child_rounds l is_root descend (units l n floor)
        (record { acc = carry; flushed = false; own_from = none; out = out }) in
    last_acc v.flushed v.acc v.out

push_carry : Option Seg → List Seg → List Seg
push_carry none out = out
push_carry (some c) out = c ∷ out

first_row : Option Seg → ℕ → ℕ
first_row none s = s
first_row (some c) s = c.start

with_carry : Option Seg → Seg → Seg
unfolding absorb
with_carry none own = own
with_carry (some c) own = absorb own c

own_seg : Node → ℕ → ℕ → Seg
own_seg n s e = record {
  start = s;
  end = e;
  kind = (info n).kind;
  weight = e - s + 1;
  affinity = either;
}

-- A node on rows `s..=e`; `split` emits its children.
emit : Limits → Bool → (ℕ → List Seg) → Node → Option Seg → List Seg → Option (ℕ × ℕ) → List Seg
unfolding push_carry first_row with_carry own_seg cut
emit l deep split n carry out none = push_carry carry out
emit l deep split n carry out (some (s, e)) =
    let start = first_row carry s in
    if ltb (e - start) l.max
    then with_carry carry (own_seg n s e) ∷ out
    else if deep || not (has_children n)
    then cut l start e (info n).kind out
    else split s

-- `Segmenter::node`, `depth` levels above `MAX_DEPTH`.
pub node_at : Limits → ℕ → Descend
unfolding emit children_of rows_of
node_at l zero n floor carry out = emit l true (λ s. out) n carry out (rows_of l n floor)
node_at l (suc depth) n floor carry out =
    emit l false (λ s. children_of l false (node_at l depth) n s carry out) n carry out
      (rows_of l n floor)

-- The segments of a whole tree, as `chunk_tree` asks for them.
unfoldable pub segment : Limits → Node → List Seg
unfolding node_at children_of
segment l root = children_of l true (node_at l (max_depth - 1)) root 0 none []
