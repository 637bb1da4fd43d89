-- ===== src/Parse/Tree.antt =====
-- The syntax tree that crates/laya-parse/src/cast.rs walks, as tree-sitter reports it: for each node
-- its kind, its positions, whether it is named, and what the kind table says of it.
use laya_codex.Common.{
  ℕ, ◌-◌, Bool, true, false, ◌&&◌, ◌||◌, Option, none, some, ◌==◌, ltb, if◌then◌else◌,
}
use laya_codex.Common.Text.{Text, text_eq, codes}

pub record NodeInfo : Type 0 where
  pub kind : Text
  pub named : Bool
  pub trivia : Bool
  pub start_row : ℕ
  pub end_row : ℕ
  pub end_column : ℕ
  -- The kinds of the children in the fields `declaration` and `definition`.
  pub declaration : Option Text
  pub definition : Option Text

mutual
  pub data Node : Type 0 where
    node : NodeInfo → Nodes → Node

  pub data Nodes : Type 0 where
    nil : Nodes
    cons : Node → Nodes → Nodes

abbrev pub info : Node → NodeInfo
info (node i cs) = i

abbrev pub children : Node → Nodes
children (node i cs) = cs

-- `node_rows` of src/defs.rs: a node that ends in column 0 does not own that last row.
unfoldable pub node_rows : NodeInfo → ℕ × ℕ
node_rows i = (
  i.start_row,
  if i.end_column == 0 && ltb i.start_row i.end_row then i.end_row - 1 else i.end_row,
)

last_named : Nodes → Option Text
last_named nil = none
last_named (cons n ns) = elim (last_named ns) [
  | some k ↦ some k
  | none ↦ if (info n).named then some (info n).kind else none
]

or_kind : Option Text → Option Text → Option Text
or_kind none o = o
or_kind (some k) o = some k

or_own : Option Text → Text → Text
or_own none own = own
or_own (some k) own = k

-- The kind, looking through wrappers to what they declare.
unfoldable pub kind_of : Node → Text
unfolding last_named or_kind or_own text_eq
kind_of (node i cs) =
    if text_eq i.kind (codes "export_statement")
      || text_eq i.kind (codes "decorated_definition")
      || text_eq i.kind (codes "template_declaration")
    then or_own (or_kind i.declaration (or_kind i.definition (last_named cs))) i.kind
    else i.kind

unfoldable pub has_children : Node → Bool
has_children (node i nil) = false
has_children (node i (cons c cs)) = true
