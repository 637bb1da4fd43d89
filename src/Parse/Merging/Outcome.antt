-- ===== src/Parse/Merging/Outcome.antt =====
-- What a whole merge walk leaves (crates/laya-parse/src/text.rs and src/cast.rs).
use laya_codex.Common.{rev_onto, ℕ, ◌+◌, ◌≡◌, true, List, [], ◌∷◌, arith, All, ◌||◌}
use laya_codex.Parse.Config.{ChunkConfig, Span, covers}
use laya_codex.Parse.Merging.{
  Step, Walk, Below, From, From-mono, Apart, Settled, Fits, Step-Walk, Step-Fits, Step-All,
  Step-covers, hull,
}

module _ (cfg : ChunkConfig) where
  -- The walk from its cursor to the spans that it leaves.
  pub data Walks : List Span → List Span → List Span → Type 0 where
    ends : (done : List Span) → Walks done [] (rev_onto done [])
    more :
        {done todo done' todo' r : List Span}
        → Step cfg done todo done' todo'
        → Walks done' todo' r
        → Walks done todo r

  -- Of each two neighbours, either both are large enough or they do not fit together.
  abbrev pub AllApart : List Span → Type 0
  AllApart [] = Unit {0}
  AllApart (x ∷ []) = Unit {0}
  AllApart (x ∷ y ∷ rest) = Apart cfg x y × AllApart (y ∷ rest)

  pub record IsMerged (before after : List Span) : Type 0 where
    pub ordered : From cfg 0 after
    pub apart : AllApart after
    pub fits : All (Fits cfg) after
    pub kept : (r : ℕ) → covers before r ≡ true → covers after r ≡ true

  From-rev_onto :
      (m : ℕ) (done todo : List Span)
      → Below cfg m done
      → From cfg m todo
      → From cfg 0 (rev_onto done todo)
  From-rev_onto m [] todo b f = From-mono cfg m 0 todo (omega arith) f
  From-rev_onto m (x ∷ done) todo b f =
      From-rev_onto x.first done (x ∷ todo) b.2
        (omega arith, b.0, From-mono cfg m (x.last + 1) todo (omega arith) f)

  abbrev Linked : List Span → List Span → Type 0
  Linked [] todo = Unit {0}
  Linked (x ∷ done) [] = Unit {0}
  Linked (x ∷ done) (y ∷ todo) = Apart cfg x y

  AllApart-cons :
      (x : Span) (done todo : List Span)
      → Linked (x ∷ done) todo
      → AllApart todo
      → AllApart (x ∷ todo)
  AllApart-cons x done [] l a = tt
  AllApart-cons x done (y ∷ todo) l a = (l, a)

  AllApart-rev_onto :
      (done todo : List Span)
      → Settled cfg done
      → Linked done todo
      → AllApart todo
      → AllApart (rev_onto done todo)
  AllApart-rev_onto [] todo s l a = a
  AllApart-rev_onto (x ∷ []) todo s l a = AllApart-cons x [] todo l a
  AllApart-rev_onto (x ∷ p ∷ done) todo s l a =
      AllApart-rev_onto (p ∷ done) (x ∷ todo) s.1 s.0 (AllApart-cons x (p ∷ done) todo l a)

  All-rev_onto :
      (P : Span → Type 0) (done todo : List Span)
      → All P done
      → All P todo
      → All P (rev_onto done todo)
  All-rev_onto P [] todo a b = b
  All-rev_onto P (x ∷ done) todo a b = All-rev_onto P done (x ∷ todo) a.1 (a.0, b)

  covers-rev_onto :
      (done todo : List Span) (r : ℕ)
      → (covers done r || covers todo r) ≡ true
      → covers (rev_onto done todo) r ≡ true
  covers-rev_onto [] todo r h = h
  covers-rev_onto (x ∷ done) todo r h = covers-rev_onto done (x ∷ todo) r (ground arith)

  Linked-nil : (done : List Span) → Linked done []
  Linked-nil [] = tt
  Linked-nil (x ∷ done) = tt

  Walks-lem :
      {done todo r : List Span} (m : ℕ)
      → Walks done todo r
      → Walk cfg m done todo
      → All (Fits cfg) done × All (Fits cfg) todo
      → From cfg 0 r
        × AllApart r
        × All (Fits cfg) r
        × ((i : ℕ) → (covers done i || covers todo i) ≡ true → covers r i ≡ true)
  Walks-lem m (ends done) w f = (
    From-rev_onto m done [] w.before tt,
    AllApart-rev_onto done [] w.settled (Linked-nil done) tt,
    All-rev_onto (Fits cfg) done [] f.0 tt,
    covers-rev_onto done [],
  )
  Walks-lem m (more st ws) w f =
      let (m', w') = Step-Walk cfg m st w in
      let (o, a, s, k) = Walks-lem m' ws w' (Step-Fits cfg st f) in
      (o, a, s, λ i h. k i (Step-covers cfg m i st w h))

  -- A walk over spans in file order that each fit `max_lines`.
  pub Walks-IsMerged :
      {before after : List Span}
      → From cfg 0 before
      → All (Fits cfg) before
      → Walks [] before after
      → IsMerged before after
  Walks-IsMerged o f ws =
      let (o', a, s, k) =
        Walks-lem 0 ws (record { before = tt; behind = o; settled = tt; pending = tt }) (tt, f) in
      record { ordered = o'; apart = a; fits = s; kept = k }

  pub Walks-All :
      (P : Span → Type 0)
      → ((a b : Span) → P a → P b → P (hull a b))
      → {done todo r : List Span} → Walks done todo r
      → All P done × All P todo
      → All P r
  Walks-All P join (ends done) f = All-rev_onto P done [] f.0 tt
  Walks-All P join (more st ws) f = Walks-All P join ws (Step-All cfg P join st f)
