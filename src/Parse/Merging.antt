-- ===== src/Parse/Merging.antt =====
-- What the merge passes of crates/laya-parse/src/text.rs and src/cast.rs share: a walk over spans in
-- which each span below `min_lines` joins a neighbour if the two fit `max_lines`. `done` holds the
-- spans before the cursor, the nearest first, and `todo` the rest.
pub mod Outcome
use laya_codex.Common.{
  ℕ, zero, suc, ◌+◌, ◌-◌, ◌*◌, ◌≤◌, ◌<◌, ◌≡◌, refl, Bool, true, false, List, [], ◌∷◌, arith, length,
  All, inl, inr, any, ◌||◌, ◌&&◌, leb, Bool-cases,
}
use laya_codex.Parse.Config.{ChunkConfig, Span, within, covers, rows}

abbrev pub hull : Span → Span → Span
hull a b = record { first = a.first; last = b.last }

module _ (cfg : ChunkConfig) where
  -- `x` cannot join the span before it, or the one behind it.
  abbrev pub NoRoomBack : List Span → Span → Type 0
  NoRoomBack [] x = Unit {0}
  NoRoomBack (p ∷ done) x = cfg.max_lines ≤ x.last - p.first

  abbrev pub NoRoomAhead : Span → List Span → Type 0
  NoRoomAhead x [] = Unit {0}
  NoRoomAhead x (y ∷ todo) = cfg.max_lines ≤ y.last - x.first

  -- One round of the walk.
  pub data Step : List Span → List Span → List Span → List Span → Type 0 where
    pass :
        {done todo : List Span} (x : Span)
        → cfg.min_lines ≤ rows x
        → Step done (x ∷ todo) (x ∷ done) todo
    stay :
        {done todo : List Span} (x : Span)
        → NoRoomBack done x
        → NoRoomAhead x todo
        → Step done (x ∷ todo) (x ∷ done) todo
    back :
        {done todo : List Span} (p x : Span)
        → x.last - p.first < cfg.max_lines
        → Step (p ∷ done) (x ∷ todo) done (hull p x ∷ todo)
    ahead :
        {done todo : List Span} (x y : Span)
        → y.last - x.first < cfg.max_lines
        → Step done (x ∷ y ∷ todo) done (hull x y ∷ todo)

  -- In file order below row `m`, or from row `m` on, with no overlap.
  abbrev pub Below : ℕ → List Span → Type 0
  Below m [] = Unit {0}
  Below m (x ∷ done) = (x.first ≤ x.last) × (x.last < m) × Below x.first done

  abbrev pub From : ℕ → List Span → Type 0
  From m [] = Unit {0}
  From m (x ∷ todo) = (m ≤ x.first) × (x.first ≤ x.last) × From (x.last + 1) todo

  -- Two neighbours of which one is undersized do not fit `max_lines` together.
  abbrev pub Apart : Span → Span → Type 0
  Apart a b =
      (rows a < cfg.min_lines → cfg.max_lines ≤ b.last - a.first)
      × (rows b < cfg.min_lines → cfg.max_lines ≤ b.last - a.first)

  abbrev pub SettledBefore : Span → List Span → Type 0
  SettledBefore x [] = Unit {0}
  SettledBefore x (p ∷ done) = Apart p x × SettledBefore p done

  abbrev pub Settled : List Span → Type 0
  Settled [] = Unit {0}
  Settled (x ∷ done) = SettledBefore x done

  -- The nearest span before the cursor is either large enough or too far from the next one.
  abbrev pub Pending : List Span → List Span → Type 0
  Pending [] todo = Unit {0}
  Pending (p ∷ done) [] = Unit {0}
  Pending (p ∷ done) (x ∷ todo) = rows p < cfg.min_lines → cfg.max_lines ≤ x.last - p.first

  pub record Walk (m : ℕ) (done todo : List Span) : Type 0 where
    pub before : Below m done
    pub behind : From m todo
    pub settled : Settled done
    pub pending : Pending done todo

  Below-mono : (m m' : ℕ) (done : List Span) → m ≤ m' → Below m done → Below m' done
  Below-mono m m' [] h b = tt
  Below-mono m m' (x ∷ done) h b = (b.0, omega arith, b.2)

  pub From-mono : (m m' : ℕ) (todo : List Span) → m' ≤ m → From m todo → From m' todo
  From-mono m m' [] h f = tt
  From-mono m m' (x ∷ todo) h f = (omega arith, f.1, f.2)

  settle :
      (done todo : List Span) (x : Span)
      → Settled done
      → Pending done (x ∷ todo)
      → (rows x < cfg.min_lines → NoRoomBack done x)
      → SettledBefore x done
  settle [] todo x s p n = tt
  settle (q ∷ done) todo x s p n = ((p, n), s)

  pend :
      (done todo : List Span) (x : Span)
      → (rows x < cfg.min_lines → NoRoomAhead x todo)
      → Pending (x ∷ done) todo
  pend done [] x n = tt
  pend done (y ∷ todo) x n = n

  passed :
      (m : ℕ) (done todo : List Span) (x : Span)
      → (rows x < cfg.min_lines → NoRoomBack done x)
      → (rows x < cfg.min_lines → NoRoomAhead x todo)
      → Walk m done (x ∷ todo)
      → Walk (x.last + 1) (x ∷ done) todo
  passed m done todo x nb na w = record {
    before = (w.behind.1, omega arith, Below-mono m x.first done w.behind.0 w.before);
    behind = w.behind.2;
    settled = settle done todo x w.settled w.pending nb;
    pending = pend done todo x na;
  }

  -- A span that grows at its end is still too far for the one before.
  Pending-grown :
      (done todo todo' : List Span) (x z : Span)
      → x.first ≡ z.first
      → x.last ≤ z.last
      → Pending done (x ∷ todo)
      → Pending done (z ∷ todo')
  Pending-grown [] todo todo' x z e h p = tt
  Pending-grown (q ∷ done) todo todo' x z e h p = λ small. omega (arith, p small)

  Pending-joined :
      (done todo : List Span) (p z : Span)
      → p.last ≤ z.last
      → SettledBefore p done
      → Pending done (z ∷ todo)
  Pending-joined [] todo p z h s = tt
  Pending-joined (q ∷ done) todo p z h s = λ small. omega (arith, s.0.0 small)

  Settled-tail : (p : Span) (done : List Span) → SettledBefore p done → Settled done
  Settled-tail p [] s = tt
  Settled-tail p (q ∷ done) s = s.1

  -- Every round keeps the spans in order, apart, and settled up to the cursor.
  pub Step-Walk :
      {done todo done' todo' : List Span} (m : ℕ)
      → Step done todo done' todo'
      → Walk m done todo
      → (m' : ℕ) × Walk m' done' todo'
  Step-Walk m (pass {done} {todo} x big) w =
      (_, passed m done todo x (λ h. absurd (omega arith)) (λ h. absurd (omega arith)) w)
  Step-Walk m (stay {done} {todo} x b a) w = (_, passed m done todo x (λ h. b) (λ h. a) w)
  Step-Walk m (back {done} {todo} p x fits) w = (
    p.first,
    record {
      before = w.before.2;
      behind = (omega arith, omega arith, w.behind.2);
      settled = Settled-tail p done w.settled;
      pending = Pending-joined done todo p (hull p x) (omega arith) w.settled;
    },
  )
  Step-Walk m (ahead {done} {todo} x y fits) w = (
    m,
    record {
      before = w.before;
      behind = (w.behind.0, omega arith, w.behind.2.2);
      settled = w.settled;
      pending = Pending-grown done (y ∷ todo) todo x (hull x y) refl (omega arith) w.pending;
    },
  )

  -- All spans fit in `max_lines`.
  abbrev pub Fits : Span → Type 0
  Fits x = rows x ≤ cfg.max_lines

  pub Step-Fits :
      {done todo done' todo' : List Span}
      → Step done todo done' todo'
      → All Fits done × All Fits todo
      → All Fits done' × All Fits todo'
  Step-Fits (pass x big) f = ((f.1.0, f.0), f.1.1)
  Step-Fits (stay x b a) f = ((f.1.0, f.0), f.1.1)
  Step-Fits (back p x fits) f = (f.0.1, (omega arith, f.1.1))
  Step-Fits (ahead x y fits) f = (f.0, (omega arith, f.1.1.1))

  -- A row that some span held is still held.
  pub Step-covers :
      {done todo done' todo' : List Span} (m r : ℕ)
      → Step done todo done' todo'
      → Walk m done todo
      → (covers done r || covers todo r) ≡ true
      → (covers done' r || covers todo' r) ≡ true
  Step-covers m r (pass x big) w h = ground arith
  Step-covers m r (stay x b a) w h = ground arith
  Step-covers m r (back p x fits) w h = ground arith
  Step-covers m r (ahead x y fits) w h = ground arith

  -- Every round brings the walk nearer to its end.
  pub Step-shrinks :
      {done todo done' todo' : List Span}
      → Step done todo done' todo'
      → 2 * length todo' + length done' < 2 * length todo + length done
  Step-shrinks (pass x big) = omega arith
  Step-shrinks (stay x b a) = omega arith
  Step-shrinks (back p x fits) = omega arith
  Step-shrinks (ahead x y fits) = omega arith

  -- What holds of two spans and so of their hull stays true of all.
  pub Step-All :
      (P : Span → Type 0)
      → ((a b : Span) → P a → P b → P (hull a b))
      → {done todo done' todo' : List Span} → Step done todo done' todo'
      → All P done × All P todo
      → All P done' × All P todo'
  Step-All P join (pass x big) f = ((f.1.0, f.0), f.1.1)
  Step-All P join (stay x b a) f = ((f.1.0, f.0), f.1.1)
  Step-All P join (back p x fits) f = (f.0.1, (join p x f.0.0 f.1.0, f.1.1))
  Step-All P join (ahead x y fits) f = (f.0, (join x y f.1.0 f.1.1.0, f.1.1.1))
