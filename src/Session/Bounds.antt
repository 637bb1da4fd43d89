-- ===== src/Session/Bounds.antt =====
-- The bounds of crates/laya-cli/src/session.rs, whatever calls come.
use laya_codex.Common.{
  ℕ, ◌+◌, ◌≤◌, ◌<◌, ◌≡◌, refl, Bool, true, false, not, ◌&&◌, ◌||◌, inl, inr, some, List, [], ◌∷◌,
  arith, leb, length, length-take, All, Bool-cases,
}
use laya_codex.Common.Sort
use laya_codex.Common.Text.{Text, text_eq, text_eq_iff, text_eq_sym, text_eq_refl}
use laya_codex.Core.{RankedSpan}
use laya_codex.Session.Keys.{NoRepeats-newest, length-newest}
use laya_codex.Common.Repeats.{NoRepeats}
use laya_codex.Session.{
  key_eq, Session, Entry, max_sessions, max_sent, max_working_set, contains, default_session,
  upsert, remove, oldest_of, remove_oldest, evict, with_session, push_keys, step, run, Call,
  records, reads_file, sends, asks_already, views, resets, asks_query, working_set_with, query_in,
  read_in, send_in, topic_in, clear_context, merge_spans, after_score,
}

module _ {F : Type 0} where
  -- What is bounded in one session.
  pub record IsSmall (s : Session F) : Type 0 where
    pub few_spans : length s.working_set ≤ max_working_set
    pub few_sent : length s.sent ≤ max_sent
    pub no_repeats : NoRepeats key_eq s.sent

  abbrev pub DistinctIds : List (Entry F) → Type 0
  DistinctIds [] = Unit {0}
  DistinctIds (e ∷ m) = (contains e.id m ≡ false) × DistinctIds m

  pub record IsBounded (m : List (Entry F)) : Type 0 where
    pub few : length m ≤ max_sessions
    pub distinct : DistinctIds m
    pub small : All (λ e. IsSmall e.session) m

  default-IsSmall : IsSmall default_session
  default-IsSmall = record { few_spans = omega arith; few_sent = omega arith; no_repeats = tt }

  pub contains-remove :
      (k id : Text) (m : List (Entry F)) → contains k m ≡ false → contains k (remove id m) ≡ false
  unfolding remove
  contains-remove k id [] h = refl
  contains-remove k id (e ∷ m) h = ground (arith, contains-remove k id m)

  DistinctIds-remove : (id : Text) (m : List (Entry F)) → DistinctIds m → DistinctIds (remove id m)
  unfolding remove
  DistinctIds-remove id [] d = tt
  DistinctIds-remove id (e ∷ m) d = elim (Bool-cases (text_eq e.id id)) [
    | inl t ↦ rw t d.1
    | inr t ↦ rw t (contains-remove e.id id m d.0, DistinctIds-remove id m d.1)
  ]

  All-remove :
      (P : Entry F → Type 0) (id : Text) (m : List (Entry F)) → All P m → All P (remove id m)
  unfolding remove
  All-remove P id [] a = tt
  All-remove P id (e ∷ m) a = elim (Bool-cases (text_eq e.id id)) [
    | inl t ↦ rw t a.1
    | inr t ↦ rw t (a.0, All-remove P id m a.1)
  ]

  length-remove :
      (id : Text) (m : List (Entry F)) → contains id m ≡ true → length (remove id m) < length m
  unfolding remove
  length-remove id [] h = cc
  length-remove id (e ∷ m) h = ground (arith, length-remove id m)

  pub contains-oldest_of :
      (e : Entry F) (m : List (Entry F)) → contains (oldest_of e m).id (e ∷ m) ≡ true
  unfolding oldest_of
  contains-oldest_of e [] = ground (arith, text_eq_refl e.id)
  contains-oldest_of e (x ∷ m) = ground (arith, contains-oldest_of x m, contains-oldest_of e m)

  evict-IsBounded :
      (id : Text) (m : List (Entry F))
      → IsBounded m
      → IsBounded (evict id m)
        × (contains id (evict id m) ≡ false → length (evict id m) < max_sessions)
  unfolding evict remove_oldest
  evict-IsBounded id [] b = (b, λ h. omega arith)
  evict-IsBounded id (e ∷ m) b =
      elim (Bool-cases (not (contains id (e ∷ m)) && leb max_sessions (length (e ∷ m)))) [
        | inr keep ↦ rw keep (b, λ h. ground arith)
        | inl full ↦
            let old = (oldest_of e m).id in
            let shorter = length-remove old (e ∷ m) (contains-oldest_of e m) in
            let few = b.few in
            rw full (
              record {
                few = omega arith;
                distinct = DistinctIds-remove old (e ∷ m) b.distinct;
                small = All-remove (λ e. IsSmall e.session) old (e ∷ m) b.small;
              },
              λ h. omega arith,
            )
      ]

  module _ (id : Text) (f : Session F → Session F) where
    length-upsert :
        (m : List (Entry F))
        → (contains id m ≡ true → length (upsert id f m) ≡ length m)
          × (length (upsert id f m) ≤ length m + 1)
    unfolding upsert
    length-upsert [] = (λ h. cc, omega arith)
    length-upsert (e ∷ m) = ground (arith, length-upsert m)

    contains-upsert :
        (k : Text) (m : List (Entry F))
        → contains k (upsert id f m) ≡ (contains k m || text_eq id k)
    unfolding upsert
    contains-upsert k [] = ground arith
    contains-upsert k (e ∷ m) = elim (Bool-cases (text_eq e.id id)) [
      | inl t ↦ let same = (text_eq_iff e.id id).0 t in rw t (rw same (ground arith))
      | inr t ↦ rw t (ground (arith, contains-upsert k m))
    ]

    DistinctIds-upsert : (m : List (Entry F)) → DistinctIds m → DistinctIds (upsert id f m)
    unfolding upsert
    DistinctIds-upsert [] d = (refl, tt)
    DistinctIds-upsert (e ∷ m) d = elim (Bool-cases (text_eq e.id id)) [
      | inl t ↦ rw t d
      | inr t ↦ rw t (
        ground (arith, contains-upsert e.id m, text_eq_sym e.id id, d.0),
        DistinctIds-upsert m d.1,
      )
    ]

    All-upsert :
        (P : Session F → Type 0) (m : List (Entry F))
        → P default_session
        → ((s : Session F) → P s → P (f s))
        → All (λ e. P e.session) m
        → All (λ e. P e.session) (upsert id f m)
    unfolding upsert
    All-upsert P [] d h a = (h default_session d, tt)
    All-upsert P (e ∷ m) d h a = elim (Bool-cases (text_eq e.id id)) [
      | inl t ↦ rw t (h e.session a.0, a.1)
      | inr t ↦ rw t (a.0, All-upsert P m d h a.1)
    ]

  -- A call whose work keeps a session small.
  with_session-IsBounded :
      (now : ℕ) (id : Text) (f : Session F → Session F) (m : List (Entry F))
      → ((s : Session F) → IsSmall s → IsSmall (f s))
      → IsBounded m
      → IsBounded (with_session now id f m)
  unfolding with_session
  with_session-IsBounded now id f m h b =
      let (b', room) = evict-IsBounded id m b in
      let g : Session F → Session F = λ s. f (record s { touched = some now }) in
      let few = b'.few in
      record {
        few = elim (Bool-cases (contains id (evict id m))) [
          | inl e ↦ (let k = (length-upsert id g (evict id m)).0 e in omega arith)
          | inr e ↦ (let k = room e in let l = (length-upsert id g (evict id m)).1 in omega arith)
        ];
        distinct = DistinctIds-upsert id g (evict id m) b'.distinct;
        small =
            All-upsert id g IsSmall (evict id m) default-IsSmall
              (λ s k.
                h (record s { touched = some now })
                  (record {
                    few_spans = k.few_spans;
                    few_sent = k.few_sent;
                    no_repeats = k.no_repeats;
                  }))
              b'.small;
      }

module _ {F : Type 0} (gt after : F → F → Bool) where
  length-working_set_with :
      (spans ws : List (RankedSpan F))
      → length (working_set_with gt after spans ws) ≤ max_working_set
  unfolding working_set_with
  length-working_set_with spans ws =
      (let e =
          length-take max_working_set
            (Sort.sort (after_score gt after) (merge_spans gt after spans ws)) in
        omega arith)

  step-IsBounded :
      (m : List (Entry F)) (c : Call gt after) → IsBounded m → IsBounded (step gt after m c)
  unfolding step query_in read_in send_in topic_in clear_context
  step-IsBounded m (records now id result) b =
      with_session-IsBounded now id (query_in gt after result) m
        (λ s k. record {
          few_spans = length-working_set_with result.spans s.working_set;
          few_sent = k.few_sent;
          no_repeats = k.no_repeats;
        })
        b
  step-IsBounded m (reads_file now id path full) b =
      with_session-IsBounded now id (read_in path full) m
        (λ s k. record {
          few_spans = k.few_spans;
          few_sent = k.few_sent;
          no_repeats = k.no_repeats;
        })
        b
  step-IsBounded m (sends now id keys) b =
      with_session-IsBounded now id (send_in keys) m
        (λ s k. record {
          few_spans = k.few_spans;
          few_sent = length-newest (push_keys s.sent keys);
          no_repeats = NoRepeats-newest s.sent keys k.no_repeats;
        })
        b
  step-IsBounded m (asks_already now id) b = with_session-IsBounded now id (λ s. s) m (λ s k. k) b
  step-IsBounded m (views now id) b = with_session-IsBounded now id (λ s. s) m (λ s k. k) b
  step-IsBounded m (resets now id) b =
      with_session-IsBounded now id clear_context m
        (λ s k. record { few_spans = k.few_spans; few_sent = omega arith; no_repeats = tt }) b
  step-IsBounded m (asks_query now id prompt follow_up named) b =
      with_session-IsBounded now id (topic_in follow_up prompt) m
        (λ s k. record {
          few_spans = k.few_spans;
          few_sent = k.few_sent;
          no_repeats = k.no_repeats;
        })
        b

  -- However many calls a daemon answers, for however many sessions: it holds at most 256 sessions,
  -- none twice, and in each at most 40 spans in the working set and at most 200 keys that were sent,
  -- none twice. The history may start from any map within these bounds.
  pub run-IsBounded :
      (m : List (Entry F)) (cs : List (Call gt after)) → IsBounded m → IsBounded (run gt after m cs)
  unfolding run
  run-IsBounded m [] b = b
  run-IsBounded m (c ∷ cs) b = run-IsBounded (step gt after m c) cs (step-IsBounded m c b)
