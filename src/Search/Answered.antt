-- ===== src/Search/Answered.antt =====
-- crates/laya-store/src/store.rs: what `bm25` returns for the replies of the server.
use laya_codex.Common.{
  ℕ, ◌<◌, ◌≡◌, refl, sym, ◌∙◌, ap, subst, max, true, false, ◌||◌, ◌==◌, ◌⊎◌, inl, inr, Option, none,
  some, List, [], ◌∷◌, arith, Bool-cases, length, map, flatten,
}
use laya_codex.Common.Sort
use laya_codex.Common.Text.{Text}
use laya_codex.Fusion.{Floats, fuse_scores}
use laya_codex.Fusion.Sums.{score_in, sum_from}
use laya_codex.Query.{prepare_terms, select_terms}
use laya_codex.Query.Selected.{select_terms-nil}
use laya_codex.Search.{
  Trips, SearchConfig, SearchError, unreachable, bad_reply, refused, under_prefix, conclude,
  rank_replies, search_terms, bm25,
}
use laya_codex.Search.Ranked.{IsRanking, fuse_scores-IsSummed}
use laya_codex.Search.Replies.{Reply, value_of}
use laya_codex.Store.Keys
use laya_codex.Search.Gathered.{
  hits_of, hard_errors_of, chunk_prefix-append, sum_from-flatten, collect-replies,
}

module _ {F : Type 0} (ops : Floats F) (parse_score : Text → Option F) where
  -- A ranking of the hits in a repository: each id has the sum of what the replies have for the key
  -- of its chunk, reply after reply, and a reply has hits or no error is a hard one.
  pub record IsAnswered (repo : Text) (replies : List Reply) (limit : ℕ) (out : List (Text × F))
      : Type 0 where
    pub ranking : IsRanking ops limit out
    pub sums :
        (id : Text) (s : F)
        → score_in id out ≡ some s
        → sum_from ops none (Keys.chunk repo id) (flatten (hits_of ops parse_score replies))
          ≡ some s
    pub all :
        length out < limit
        → (id : Text)
        → score_in id out
          ≡ sum_from ops none (Keys.chunk repo id) (flatten (hits_of ops parse_score replies))
    pub not_refused : (0 < length (hits_of ops parse_score replies)) ⊎ (hard_errors_of replies ≡ [])

  -- Such a ranking; or, if all replies are errors, the first hard one.
  pub Outcome : Text → List Reply → ℕ → SearchError ⊎ List (Text × F) → Type 0
  Outcome repo replies limit (inl unreachable) = true ≡ false
  Outcome repo replies limit (inl bad_reply) = true ≡ false
  Outcome repo replies limit (inl (refused m)) =
      (hits_of ops parse_score replies ≡ [])
      × ((rest : List Text) × (hard_errors_of replies ≡ m ∷ rest))
  Outcome repo replies limit (inr out) = IsAnswered repo replies limit out

  fuse_scores-IsAnswered :
      (repo : Text) (replies : List Reply) (limit : ℕ)
      → Sort.IsWeakOrder ops.total_lt
      → (0 < length (hits_of ops parse_score replies)) ⊎ (hard_errors_of replies ≡ [])
      → IsAnswered repo replies limit (
          fuse_scores ops
            (map (under_prefix (Keys.chunk_prefix repo)) (hits_of ops parse_score replies))
            limit)
  fuse_scores-IsAnswered repo replies limit w n =
      let per_term =
        map (under_prefix (Keys.chunk_prefix repo)) (hits_of ops parse_score replies) in
      let s = fuse_scores-IsSummed ops per_term limit w in
      let same = λ (id : Text).
        sum_from-flatten ops (Keys.chunk_prefix repo) id none (hits_of ops parse_score replies)
        ∙ ap (λ k. sum_from ops none k (flatten (hits_of ops parse_score replies)))
            (chunk_prefix-append repo id) in
      record {
        ranking = s.ranking;
        sums = λ id score e. sym (same id) ∙ s.sums id score e;
        all = λ h id. s.all h id ∙ same id;
        not_refused = n;
      }

  conclude-Outcome :
      (repo : Text) (replies : List Reply) (limit : ℕ) (per_term : List (List (Text × F)))
      (errors : List Text)
      → Sort.IsWeakOrder ops.total_lt
      → hits_of ops parse_score replies ≡ per_term
      → hard_errors_of replies ≡ errors
      → Outcome repo replies limit (
          conclude ops parse_score limit
            (map (under_prefix (Keys.chunk_prefix repo)) per_term)
            errors)
  unfolding conclude Outcome
  conclude-Outcome repo replies limit [] (m ∷ errors) w p h = (p, (errors, h))
  conclude-Outcome repo replies limit [] [] w p h =
      subst
        (λ hs.
          IsAnswered repo replies limit
            (fuse_scores ops (map (under_prefix (Keys.chunk_prefix repo)) hs) limit))
        p (fuse_scores-IsAnswered repo replies limit w (inr h))
  conclude-Outcome repo replies limit (hits ∷ per_term) errors w p h =
      subst
        (λ hs.
          IsAnswered repo replies limit
            (fuse_scores ops (map (under_prefix (Keys.chunk_prefix repo)) hs) limit))
        p (fuse_scores-IsAnswered repo replies limit w (inl (rw p (omega arith))))

  rank_replies-Outcome :
      (repo : Text) (ts : List Text) (replies : List Reply) (limit : ℕ)
      → Sort.IsWeakOrder ops.total_lt
      → length replies ≡ length ts
      → Outcome repo replies limit
          (rank_replies ops parse_score (Keys.chunk_prefix repo) ts (map value_of replies) limit)
  unfolding rank_replies
  rank_replies-Outcome repo ts replies limit w h =
      rw (collect-replies ops parse_score (Keys.chunk_prefix repo) ts replies h, rank_replies)
        (conclude-Outcome repo replies limit (hits_of ops parse_score replies)
          (hard_errors_of replies) w refl refl)

  module _ (trips : Trips) (cfg : SearchConfig) (repo : Text) (limit : ℕ)
      (w : Sort.IsWeakOrder ops.total_lt) where
    nothing-Outcome :
        (replies : List Reply) → length replies ≡ 0 → Outcome repo replies limit (inr [])
    unfolding Outcome hits_of hard_errors_of score_in sum_from
    nothing-Outcome [] h = record {
      ranking = record { no_repeats = tt; bounded = omega arith; best_first = tt; sorted = tt };
      sums = λ id s e. e;
      all = λ h id. refl;
      not_refused = inr refl;
    }
    nothing-Outcome (r ∷ replies) h = absurd (omega (arith, h))

    search_terms-Outcome :
        (ts : List Text) (replies : List Reply)
        → trips.search (
            map
              (λ (t : Text). record {
                index = Keys.index repo;
                term = t;
                limit = max limit cfg.per_term_limit;
              })
              ts)
          ≡ some (map value_of replies)
        → length replies ≡ length ts
        → Outcome repo replies limit (search_terms ops parse_score trips cfg repo ts limit)
    unfolding search_terms
    search_terms-Outcome [] replies e h = nothing-Outcome replies h
    search_terms-Outcome (t ∷ ts) replies e h =
        rw (e, search_terms) (rank_replies-Outcome repo (t ∷ ts) replies limit w h)

    no_terms :
        (ts : List Text) (dfs : List (Option ℕ))
        → length ts ≡ 0
        → length (select_terms ts dfs cfg.max_terms cfg.df_sq_budget) ≡ 0
    no_terms [] dfs h = ap length (select_terms-nil dfs cfg.max_terms cfg.df_sq_budget)
    no_terms (t ∷ ts) dfs h = absurd (omega (arith, h))

    -- If scores have a strict weak order, the limit is not 0, and the server gives the document
    -- frequencies of the prepared terms and then a reply, documents or an error, to the search for
    -- each term that is selected, a search ends with a ranking of the hits: no id twice, at most
    -- `limit` entries, none before one with a larger score, and each id with the sum of the scores
    -- that the replies have for the key of its chunk; with fewer than `limit` entries, all ids with
    -- hits are in it. Only if every reply is an error and one is not benign, it ends with the first
    -- of these.
    pub bm25-Outcome :
        (ts : List Text) (dfs : List (Option ℕ)) (replies : List Reply)
        → 0 < limit
        → trips.hmget (Keys.df repo) (prepare_terms ts 256) ≡ some dfs
        → let chosen = select_terms (prepare_terms ts 256) dfs cfg.max_terms cfg.df_sq_budget in
          trips.search (
              map
                (λ (t : Text). record {
                  index = Keys.index repo;
                  term = t;
                  limit = max limit cfg.per_term_limit;
                })
                chosen)
            ≡ some (map value_of replies)
          → length replies
            ≡ length (select_terms (prepare_terms ts 256) dfs cfg.max_terms cfg.df_sq_budget)
          → Outcome repo replies limit (bm25 ops parse_score trips cfg repo ts limit)
    unfolding bm25
    bm25-Outcome ts dfs replies l e s h =
        let candidates = prepare_terms ts 256 in
        elim (Bool-cases (length candidates == 0 || limit == 0)) [
          | inl none_left ↦
              rw (none_left, bm25)
                (nothing-Outcome replies
                  (h ∙ no_terms candidates dfs (ground (arith, none_left, l))))
          | inr some_left ↦
              rw (some_left, e, bm25)
                (search_terms-Outcome (select_terms candidates dfs cfg.max_terms cfg.df_sq_budget)
                  replies s h)
        ]
