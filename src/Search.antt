-- ===== src/Search.antt =====
-- crates/laya-store/src/store.rs (`bm25`) and src/query.rs (`parse_search_reply`): a search for any of
-- several terms. A `Value` of the redis crate is given by what the code reads of it: the text of
-- `value_str`, an array, a server error with its message, or nothing of these. Parameters: the two
-- trips to the server, and how a score is read from its text. Warnings in the log are left out.
mod Replies
mod Ranked
mod Gathered
mod Answered
mod Tests
use laya_codex.Common.{
  ℕ, max, Bool, true, false, ◌||◌, ◌==◌, ◌⊎◌, inl, inr, Option, none, some, List, [], ◌∷◌,
  if◌then◌else◌, drop, length, map, flatten,
}
use laya_codex.Common.Options.{◌>>=◌}
use laya_codex.Common.Text.{Text, text_eq, codes, starts_with, is_within, to_ascii_lowercase}
use laya_codex.Fusion.{Floats, fuse_scores}
use laya_codex.Query.{prepare_terms, select_terms}
use laya_codex.Store.Keys

mutual
  pub data Value : Type 0 where
    text : Text → Value
    array : Values → Value
    server_error : Text → Value
    other : Value

  pub data Values : Type 0 where
    nil : Values
    cons : Value → Values → Values

unfoldable pub value_str : Value → Option Text
value_str (text t) = some t
value_str (array vs) = none
value_str (server_error m) = none
value_str other = none

unfoldable pub server_error_msg : Value → Option Text
server_error_msg (text t) = none
server_error_msg (array vs) = none
server_error_msg (server_error m) = some m
server_error_msg other = none

unfoldable pub is_benign_term_error : Text → Bool
unfolding to_ascii_lowercase is_within
is_benign_term_error msg =
    is_within (codes "empty query after analysis") (to_ascii_lowercase msg)
    || is_within (codes "no such index") (to_ascii_lowercase msg)

-- `skip(1)`
abbrev skip_one : Values → Values
skip_one nil = nil
skip_one (cons v vs) = vs

unfoldable pub is_score_field : Option Text → Bool
unfolding text_eq
is_score_field none = false
is_score_field (some t) = text_eq t (codes "__bm25_score")

-- What a command of the pipeline asks for.
pub record SearchCommand : Type 0 where
  pub index : Text
  pub term : Text
  pub limit : ℕ

pub record SearchConfig : Type 0 where
  pub max_terms : ℕ
  pub per_term_limit : ℕ
  pub df_sq_budget : ℕ

pub data SearchError : Type 0 where
  unreachable bad_reply : SearchError
  refused : Text → SearchError

-- `HMGET` of document frequencies under a key, and the pipeline of `FT.SEARCH`, through the executor.
pub record Trips : Type 0 where
  pub hmget : Text → List Text → Option (List (Option ℕ))
  pub search : List SearchCommand → Option (List Value)

pub record Collected (F : Type 0) : Type 0 where
  pub per_term : List (List (Text × F))
  pub hard_errors : List Text

abbrev max_candidate_terms : ℕ
max_candidate_terms = 256

module _ {F : Type 0} where
  -- `strip_prefix` of each key; a key without the prefix is dropped.
  unfoldable pub under_prefix : Text → List (Text × F) → List (Text × F)
  unfolding starts_with
  under_prefix prefix [] = []
  under_prefix prefix (h ∷ hits) =
      let rest = under_prefix prefix hits in
      if starts_with prefix h.0 then (drop (length prefix) h.0, h.1) ∷ rest else rest

module _ {F : Type 0} (ops : Floats F) (parse_score : Text → Option F) where
  unfoldable pub read_score : Option Text → F
  read_score none = ops.zero
  read_score (some t) = elim (parse_score t) [ none ↦ ops.zero | some s ↦ s ]

  -- The pairs of fields; the last score field counts, and a field without a value does not.
  unfoldable pub score_from : F → Values → F
  unfolding is_score_field value_str read_score
  score_from score nil = score
  score_from score (cons k nil) = score
  score_from score (cons k (cons v fields)) =
      score_from (if is_score_field (value_str k) then read_score (value_str v) else score) fields

  -- A key, with its fields if an array follows.
  unfoldable pub parse_items : Values → Option (List (Text × F))
  unfolding value_str score_from
  parse_items nil = some []
  parse_items (cons k nil) = do key ← value_str k; some ((key, ops.zero) ∷ [])
  parse_items (cons k (cons (array fields) items)) = do
    key ← value_str k
    hits ← parse_items items
    some ((key, score_from ops.zero fields) ∷ hits)
  parse_items (cons k (cons (text t) items)) = do
    key ← value_str k
    hits ← parse_items (cons (text t) items)
    some ((key, ops.zero) ∷ hits)
  parse_items (cons k (cons (server_error m) items)) = do
    key ← value_str k
    hits ← parse_items (cons (server_error m) items)
    some ((key, ops.zero) ∷ hits)
  parse_items (cons k (cons other items)) = do
    key ← value_str k
    hits ← parse_items (cons other items)
    some ((key, ops.zero) ∷ hits)

  unfoldable pub parse_search_reply : Value → Option (List (Text × F))
  unfolding parse_items
  parse_search_reply (text t) = none
  parse_search_reply (array items) = parse_items (skip_one items)
  parse_search_reply (server_error m) = none
  parse_search_reply other = none

  -- One reply, put before those of the later terms.
  unfoldable pub add_reply : Text → Value → Collected F → Option (Collected F)
  unfolding server_error_msg is_benign_term_error parse_search_reply under_prefix
  add_reply prefix v rest = elim (server_error_msg v) [
    | some msg ↦
        if is_benign_term_error msg
        then some rest
        else some (record rest { hard_errors = msg ∷ rest.hard_errors })
    | none ↦ do
      hits ← parse_search_reply v
      some (record rest { per_term = under_prefix prefix hits ∷ rest.per_term })
  ]

  -- Each term with its reply.
  unfoldable pub collect : Text → List Text → List Value → Option (Collected F)
  unfolding add_reply
  collect prefix [] vs = some (record { per_term = []; hard_errors = [] })
  collect prefix (t ∷ ts) [] = some (record { per_term = []; hard_errors = [] })
  collect prefix (t ∷ ts) (v ∷ vs) = do rest ← collect prefix ts vs; add_reply prefix v rest

  unfoldable pub conclude : ℕ → List (List (Text × F)) → List Text → SearchError ⊎ List (Text × F)
  unfolding fuse_scores
  conclude limit [] (m ∷ errors) = inl (refused m)
  conclude limit [] [] = inr (fuse_scores ops [] limit)
  conclude limit (hits ∷ per_term) errors = inr (fuse_scores ops (hits ∷ per_term) limit)

  unfoldable pub rank_replies : Text → List Text → List Value → ℕ → SearchError ⊎ List (Text × F)
  unfolding collect conclude
  rank_replies prefix ts vs limit = elim (collect prefix ts vs) [
    | none ↦ inl bad_reply
    | some c ↦ conclude limit c.per_term c.hard_errors
  ]

  module _ (trips : Trips) (cfg : SearchConfig) (repo : Text) where
    unfoldable pub search_terms : List Text → ℕ → SearchError ⊎ List (Text × F)
    unfolding rank_replies Keys.index Keys.chunk_prefix
    search_terms [] limit = inr []
    search_terms (t ∷ ts) limit =
        let per_term = max limit cfg.per_term_limit in
        let commands =
          map (λ (u : Text). record { index = Keys.index repo; term = u; limit = per_term })
            (t ∷ ts) in
        elim (trips.search commands) [
          | none ↦ inl unreachable
          | some vs ↦ rank_replies (Keys.chunk_prefix repo) (t ∷ ts) vs limit
        ]

    unfoldable pub bm25 : List Text → ℕ → SearchError ⊎ List (Text × F)
    unfolding search_terms prepare_terms select_terms Keys.df
    bm25 ts limit =
        let candidates = prepare_terms ts max_candidate_terms in
        if length candidates == 0 || limit == 0
        then inr []
        else elim (trips.hmget (Keys.df repo) candidates) [
          | none ↦ inl unreachable
          | some dfs ↦
              search_terms (select_terms candidates dfs cfg.max_terms cfg.df_sq_budget) limit
        ]
