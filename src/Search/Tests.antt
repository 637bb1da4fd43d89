-- ===== src/Search/Tests.antt =====
-- Examples of a search, with scores that are natural numbers.
use laya_codex.Common.{
  ℕ, ◌+◌, ◌-◌, ◌*◌, ◌/◌, ◌≡◌, refl, sym, length, map, max, inl, inr, none, some, [], ◌∷◌, List, ltb,
  leb, arith,
}
use laya_codex.Common.Decimal.{parse_u32}
use laya_codex.Common.Sort
use laya_codex.Common.Sort.{IsWeakOrder}
use laya_codex.Common.Text.{Text, codes}
use laya_codex.Fusion.{Floats, fuse_scores}
use laya_codex.Search.{server_error, Trips, SearchConfig, refused, rank_replies, bm25}
use laya_codex.Query.{prepare_terms, select_terms}
use laya_codex.Search.Ranked.{IsSummed, fuse_scores-IsSummed}
use laya_codex.Search.Answered.{Outcome, bm25-Outcome}
use laya_codex.Search.Replies.{Reply, documents, refusal, value_of}

abbrev counts : Floats ℕ
counts = record {
  zero = 0;
  one = 1;
  half = 0;
  add = λ a b. a + b;
  sub = λ a b. a - b;
  mul = λ a b. a * b;
  div = λ a b. a / max b 1;
  of_nat = λ n. n;
  lt = ltb;
  total_lt = ltb;
  ge = λ a b. leb b a;
  max = λ a b. max a b;
}

ltb-IsWeakOrder : IsWeakOrder ltb
ltb-IsWeakOrder = record { asym = λ x y h. ground arith; neg_trans = λ x y z h k. ground arith }

abbrev hits_of_terms : List (List (Text × ℕ))
hits_of_terms = ((codes "b", 2) ∷ (codes "a", 1) ∷ []) ∷ ((codes "a", 1) ∷ (codes "c", 9) ∷ []) ∷ []

fuse_scores-IsSummed_example : IsSummed counts hits_of_terms 2 (fuse_scores counts hits_of_terms 2)
fuse_scores-IsSummed_example = fuse_scores-IsSummed counts hits_of_terms 2 ltb-IsWeakOrder

-- Two keys of one repository, the first with its score, and an error that means no hits.
abbrev two_replies : List Reply
two_replies =
    documents (codes "2") (
      (codes "lc:r:c:a", some ((codes "__bm25_score", codes "7") ∷ []))
      ∷ (codes "lc:r:c:b", none)
      ∷ [])
    ∷ refusal (codes "ERR no such index")
    ∷ []

abbrev trips : Trips
trips = record {
  hmget = λ key terms. some (some 3 ∷ some 1 ∷ []);
  search = λ commands. some (map value_of two_replies);
}

abbrev config : SearchConfig
config = record { max_terms = 24; per_term_limit = 200; df_sq_budget = 20_000_000 }

two_terms-selected :
    length (
      select_terms
        (prepare_terms (codes "alpha" ∷ codes "beta" ∷ []) 256)
        (some 3 ∷ some 1 ∷ [])
        24
        20_000_000)
    ≡ 2
unfolding select_terms prepare_terms Sort.sort
two_terms-selected = refl

bm25-Outcome_example :
    Outcome counts parse_u32
      (codes "r")
      two_replies
      10
      (bm25 counts parse_u32 trips config (codes "r") (codes "alpha" ∷ codes "beta" ∷ []) 10)
bm25-Outcome_example =
    bm25-Outcome counts parse_u32 trips config (codes "r") 10 ltb-IsWeakOrder
      (codes "alpha" ∷ codes "beta" ∷ []) (some 3 ∷ some 1 ∷ []) two_replies (omega arith) refl refl
      (sym two_terms-selected)

bm25-run :
    bm25 counts parse_u32 trips config (codes "r") (codes "alpha" ∷ codes "beta" ∷ []) 10
    ≡ inr ((codes "a", 7) ∷ (codes "b", 0) ∷ [])
unfolding bm25 parse_u32 value_of
bm25-run = refl

-- An error that says more is the answer when no term has hits.
rank_replies-run :
    rank_replies counts parse_u32
      (codes "lc:r:c:")
      (codes "alpha" ∷ [])
      (server_error (codes "ERR busy") ∷ [])
      10
    ≡ inl (refused (codes "ERR busy"))
unfolding rank_replies
rank_replies-run = refl
