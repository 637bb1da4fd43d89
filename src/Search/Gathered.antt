-- ===== src/Search/Gathered.antt =====
-- crates/laya-store/src/store.rs: what `bm25` collects from the replies of the server.
use laya_codex.Common.{
  ◌≡◌, refl, sym, ◌∙◌, ap, false, ◌&&◌, inl, inr, Option, some, List, [], ◌∷◌, ◌++◌, arith,
  if◌then◌else◌, Bool-cases, drop, length, map, flatten,
}
use laya_codex.Common.Text.{Text, text_eq, starts_with, codes}
use laya_codex.Fusion.{Floats}
use laya_codex.Fusion.Sums.{sum_from, sum_from-append, or_zero}
use laya_codex.Search.{
  is_benign_term_error, server_error_msg, Collected, under_prefix, add_reply, collect,
}
use laya_codex.Search.Replies.{
  Reply, documents, refusal, value_of, hit_of, parse_search_reply-documents,
}
use laya_codex.Store.Keys
use mathlib.Core.List.{append_assoc}

-- The errors that say more than that a term matches nothing, in order.
unfoldable pub hard_errors_of : List Reply → List Text
unfolding is_benign_term_error
hard_errors_of [] = []
hard_errors_of (documents count ds ∷ replies) = hard_errors_of replies
hard_errors_of (refusal m ∷ replies) =
    let rest = hard_errors_of replies in if is_benign_term_error m then rest else m ∷ rest

text_eq-append :
    (prefix key id : Text)
    → text_eq key (prefix ++ id) ≡ (starts_with prefix key && text_eq (drop (length prefix) key) id)
unfolding text_eq starts_with
text_eq-append [] key id = refl
text_eq-append (a ∷ prefix) [] id = refl
text_eq-append (a ∷ prefix) (b ∷ key) id = ground (arith, text_eq-append prefix key id)

pub chunk_prefix-append : (repo id : Text) → Keys.chunk_prefix repo ++ id ≡ Keys.chunk repo id
unfolding Keys.chunk_prefix Keys.chunk
chunk_prefix-append repo id = ap (λ t. codes "lc:" ++ t) (append_assoc repo (codes ":c:") id)

module _ {F : Type 0} (ops : Floats F) where
  sum_from-under_prefix :
      (prefix id : Text) (o : Option F) (hits : List (Text × F))
      → sum_from ops o id (under_prefix prefix hits) ≡ sum_from ops o (prefix ++ id) hits
  unfolding sum_from under_prefix
  sum_from-under_prefix prefix id o [] = refl
  sum_from-under_prefix prefix id o (h ∷ hits) = elim (Bool-cases (starts_with prefix h.0)) [
    | inl e ↦
        let same : text_eq h.0 (prefix ++ id) ≡ text_eq (drop (length prefix) h.0) id =
          text_eq-append prefix h.0 id ∙ rw e refl in
        rw (e, same, sum_from)
          (sum_from-under_prefix prefix id
            (if text_eq (drop (length prefix) h.0) id
              then some (ops.add (or_zero ops o) h.1)
              else o)
            hits)
    | inr e ↦
        let other : text_eq h.0 (prefix ++ id) ≡ false = text_eq-append prefix h.0 id ∙ rw e refl in
        rw (e, other, sum_from) (sum_from-under_prefix prefix id o hits)
  ]

  pub sum_from-flatten :
      (prefix id : Text) (o : Option F) (per_term : List (List (Text × F)))
      → sum_from ops o id (flatten (map (under_prefix prefix) per_term))
        ≡ sum_from ops o (prefix ++ id) (flatten per_term)
  unfolding sum_from
  sum_from-flatten prefix id o [] = refl
  sum_from-flatten prefix id o (hits ∷ per_term) =
      sum_from-append ops o id (under_prefix prefix hits)
        (flatten (map (under_prefix prefix) per_term))
      ∙ ap (λ p. sum_from ops p id (flatten (map (under_prefix prefix) per_term)))
          (sum_from-under_prefix prefix id o hits)
      ∙ sum_from-flatten prefix id (sum_from ops o (prefix ++ id) hits) per_term
      ∙ sym (sum_from-append ops o (prefix ++ id) hits (flatten per_term))

module _ {F : Type 0} (ops : Floats F) (parse_score : Text → Option F) where
  -- The hits of each reply that is not an error, with their keys.
  unfoldable pub hits_of : List Reply → List (List (Text × F))
  unfolding hit_of
  hits_of [] = []
  hits_of (documents count ds ∷ replies) = map (hit_of ops parse_score) ds ∷ hits_of replies
  hits_of (refusal m ∷ replies) = hits_of replies

  -- What is collected when nothing else is.
  abbrev collected : Text → List Reply → Collected F
  collected prefix replies = record {
    per_term = map (under_prefix prefix) (hits_of replies);
    hard_errors = hard_errors_of replies;
  }

  add_reply-value_of :
      (prefix : Text) (r : Reply) (replies : List Reply)
      → add_reply ops parse_score prefix (value_of r) (collected prefix replies)
        ≡ some (collected prefix (r ∷ replies))
  unfolding add_reply hits_of hard_errors_of value_of server_error_msg
  add_reply-value_of prefix (documents count ds) replies =
      rw (parse_search_reply-documents ops parse_score count ds) refl
  add_reply-value_of prefix (refusal m) replies = elim (Bool-cases (is_benign_term_error m)) [
    | inl e ↦ rw (e, add_reply) refl
    | inr e ↦ rw (e, add_reply) refl
  ]

  pub collect-replies :
      (prefix : Text) (ts : List Text) (replies : List Reply)
      → length replies ≡ length ts
      → collect ops parse_score prefix ts (map value_of replies)
        ≡ some (record {
          per_term = map (under_prefix prefix) (hits_of replies);
          hard_errors = hard_errors_of replies;
        })
  unfolding collect hits_of hard_errors_of
  collect-replies prefix [] [] h = refl
  collect-replies prefix [] (r ∷ replies) h = absurd (omega (arith, h))
  collect-replies prefix (t ∷ ts) [] h = absurd (omega (arith, h))
  collect-replies prefix (t ∷ ts) (r ∷ replies) h =
      rw (collect-replies prefix ts replies (omega (arith, h)))
        (add_reply-value_of prefix r replies)
