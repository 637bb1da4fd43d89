-- ===== src/Search/Replies.antt =====
-- crates/laya-store/src/query.rs: what the server replies to `FT.SEARCH`, and how it is read.
use laya_codex.Common.{
  ◌≡◌, refl, Option, none, some, List, [], ◌∷◌, if◌then◌else◌, Bool-cases, inl, inr, map,
}
use laya_codex.Common.Text.{Text, text_eq, codes}
use laya_codex.Fusion.{Floats}
use laya_codex.Search.{
  Value, Values, text, array, server_error, nil, cons, is_score_field, value_str, read_score,
  score_from, parse_items, parse_search_reply,
}

-- A key, with the names and values of its fields if an array of fields follows.
abbrev pub Document : Type 0
Document = Text × Option (List (Text × Text))

-- A count and the documents found, or an error.
pub data Reply : Type 0 where
  documents : Text → List Document → Reply
  refusal : Text → Reply

pub pairs_of : List (Text × Text) → Values
pairs_of [] = nil
pairs_of (p ∷ fields) = cons (text p.0) (cons (text p.1) (pairs_of fields))

pub after_key : Option (List (Text × Text)) → Values → Values
unfolding pairs_of
after_key none items = items
after_key (some fields) items = cons (array (pairs_of fields)) items

pub items_of : List Document → Values
unfolding after_key
items_of [] = nil
items_of (d ∷ ds) = cons (text d.0) (after_key d.1 (items_of ds))

-- The array `[count, key, [field, value, …], key, […], …]`.
unfoldable pub value_of : Reply → Value
unfolding items_of
value_of (documents count ds) = array (cons (text count) (items_of ds))
value_of (refusal m) = server_error m

-- The value of the last field of a score.
pub score_text : Option Text → List (Text × Text) → Option Text
unfolding text_eq
score_text found [] = found
score_text found (p ∷ fields) =
    score_text (if text_eq p.0 (codes "__bm25_score") then some p.1 else found) fields

module _ {F : Type 0} (ops : Floats F) (parse_score : Text → Option F) where
  -- Zero without a score, or if it cannot be read.
  pub score_or_zero : Option Text → F
  score_or_zero none = ops.zero
  score_or_zero (some t) = elim (parse_score t) [ none ↦ ops.zero | some s ↦ s ]

  pub document_score : Option (List (Text × Text)) → F
  unfolding score_or_zero score_text
  document_score none = ops.zero
  document_score (some fields) = score_or_zero (score_text none fields)

  unfoldable pub hit_of : Document → Text × F
  unfolding document_score
  hit_of d = (d.0, document_score d.1)

  score_from-pairs_of :
      (found : Option Text) (fields : List (Text × Text))
      → score_from ops parse_score (score_or_zero found) (pairs_of fields)
        ≡ score_or_zero (score_text found fields)
  unfolding score_from score_text pairs_of score_or_zero is_score_field read_score value_str
  score_from-pairs_of found [] = refl
  score_from-pairs_of found (p ∷ fields) = elim (Bool-cases (text_eq p.0 (codes "__bm25_score"))) [
    | inl e ↦ rw e (score_from-pairs_of (some p.1) fields)
    | inr e ↦ rw e (score_from-pairs_of found fields)
  ]

  parse_items-items_of :
      (ds : List Document) → parse_items ops parse_score (items_of ds) ≡ some (map hit_of ds)
  unfolding parse_items items_of after_key hit_of document_score value_str score_or_zero
  parse_items-items_of [] = refl
  parse_items-items_of ((k, none) ∷ []) = refl
  parse_items-items_of ((k, none) ∷ d ∷ ds) = rw (parse_items-items_of (d ∷ ds)) refl
  parse_items-items_of ((k, some fields) ∷ ds) =
      rw (parse_items-items_of ds, score_from-pairs_of none fields) refl

  pub parse_search_reply-documents :
      (count : Text) (ds : List Document)
      → parse_search_reply ops parse_score (value_of (documents count ds)) ≡ some (map hit_of ds)
  unfolding parse_search_reply value_of
  parse_search_reply-documents count ds = parse_items-items_of ds
