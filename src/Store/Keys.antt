-- ===== src/Store/Keys.antt =====
-- crates/laya-store/src/keys.rs: the keys under which a repository is stored. The hash behind
-- `repo_id` is a parameter of its callers, so a repository is given by its id.
use laya_codex.Common.{
  ℕ, true, ◌==◌, ap, ◌∙◌, All, All-map, ◌≡◌, refl, Bool, not, List, [], ◌∷◌, ◌++◌, arith, keep_if,
}
use laya_codex.Common.Text.{Text, text_eq, codes, split_on, join, is_empty}
use laya_codex.Common.Splitting.{split_by-join, Free}

-- `lc:{repo}:` and what follows.
abbrev pub scoped : Text → Text → Text
scoped repo rest = codes "lc:" ++ (repo ++ (b':' ∷ rest))

unfoldable pub chunk : Text → Text → Text
chunk repo id = scoped repo (codes "c:" ++ id)

unfoldable pub chunk_prefix : Text → Text
chunk_prefix repo = scoped repo (codes "c:")

unfoldable pub file : Text → Text → Text
file repo path = scoped repo (codes "f:" ++ path)

unfoldable pub files : Text → Text
files repo = scoped repo (codes "files")

unfoldable pub defines : Text → Text → Text
defines repo ident = scoped repo (codes "d:" ++ ident)

unfoldable pub refs : Text → Text → Text
refs repo ident = scoped repo (codes "r:" ++ ident)

unfoldable pub index : Text → Text
index repo = scoped repo (codes "idx")

unfoldable pub df : Text → Text
df repo = scoped repo (codes "df")

unfoldable pub memo : Text → Text
memo key = codes "lc:memo:" ++ key

unfoldable pub not_empty : Text → Bool
not_empty p = not (is_empty p)

-- Splits a comma-joined list, skipping empties.
unfoldable pub split_list : Text → List Text
unfolding split_on not_empty
split_list s = keep_if not_empty (split_on b',' s)

text_eq-append : (s a b : Text) → text_eq (s ++ a) (s ++ b) ≡ text_eq a b
unfolding text_eq
text_eq-append [] a b = refl
text_eq-append (c ∷ s) a b = ground (arith, text_eq-append s a b)

-- Two keys of a repository are the same if what follows the repository is.
pub text_eq-scoped : (repo a b : Text) → text_eq (scoped repo a) (scoped repo b) ≡ text_eq a b
unfolding text_eq
text_eq-scoped repo a b = text_eq-append repo (b':' ∷ a) (b':' ∷ b)

-- A text that is found again in a list joined by the separator.
abbrev pub IsPiece : ℕ → Text → Type 0
IsPiece sep t = (not_empty t ≡ true) × Free (λ a. a == sep) t

keep_if-IsPiece : (sep : ℕ) (v : List Text) → All (IsPiece sep) v → keep_if not_empty v ≡ v
keep_if-IsPiece sep [] a = refl
keep_if-IsPiece sep (t ∷ v) a = rw (a.0.0, keep_if-IsPiece sep v a.1) refl

-- Splitting undoes joining.
pub split_on-join :
    (sep : ℕ) (v : List Text)
    → All (IsPiece sep) v
    → keep_if not_empty (split_on sep (join (sep ∷ []) v)) ≡ v
unfolding split_on join is_empty not_empty
split_on-join sep [] a = refl
split_on-join sep (t ∷ v) a =
    ap (keep_if not_empty)
      (split_by-join (λ c. c == sep) sep (ground arith) t v (All-map (t ∷ v) (λ t i. i.1) a))
    ∙ keep_if-IsPiece sep (t ∷ v) a
