-- ===== src/Query.antt =====
-- crates/laya-store/src/query.rs: which terms of a query are searched. Document frequencies are the
-- `i64` of the store, as `none` (never indexed) or a count; a count below one is dropped either way.
mod Prepared
pub mod Selected
mod Tests
use laya_codex.Common.{
  ℕ, suc, zero, ◌+◌, ◌-◌, ◌*◌, ◌^◌, min, Bool, true, false, not, ◌&&◌, ◌||◌, Option, none, some,
  List, [], ◌∷◌, ◌++◌, leb, ltb, ◌==◌, if◌then◌else◌, any, take, length, map,
}
use laya_codex.Common.Sort
use laya_codex.Common.Text.{Text, text_eq, to_ascii_lowercase}

abbrev pub max_term_len : ℕ
max_term_len = 64

-- On a lowercased term: a letter, a digit or `_`.
unfoldable pub is_term_char : ℕ → Bool
is_term_char c =
    leb b'0' c && leb c b'9' || leb b'a' c && leb c b'z' || leb b'A' c && leb c b'Z' || c == b'_'

unfoldable pub all_term_chars : Text → Bool
unfolding is_term_char
all_term_chars [] = true
all_term_chars (c ∷ t) = is_term_char c && all_term_chars t

unfoldable pub is_term : Text → Bool
unfolding all_term_chars
is_term t = leb 2 (length t) && leb (length t) max_term_len && all_term_chars t

-- The loop of `prepare_terms`; `seen` holds what `out` does.
pub gather : List Text → List Text → List Text
unfolding is_term to_ascii_lowercase text_eq
gather out [] = out
gather out (t ∷ terms) =
    let u = to_ascii_lowercase t in
    let added = gather (out ++ u ∷ []) terms in
    let same = gather out terms in if is_term u && not (any (text_eq u) out) then added else same

-- A term with its place.
pub record Placed : Type 0 where
  pub place : ℕ
  pub term : Text

enumerate : ℕ → List Text → List Placed
enumerate i [] = []
enumerate i (t ∷ ts) = record { place = i; term = t } ∷ enumerate (i + 1) ts

-- A shorter term sorts behind, and of two as long the later one.
abbrev pub after_longer : Placed → Placed → Bool
after_longer a b =
    ltb (length a.term) (length b.term) || length a.term == length b.term && ltb b.place a.place

abbrev pub after_place : Placed → Placed → Bool
after_place a b = ltb b.place a.place

abbrev pub term_of : Placed → Text
term_of p = p.term

keep_longest : ℕ → List Text → List Text
unfolding enumerate
keep_longest cap out =
    map term_of (Sort.sort after_place (take cap (Sort.sort after_longer (enumerate 0 out))))

unfoldable pub prepare_terms : List Text → ℕ → List Text
unfolding gather keep_longest
prepare_terms terms cap =
    let out = gather [] terms in if ltb cap (length out) then keep_longest cap out else out

-- A term with its document frequency.
pub record Known : Type 0 where
  pub df : ℕ
  pub term : Text

unfoldable pub known_of : List Text → List (Option ℕ) → List Known
known_of [] df = []
known_of (t ∷ terms) [] = []
known_of (t ∷ terms) (none ∷ df) = known_of terms df
known_of (t ∷ terms) (some d ∷ df) =
    let rest = known_of terms df in if ltb 0 d then record { df = d; term = t } ∷ rest else rest

abbrev pub after_df : Known → Known → Bool
after_df a b = ltb b.df a.df

abbrev pub max_u64 : ℕ
max_u64 = 2 ^ 64 - 1

-- `cost.saturating_add(d.saturating_mul(d))`.
unfoldable pub cost_with : ℕ → ℕ → ℕ
cost_with cost d = min (cost + min (d * d) max_u64) max_u64

-- The loop of `select_terms`, with `count` terms chosen.
pub choose : ℕ → ℕ → ℕ → ℕ → List Known → List Text
unfolding cost_with
choose max_terms budget count cost [] = []
choose max_terms budget count cost (k ∷ known) =
    let rest = choose max_terms budget (count + 1) (cost_with cost k.df) known in
    if leb max_terms count || ltb budget (cost_with cost k.df) then [] else k.term ∷ rest

unfoldable pub select_terms : List Text → List (Option ℕ) → ℕ → ℕ → List Text
unfolding choose known_of
select_terms terms df max_terms budget =
    choose max_terms budget 0 0 (Sort.sort after_df (known_of terms df))
