-- ===== src/Related/Claims.antt =====
-- crates/laya-rank/src/related.rs: the claim that all uses are shown.
use laya_codex.Common.{
  ℕ, ◌+◌, ◌≤◌, ◌<◌, ◌≡◌, refl, sym, ◌∙◌, ap, subst, Bool, true, false, ◌||◌, ◌&&◌, Option, some,
  List, [], ◌∷◌, ◌++◌, arith, leb, ◌==◌, Bool-cases, Option-cases, inl, inr, length, map, All,
  length-append, length-map,
}
use laya_codex.Common.Repeats.{any-append}
use laya_codex.Common.Text.{Text, text_eq, text_eq_refl}
use laya_codex.Core.{Chunk, Related}
use laya_codex.Related.Usages.{
  usage_ref_limit, Listing, first_line_with, is_listed, list_line, list_chunk, list_from,
  is_complete, tagged, usage_place,
}
use mathlib.Core.List.{append-nil, append_assoc}

module _ (by_id : Text → Option Chunk) (ident : Text) (max_lines per_ident : ℕ) where
  -- The chunk was found, and its first line with the identifier is in the list.
  pub record IsShown (out : List Related) (t : Text × Bool) : Type 0 where
    pub chunk : Chunk
    pub line : ℕ
    pub text : Text
    pub found : by_id t.0 ≡ some chunk
    pub has_line : first_line_with chunk ident ≡ some (line, text)
    pub listed : is_listed chunk line out ≡ true

  is_listed-append :
      (chunk : Chunk) (line : ℕ) (out more : List Related)
      → is_listed chunk line out ≡ true
      → is_listed chunk line (out ++ more) ≡ true
  unfolding is_listed
  is_listed-append chunk line out more h =
      rw
        (
          any-append (λ (r : Related). text_eq r.path chunk.path && r.start_line == line) out more,
          h,
        )
        refl

  IsShown-append :
      (out more : List Related) (t : Text × Bool) → IsShown out t → IsShown (out ++ more) t
  IsShown-append out more t s = record {
    chunk = s.chunk;
    line = s.line;
    text = s.text;
    found = s.found;
    has_line = s.has_line;
    listed = is_listed-append s.chunk s.line out more s.listed;
  }

  is_listed-place :
      (is_def : Bool) (chunk : Chunk) (line : ℕ) (text : Text) (out : List Related)
      → is_listed chunk line (out ++ usage_place is_def ident chunk line text ∷ []) ≡ true
  unfolding is_listed usage_place
  is_listed-place is_def chunk line text out = ground (
    arith,
    any-append (λ (r : Related). text_eq r.path chunk.path && r.start_line == line) out
        (usage_place is_def ident chunk line text ∷ []),
    text_eq_refl chunk.path,
  )

  -- One chunk adds to the list at its end, and counts as shown only if it has a line there.
  record Extends (l l' : Listing) (t : Text × Bool) : Type 0 where
    more : List Related
    extended : l'.out ≡ l.out ++ more
    at_most : l'.shown ≤ l.shown + 1
    shows : l'.shown ≡ l.shown + 1 → IsShown l'.out t

  unchanged : (l : Listing) (t : Text × Bool) → Extends l l t
  unchanged l t = record {
    more = [];
    extended = sym (append-nil l.out);
    at_most = omega arith;
    shows = λ e. absurd (omega (arith, e));
  }

  list_chunk-Extends :
      (l : Listing) (t : Text × Bool) → Extends l (list_chunk t.1 ident (by_id t.0) l) t
  unfolding list_chunk list_line
  list_chunk-Extends l t = elim (Option-cases (by_id t.0)) [
    | inl e ↦ rw e (unchanged l t)
    | inr (chunk, e) ↦ elim (Option-cases (first_line_with chunk ident)) [
      | inl n ↦ rw (e, n) (unchanged l t)
      | inr ((line, text), f) ↦ elim (Bool-cases (is_listed chunk line l.out)) [
        | inl b ↦
            rw (e, f, b)
              (record {
                more = [];
                extended = sym (append-nil l.out);
                at_most = omega arith;
                shows = λ q. record {
                  chunk = chunk;
                  line = line;
                  text = text;
                  found = e;
                  has_line = f;
                  listed = b;
                };
              })
        | inr b ↦
            rw (e, f, b)
              (record {
                more = usage_place t.1 ident chunk line text ∷ [];
                extended = refl;
                at_most = omega arith;
                shows = λ q. record {
                  chunk = chunk;
                  line = line;
                  text = text;
                  found = e;
                  has_line = f;
                  listed = is_listed-place t.1 chunk line text l.out;
                };
              })
      ]
    ]
  ]

  -- The same of a whole loop.
  record ExtendsAll (l l' : Listing) (ts : List (Text × Bool)) : Type 0 where
    more : List Related
    extended : l'.out ≡ l.out ++ more
    at_most : l'.shown ≤ l.shown + length ts
    shows : l'.shown ≡ l.shown + length ts → All (IsShown l'.out) ts

  list_from-stop :
      (l : Listing) (ts : List (Text × Bool))
      → (leb per_ident l.listed || leb max_lines (length l.out)) ≡ true
      → list_from by_id ident max_lines per_ident l ts ≡ l
  unfolding list_from
  list_from-stop l [] e = refl
  list_from-stop l (t ∷ ts) e = rw e refl

  list_from-go :
      (l : Listing) (t : Text × Bool) (ts : List (Text × Bool))
      → (leb per_ident l.listed || leb max_lines (length l.out)) ≡ false
      → list_from by_id ident max_lines per_ident l (t ∷ ts)
        ≡ list_from by_id ident max_lines per_ident (list_chunk t.1 ident (by_id t.0) l) ts
  unfolding list_from
  list_from-go l t ts e = rw e refl

  list_from-ExtendsAll :
      (l : Listing) (ts : List (Text × Bool))
      → ExtendsAll l (list_from by_id ident max_lines per_ident l ts) ts
  unfolding list_from
  list_from-ExtendsAll l [] = record {
    more = [];
    extended = sym (append-nil l.out);
    at_most = omega arith;
    shows = λ e. tt;
  }
  list_from-ExtendsAll l (t ∷ ts) =
      elim (Bool-cases (leb per_ident l.listed || leb max_lines (length l.out))) [
        | inl e ↦
            subst (λ l'. ExtendsAll l l' (t ∷ ts)) (sym (list_from-stop l (t ∷ ts) e))
              (record {
                more = [];
                extended = sym (append-nil l.out);
                at_most = omega arith;
                shows = λ q. absurd (omega (arith, q));
              })
        | inr e ↦
            let one = list_chunk-Extends l t in
            let l' = list_chunk t.1 ident (by_id t.0) l in
            let all = list_from-ExtendsAll l' ts in
            subst (λ l''. ExtendsAll l l'' (t ∷ ts)) (sym (list_from-go l t ts e))
              (record {
                more = one.more ++ all.more;
                extended =
                    all.extended
                    ∙ ap (λ out. out ++ all.more) one.extended
                    ∙ append_assoc l.out one.more all.more;
                at_most = omega (arith, one.at_most, all.at_most);
                shows = λ q. (
                  subst (λ out. IsShown out t) (sym all.extended)
                      (IsShown-append l'.out all.more t
                        (one.shows (omega (arith, q, one.at_most, all.at_most)))),
                  all.shows (omega (arith, q, one.at_most, all.at_most)),
                );
              })
      ]

length-tagged : (defs uses : List Text) → length (tagged defs uses) ≡ length defs + length uses
unfolding tagged
length-tagged defs uses = omega (
  arith,
  length-append {A = Text × Bool} (map (λ d. (d, true)) defs) (map (λ u. (u, false)) uses),
  length-map {B = Text × Bool} (λ d. (d, true)) defs,
  length-map {B = Text × Bool} (λ u. (u, false)) uses,
)

-- When the list of an identifier is claimed to show all uses, fewer referencing chunks came back than
-- were asked for, and every defining and every referencing chunk was found and has its first line with
-- the identifier in the list.
pub is_complete-IsShown :
    (by_id : Text → Option Chunk) (ident : Text) (max_lines per_ident : ℕ) (out : List Related)
    (defs uses : List Text)
    → let l : Listing =
        list_from by_id ident max_lines per_ident
          (record { out = out; listed = 0; shown = 0; def_lines = [] })
          (tagged defs uses) in
      is_complete defs uses l ≡ true
      → (length uses < usage_ref_limit)
        × All (IsShown by_id ident max_lines per_ident l.out) (tagged defs uses)
unfolding is_complete
is_complete-IsShown by_id ident max_lines per_ident out defs uses h =
    let start : Listing = record { out = out; listed = 0; shown = 0; def_lines = [] } in
    let all = list_from-ExtendsAll by_id ident max_lines per_ident start (tagged defs uses) in
    (ground (arith, h), all.shows (ground (arith, h, length-tagged defs uses)))
