-- ===== src/Ident/Lossless.antt =====
-- crates/laya-core/src/ident.rs: the parts of an identifier are all of it.
use laya_codex.Common.{
  ◌≡◌, refl, sym, ◌∙◌, ap, Bool, ◌&&◌, map, true, false, Option, none, some, List, [], ◌∷◌, ◌++◌,
  ◌==◌, keep_if, flatten, flatten-append, ℕ, not,
}
use laya_codex.Common.Text.{Text, split_on, to_ascii_lowercase, is_empty, ascii_lower}
use laya_codex.Common.Splitting.{flatten-split_by}
use laya_codex.Ident.{boundary, take_part, split_loop, split_segs, split_ident}
use mathlib.Core.List.{append_assoc, append-nil, map-append}

flatten-snoc : (parts : List Text) (t : Text) → flatten (parts ++ t ∷ []) ≡ flatten parts ++ t
flatten-snoc parts t = rw (flatten-append parts (t ∷ []), append-nil t) refl

flatten-take_part :
    (b : Bool) (parts : List Text) (cur : Text)
    → flatten (take_part b parts cur).0 ++ to_ascii_lowercase (take_part b parts cur).1
      ≡ flatten parts ++ to_ascii_lowercase cur
unfolding take_part to_ascii_lowercase
flatten-take_part true parts cur =
    rw
      (
        flatten-snoc parts (to_ascii_lowercase cur),
        append-nil (flatten parts ++ to_ascii_lowercase cur),
      )
      refl
flatten-take_part false parts cur = refl

regroup :
    (done cur : Text) (c : ℕ) (rest : Text)
    → done ++ (to_ascii_lowercase (cur ++ c ∷ []) ++ to_ascii_lowercase rest)
      ≡ (done ++ to_ascii_lowercase cur) ++ to_ascii_lowercase (c ∷ rest)
unfolding to_ascii_lowercase
regroup done cur c rest =
    rw
      (
        map-append ascii_lower cur (c ∷ []),
        append_assoc (map ascii_lower cur) (ascii_lower c ∷ []) (map ascii_lower rest),
      )
      (sym (append_assoc done (map ascii_lower cur) (map ascii_lower (c ∷ rest))))

flatten-split_loop :
    (prev : Option ℕ) (parts : List Text) (cur rest : Text)
    → flatten (split_loop prev parts cur rest)
      ≡ flatten parts ++ (to_ascii_lowercase cur ++ to_ascii_lowercase rest)
unfolding split_loop
flatten-split_loop prev parts [] [] = sym (append-nil (flatten parts))
flatten-split_loop prev parts (a ∷ cur) [] =
    rw append-nil (flatten-snoc parts (to_ascii_lowercase (a ∷ cur)))
flatten-split_loop prev parts cur (c ∷ rest) =
    let b = boundary prev c rest && not (is_empty cur) in
    let (parts', cur') = take_part b parts cur in
    flatten-split_loop (some c) parts' (cur' ++ c ∷ []) rest
    ∙ regroup (flatten parts') cur' c rest
    ∙ ap (λ t. t ++ to_ascii_lowercase (c ∷ rest)) (flatten-take_part b parts cur)
    ∙ append_assoc (flatten parts) (to_ascii_lowercase cur) (to_ascii_lowercase (c ∷ rest))

flatten-split_segs :
    (parts segs : List Text)
    → flatten (split_segs parts segs) ≡ flatten parts ++ to_ascii_lowercase (flatten segs)
unfolding split_segs to_ascii_lowercase
flatten-split_segs parts [] = sym (append-nil (flatten parts))
flatten-split_segs parts ([] ∷ segs) = flatten-split_segs parts segs
flatten-split_segs parts ((c ∷ seg) ∷ segs) =
    flatten-split_segs (split_loop none parts [] (c ∷ seg)) segs
    ∙ ap (λ t. t ++ to_ascii_lowercase (flatten segs)) (flatten-split_loop none parts [] (c ∷ seg))
    ∙ append_assoc (flatten parts) (to_ascii_lowercase (c ∷ seg))
        (to_ascii_lowercase (flatten segs))
    ∙ ap (λ t. flatten parts ++ t) (sym (map-append ascii_lower (c ∷ seg) (flatten segs)))

-- The parts of an identifier, one after the other, are the identifier in lower case without its
-- underscores.
pub flatten-split_ident :
    (word : Text)
    → flatten (split_ident word) ≡ to_ascii_lowercase (keep_if (λ c. not (c == b'_')) word)
unfolding split_ident split_on
flatten-split_ident word =
    flatten-split_segs [] (split_on b'_' word)
    ∙ ap to_ascii_lowercase (flatten-split_by (λ c. c == b'_') word)
