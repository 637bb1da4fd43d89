-- ===== src/Common/Ordered.antt =====
-- The order of texts, and a list of them sorted and without repeats.
use laya_codex.Common.{
  ◌≡◌, refl, sym, ap, ◌∙◌, arith, Bool-cases, inl, inr, any, All, Bool, true, false, ◌&&◌, ◌||◌,
  List, [], ◌∷◌, ltb, ◌==◌, if◌then◌else◌,
}
use laya_codex.Common.Sort
use laya_codex.Common.Text.{Text, text_eq, text_eq_iff}
use laya_codex.Common.Repeats.{NoRepeats}

-- `str` compares by the bytes of UTF-8, which is the order of the code points.
unfoldable pub text_ltb : Text → Text → Bool
text_ltb s [] = false
text_ltb [] (b ∷ t) = true
text_ltb (a ∷ s) (b ∷ t) = ltb a b || a == b && text_ltb s t

unfoldable pub after_text : Text → Text → Bool
unfolding text_ltb
after_text a b = text_ltb b a

unfoldable pub dedup_texts : List Text → List Text
unfolding text_eq
dedup_texts [] = []
dedup_texts (i ∷ []) = i ∷ []
dedup_texts (i ∷ j ∷ ids) =
    let rest = dedup_texts (j ∷ ids) in if text_eq i j then rest else i ∷ rest

-- `sort`, then `dedup`.
unfoldable pub sort_dedup : List Text → List Text
unfolding dedup_texts Sort.sort after_text
sort_dedup ids = dedup_texts (Sort.sort after_text ids)

text_ltb_asym : (s t : Text) → text_ltb s t ≡ true → text_ltb t s ≡ false
unfolding text_ltb
text_ltb_asym [] [] h = cc
text_ltb_asym [] (b ∷ t) h = refl
text_ltb_asym (a ∷ s) [] h = cc
text_ltb_asym (a ∷ s) (b ∷ t) h = ground (arith, text_ltb_asym s t)

text_ltb_neg_trans :
    (s t u : Text) → text_ltb t s ≡ false → text_ltb u t ≡ false → text_ltb u s ≡ false
unfolding text_ltb
text_ltb_neg_trans [] t u h k = refl
text_ltb_neg_trans (a ∷ s) [] u h k = cc
text_ltb_neg_trans (a ∷ s) (b ∷ t) [] h k = cc
text_ltb_neg_trans (a ∷ s) (b ∷ t) (c ∷ u) h k = ground (arith, text_ltb_neg_trans s t u)

text_ltb_antisym : (s t : Text) → text_ltb s t ≡ false → text_ltb t s ≡ false → text_eq s t ≡ true
unfolding text_ltb text_eq
text_ltb_antisym [] [] h k = refl
text_ltb_antisym [] (b ∷ t) h k = cc
text_ltb_antisym (a ∷ s) [] h k = cc
text_ltb_antisym (a ∷ s) (b ∷ t) h k = ground (arith, text_ltb_antisym s t)

pub after_text-IsWeakOrder : Sort.IsWeakOrder after_text
unfolding after_text
after_text-IsWeakOrder = record { asym = λ s t. text_ltb_asym t s; neg_trans = text_ltb_neg_trans }

pub All-dedup_texts {κ} : (P : Text → Type κ) (xs : List Text) → All P xs → All P (dedup_texts xs)
unfolding dedup_texts
All-dedup_texts P [] a = tt
All-dedup_texts P (x ∷ []) a = a
All-dedup_texts P (x ∷ y ∷ xs) a = elim (Bool-cases (text_eq x y)) [
  | inl e ↦ rw e (All-dedup_texts P (y ∷ xs) a.1)
  | inr e ↦ rw e (a.0, All-dedup_texts P (y ∷ xs) a.1)
]

any-none :
    (x : Text) (xs : List Text) → All (λ y. text_eq x y ≡ false) xs → any (text_eq x) xs ≡ false
any-none x [] a = refl
any-none x (y ∷ xs) a = rw (a.0, any-none x xs a.1) refl

-- What stands behind a text that is not the same is not the same either.
apart-sorted :
    (x y : Text) (xs : List Text)
    → text_eq x y ≡ false
    → after_text x y ≡ false
    → All (λ z. after_text y z ≡ false) xs
    → All (λ z. text_eq x z ≡ false) xs
unfolding after_text
apart-sorted x y [] n h a = tt
apart-sorted x y (z ∷ xs) n h a = (
  elim (Bool-cases (text_eq x z)) [
    | inl e ↦
        let same : text_ltb x y ≡ false = ap (λ u. text_ltb u y) ((text_eq_iff x z).0 e) ∙ a.0 in
        let clash : true ≡ false = sym (text_ltb_antisym x y same h) ∙ n in cc
    | inr e ↦ e
  ],
  apart-sorted x y xs n h a.1,
)

dedup_texts-NoRepeats :
    (xs : List Text) → Sort.IsSorted after_text xs → NoRepeats text_eq (dedup_texts xs)
unfolding dedup_texts
dedup_texts-NoRepeats [] s = tt
dedup_texts-NoRepeats (x ∷ []) s = (refl, tt)
dedup_texts-NoRepeats (x ∷ y ∷ xs) s = elim (Bool-cases (text_eq x y)) [
  | inl e ↦ rw e (dedup_texts-NoRepeats (y ∷ xs) s.1)
  | inr e ↦ rw e (
    any-none x (dedup_texts (y ∷ xs)) (
        All-dedup_texts (λ z. text_eq x z ≡ false) (y ∷ xs) (e, apart-sorted x y xs e s.0.0 s.1.0)),
    dedup_texts-NoRepeats (y ∷ xs) s.1,
  )
]

-- No text is twice in the list,.
pub sort_dedup-NoRepeats : (xs : List Text) → NoRepeats text_eq (sort_dedup xs)
unfolding sort_dedup
sort_dedup-NoRepeats xs =
    dedup_texts-NoRepeats (Sort.sort after_text xs)
      (Sort.sort-IsSorted after_text after_text-IsWeakOrder xs)

pub All-sort_dedup {κ} : (P : Text → Type κ) (xs : List Text) → All P xs → All P (sort_dedup xs)
unfolding sort_dedup
All-sort_dedup P xs a =
    All-dedup_texts P (Sort.sort after_text xs) (Sort.All-sort after_text P xs a)
