-- ===== src/Signals/Content.antt =====
-- crates/laya-rank/src/signals.rs: the focus of a prompt has content when the prompt does.
use laya_codex.Common.{
  ℕ, ◌<◌, ◌≡◌, refl, sym, ◌∙◌, ap, true, false, not, List, [], ◌∷◌, ◌++◌, arith, leb→le, ◌==◌,
  Bool-cases, inl, inr, length, keep_if, keep_if-append, All, All-keep_if, length-append,
}
use laya_codex.Common.Ordered.{dedup_texts, sort_dedup, after_text}
use laya_codex.Common.Sort
use laya_codex.Common.Text.{split_by, Text, join}
use laya_codex.Common.Splitting.{split_by-at}
use laya_codex.Ident.{is_word_char, is_word, words, terms_of, terms_from, terms}
use laya_codex.Signals.{is_stopword, signal_terms, content_terms}
use laya_codex.Signals.Focus.{
  sentences, is_output_instruction, quoted_passages, focus_on, focus_with, task_quote, task_focus,
}
use mathlib.Core.List.{append_assoc}

words-at : (c : ℕ) → is_word_char c ≡ false → (s t : Text) → words (s ++ c ∷ t) ≡ words s ++ words t
unfolding words
words-at c h s t =
    ap (keep_if is_word) (split_by-at (λ c. not (is_word_char c)) c (rw h refl) s t)
    ∙ keep_if-append is_word (split_by (λ c. not (is_word_char c)) s)
        (split_by (λ c. not (is_word_char c)) t)

terms_from-append : (vs ws : List Text) → terms_from (vs ++ ws) ≡ terms_from vs ++ terms_from ws
unfolding terms_from
terms_from-append [] ws = refl
terms_from-append (v ∷ vs) ws =
    rw (terms_from-append vs ws) (sym (append_assoc (terms_of v) (terms_from vs) (terms_from ws)))

-- A character that is in no word parts the terms.
signal_terms-at :
    (c : ℕ)
    → is_word_char c ≡ false
    → (s t : Text) → signal_terms (s ++ c ∷ t) ≡ signal_terms s ++ signal_terms t
unfolding signal_terms terms
signal_terms-at c h s t =
    ap (keep_if (λ t. not (is_stopword t)))
      (ap terms_from (words-at c h s t) ∙ terms_from-append (words s) (words t))
    ∙ keep_if-append (λ t. not (is_stopword t)) (terms_from (words s)) (terms_from (words t))

length-dedup_texts : (x : Text) (xs : List Text) → 0 < length (dedup_texts (x ∷ xs))
unfolding dedup_texts
length-dedup_texts x [] = omega arith
length-dedup_texts x (y ∷ xs) = ground (arith, length-dedup_texts y xs)

dedup_texts-some : (xs : List Text) → 0 < length xs → 0 < length (dedup_texts xs)
dedup_texts-some [] h = absurd (omega (arith, h))
dedup_texts-some (x ∷ xs) h = length-dedup_texts x xs

-- There are content terms if there are search terms.
content_terms-some : (s : Text) → 0 < length (signal_terms s) → 0 < content_terms s
unfolding content_terms sort_dedup
content_terms-some s h =
    dedup_texts-some (Sort.sort after_text (signal_terms s))
      (rw (Sort.length-sort after_text (signal_terms s)) h)

sort_dedup-none : (xs : List Text) → 0 < length (sort_dedup xs) → 0 < length xs
unfolding sort_dedup Sort.sort dedup_texts
sort_dedup-none [] h = h
sort_dedup-none (x ∷ xs) h = omega arith

signal_terms-some : (s : Text) → 0 < content_terms s → 0 < length (signal_terms s)
unfolding content_terms
signal_terms-some s h = sort_dedup-none (signal_terms s) h

join-content :
    (q : Text) (quoted : List Text)
    → 0 < content_terms q
    → 0 < content_terms (join (b'\n' ∷ []) (q ∷ quoted))
unfolding join is_word_char
join-content q [] h = h
join-content q (r ∷ quoted) h = content_terms-some (join (b'\n' ∷ []) (q ∷ r ∷ quoted)) (
    rw (signal_terms-at b'\n' refl q (join (b'\n' ∷ []) (r ∷ quoted))) (
      omega (
        arith,
        length-append (signal_terms q) (signal_terms (join (b'\n' ∷ []) (r ∷ quoted))),
        signal_terms-some q h,
      )))

focus_on-content :
    (prompt : Text) (kept : List Text)
    → 0 < content_terms prompt
    → 0 < content_terms (focus_on prompt kept)
unfolding focus_on
focus_on-content prompt [] h = h
focus_on-content prompt (s ∷ kept) h =
    elim (Bool-cases (content_terms (join (b' ' ∷ []) (s ∷ kept)) == 0)) [
      | inl e ↦ rw e h
      | inr e ↦ rw e (ground (arith, e))
    ]

focus_with-content :
    (prompt : Text) (quoted : List Text)
    → All (λ q. task_quote q ≡ true) quoted
    → 0 < content_terms prompt
    → 0 < content_terms (focus_with prompt quoted)
unfolding focus_with task_quote
focus_with-content prompt [] a h =
    focus_on-content prompt (keep_if (λ s. not (is_output_instruction s)) (sentences prompt)) h
focus_with-content prompt (q ∷ quoted) a h =
    join-content q quoted (omega (arith, leb→le 3 (content_terms q) a.0))

-- If a prompt has content terms, so does its focus.
pub task_focus-content :
    (prompt : Text) → 0 < content_terms prompt → 0 < content_terms (task_focus prompt)
unfolding task_focus
task_focus-content prompt h =
    focus_with-content prompt (keep_if task_quote (quoted_passages prompt))
      (All-keep_if (λ q. task_quote q ≡ true) task_quote (quoted_passages prompt) (λ q e. e)) h
