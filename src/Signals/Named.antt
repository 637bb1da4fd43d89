-- ===== src/Signals/Named.antt =====
-- crates/laya-rank/src/signals.rs: what the identifiers, paths and terms of a prompt are.
use laya_codex.Common.{
  ◌≡◌, sym, ap, ◌∙◌, subst, if◌then◌else◌, Bool, true, false, not, ◌&&◌, ◌||◌, Option, none, some,
  List, [], ◌∷◌, arith, Bool-cases, Option-cases, inl, inr, All, All-append, All-keep_if,
}
use laya_codex.Common.Options.{bind-some_cases, if-some, if-none}
use laya_codex.Common.Ordered.{sort_dedup-NoRepeats, All-sort_dedup}
use laya_codex.Common.Repeats.{NoRepeats}
use laya_codex.Common.Text.{
  Text, text_eq, has, is_empty, trim_end_by, split_on, rsplit_once, to_ascii_lowercase,
  split_whitespace, trim_by,
}
use laya_codex.Ident.{terms}
use laya_codex.Signals.{
  PromptSignals, is_stopword, is_token_char, signal_terms, Mentions, add_mention, add_token,
  mentions_from, extract_signals,
}
use laya_codex.Signals.Stoplist.{path_extensions}
use laya_codex.Signals.Tokens.{
  several, split_scope, ends_token, ends_path, last_of, base_of, path_mention, is_identifier_shaped,
  is_explicit_identifier, strip_call, named_in, names_in, scoped_identifiers,
}

abbrev pub IsShaped : Text → Type 0
IsShaped name = is_identifier_shaped name ≡ true

-- The path ends in one of the known extensions.
pub record IsPath (path : Text) : Type 0 where
  pub parts : Text × Text
  pub split : rsplit_once b'.' path ≡ some parts
  pub known : has (to_ascii_lowercase parts.1) path_extensions ≡ true

-- What is promised of the signals of a prompt.
pub record IsNamed (s : PromptSignals) : Type 0 where
  pub shaped : All IsShaped s.identifiers
  pub apart : NoRepeats text_eq s.identifiers
  pub paths : All IsPath s.paths
  pub paths_apart : NoRepeats text_eq s.paths
  pub content : All (λ t. is_stopword t ≡ false) s.terms

IsShaped-named_in :
    (is_scoped : Bool) (part : Text) (o : Option Text) (name : Text)
    → named_in is_scoped part o ≡ some name
    → IsShaped name
unfolding named_in is_explicit_identifier
IsShaped-named_in is_scoped part (some n) name e =
    let (h, q) = if-some (not (is_empty n) && is_identifier_shaped n) n name e in
    subst IsShaped q (ground (arith, h))
IsShaped-named_in is_scoped part none name e =
    let (h, q) =
      if-some
        (not (is_empty part) && is_scoped && is_identifier_shaped part
          || is_explicit_identifier part)
        part name e in
    subst IsShaped q (ground (arith, h))

IsShaped-names_in : (is_scoped : Bool) (parts : List Text) → All IsShaped (names_in is_scoped parts)
unfolding names_in
IsShaped-names_in is_scoped [] = tt
IsShaped-names_in is_scoped (part ∷ parts) =
    elim (Option-cases (named_in is_scoped part (strip_call part))) [
      | inl e ↦ rw e (IsShaped-names_in is_scoped parts)
      | inr (name, e) ↦ rw e (
        IsShaped-named_in is_scoped part (strip_call part) name e,
        IsShaped-names_in is_scoped parts,
      )
    ]

IsShaped-scoped_identifiers : (token : Text) → All IsShaped (scoped_identifiers token)
unfolding scoped_identifiers
IsShaped-scoped_identifiers token =
    IsShaped-names_in (several (split_scope (trim_end_by ends_token token)))
      (split_scope (trim_end_by ends_token token))

IsPath-path_mention : (token path : Text) → path_mention token ≡ some path → IsPath path
unfolding path_mention
IsPath-path_mention token path e =
    let core = trim_end_by ends_path token in
    let name = last_of core (split_on b'/' core) in
    let (parts, split, rest) =
      bind-some_cases (rsplit_once b'.' core)
        (λ parts.
          if not (has (to_ascii_lowercase parts.1) path_extensions)
            || is_empty (base_of name (rsplit_once b'.' name))
          then none
          else some core)
        path e in
    let (h, q) =
      if-none
        (not (has (to_ascii_lowercase parts.1) path_extensions)
          || is_empty (base_of name (rsplit_once b'.' name)))
        core path rest in
    record {
      parts = parts;
      split = ap (rsplit_once b'.') (sym q) ∙ split;
      known = ground (arith, h);
    }

abbrev AreNamed : Mentions → Type 0
AreNamed m = All IsShaped m.0 × All IsPath m.1

AreNamed-add_token : (token : Text) (m : Mentions) → AreNamed m → AreNamed (add_token token m)
unfolding add_token add_mention
AreNamed-add_token token m a = elim (Bool-cases (is_empty token)) [
  | inl e ↦ rw e a
  | inr e ↦ elim (Option-cases (path_mention token)) [
    | inl n ↦
        rw (e, n)
          (
            All-append IsShaped m.0 (scoped_identifiers token) a.0
                (IsShaped-scoped_identifiers token),
            a.1,
          )
    | inr (path, n) ↦
        rw (e, n)
          (a.0, All-append IsPath m.1 (path ∷ []) a.1 (IsPath-path_mention token path n, tt))
  ]
]

AreNamed-mentions_from :
    (m : Mentions) (tokens : List Text) → AreNamed m → AreNamed (mentions_from m tokens)
unfolding mentions_from
AreNamed-mentions_from m [] a = a
AreNamed-mentions_from m (raw ∷ more) a =
    AreNamed-mentions_from (add_token (trim_by (λ c. not (is_token_char c)) raw) m) more
      (AreNamed-add_token (trim_by (λ c. not (is_token_char c)) raw) m a)

not_stopword : (t : Text) → not (is_stopword t) ≡ true → is_stopword t ≡ false
not_stopword t h = ground arith

-- The identifiers of a prompt are shaped like identifiers, its paths end in a known extension, neither
-- list has a repeat, and no term is a stopword.
pub extract_signals-IsNamed : (prompt : Text) → IsNamed (extract_signals prompt)
unfolding extract_signals signal_terms
extract_signals-IsNamed prompt =
    let found : Mentions = mentions_from ([], []) (split_whitespace prompt) in
    let a = AreNamed-mentions_from ([], []) (split_whitespace prompt) (tt, tt) in
    record {
      shaped = All-sort_dedup IsShaped found.0 a.0;
      apart = sort_dedup-NoRepeats found.0;
      paths = All-sort_dedup IsPath found.1 a.1;
      paths_apart = sort_dedup-NoRepeats found.1;
      content =
          All-keep_if (λ t. is_stopword t ≡ false) (λ t. not (is_stopword t)) (terms prompt)
            not_stopword;
    }
