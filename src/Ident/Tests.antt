-- ===== src/Ident/Tests.antt =====
-- Examples of the terms of a text.
use laya_codex.Common.{◌≡◌, refl, [], ◌∷◌, All, flatten, keep_if, not, ◌==◌, leb, length}
use laya_codex.Common.Text.{codes, to_ascii_lowercase}
use laya_codex.Ident.{terms, split_ident}
use laya_codex.Ident.Lossless.{flatten-split_ident}
use laya_codex.Ident.Terms.{terms-is_term}
use laya_codex.Query.{is_term, max_term_len}

terms-camel :
    terms (codes "HashWithTtl")
    ≡ codes "hash" ∷ codes "with" ∷ codes "ttl" ∷ codes "hashwithttl" ∷ []
unfolding terms
terms-camel = refl

terms-acronym :
    terms (codes "HTTPServer + utf8")
    ≡ codes "http" ∷ codes "server" ∷ codes "httpserver" ∷ codes "utf" ∷ codes "utf8" ∷ []
unfolding terms
terms-acronym = refl

terms-single : terms (codes "a + 42 b") ≡ []
unfolding terms
terms-single = refl

terms-is_term_example :
    All
      (λ t. is_term (to_ascii_lowercase t) ≡ leb (length t) max_term_len)
      (terms (codes "HTTPServer::parse_config(utf8) { 4x } "))
terms-is_term_example = terms-is_term (codes "HTTPServer::parse_config(utf8) { 4x } ")

flatten-split_ident_example :
    flatten (split_ident (codes "_Parse_HTTPServer2"))
    ≡ to_ascii_lowercase (keep_if (λ c. not (c == b'_')) (codes "_Parse_HTTPServer2"))
flatten-split_ident_example = flatten-split_ident (codes "_Parse_HTTPServer2")
