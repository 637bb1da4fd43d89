-- ===== src/Signals/Tests.antt =====
-- Examples of the signals of a prompt.
use laya_codex.Common.{◌<◌, ◌≡◌, refl, arith, true, [], ◌∷◌, map}
use laya_codex.Common.Text.{Text, codes}
use laya_codex.Signals.{extract_signals, content_terms, follow_up_intent}
use laya_codex.Signals.Focus.{task_focus, quoted_passages, sentences}
use laya_codex.Signals.Content.{task_focus-content}
use laya_codex.Signals.Named.{IsNamed, extract_signals-IsNamed}

abbrev prompt : Text
prompt = codes "Find Store::get in src/a.rs, then parse_it() now."

extract_signals-run : extract_signals prompt ≡ record {
  terms = map codes ("store" ∷ "get" ∷ "src" ∷ "rs" ∷ "parse" ∷ "parse_it" ∷ []);
  identifiers = map codes ("Store" ∷ "get" ∷ "parse_it" ∷ []);
  paths = codes "src/a.rs" ∷ [];
}
unfolding extract_signals
extract_signals-run = refl

quoted_passages-run : quoted_passages (codes "a \" b c\" “d”") ≡ codes "b c" ∷ codes "d" ∷ []
unfolding quoted_passages
quoted_passages-run = refl

sentences-run :
    sentences (codes "Go on. v1.2 is\nout!") ≡ codes "Go on." ∷ codes "v1.2 is" ∷ codes "out!" ∷ []
unfolding sentences
sentences-run = refl

abbrev wrapped : Text
wrapped = codes "WAL replay drops torn writes. End your answer with FILES: x."

task_focus-run : task_focus wrapped ≡ codes "WAL replay drops torn writes."
unfolding task_focus
task_focus-run = refl

content_terms-wrapped : 0 < content_terms wrapped
unfolding content_terms
content_terms-wrapped = omega arith

follow_up-run :
    follow_up_intent (codes "Where is it used, and is it tested?")
    ≡ record { tests = true; callers = true }
unfolding follow_up_intent
follow_up-run = refl

extract_signals-IsNamed_example : IsNamed (extract_signals prompt)
extract_signals-IsNamed_example = extract_signals-IsNamed prompt

task_focus-content_example : 0 < content_terms (task_focus wrapped)
task_focus-content_example = task_focus-content wrapped content_terms-wrapped
