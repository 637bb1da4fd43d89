-- ===== src/Signals/Stoplist.antt =====
-- crates/laya-rank/src/signals.rs: the lists of words and phrases.
use laya_codex.Common.{List, [], ◌∷◌, ◌++◌, map}
use laya_codex.Common.Text.{Text, codes}

abbrev pub path_extensions : List Text
path_extensions = map codes (
    "rs" ∷ "py" ∷ "ts" ∷ "tsx" ∷ "js" ∷ "jsx" ∷ "mjs" ∷ "cjs" ∷ "go" ∷ "java" ∷ "c" ∷ "h" ∷ "cc"
    ∷ "cpp" ∷ "cxx" ∷ "hpp" ∷ "cs" ∷ "rb" ∷ "php" ∷ "kt" ∷ "kts" ∷ "swift" ∷ "md" ∷ "toml" ∷ "json"
    ∷ "yaml" ∷ "yml" ∷ [])

abbrev pub function_words : List Text
function_words = map codes (
    "a" ∷ "about" ∷ "above" ∷ "after" ∷ "again" ∷ "all" ∷ "also" ∷ "am" ∷ "an" ∷ "and" ∷ "any"
    ∷ "are" ∷ "as" ∷ "at" ∷ "be" ∷ "because" ∷ "been" ∷ "before" ∷ "being" ∷ "below" ∷ "between"
    ∷ "both" ∷ "but" ∷ "by" ∷ "can" ∷ "could" ∷ "did" ∷ "do" ∷ "does" ∷ "doing" ∷ "done" ∷ "down"
    ∷ "during" ∷ "each" ∷ "either" ∷ "else" ∷ "etc" ∷ "ever" ∷ "every" ∷ "few" ∷ "for" ∷ "from"
    ∷ "further" ∷ "had" ∷ "has" ∷ "have" ∷ "having" ∷ "he" ∷ "her" ∷ "here" ∷ "his" ∷ "how"
    ∷ "however" ∷ "i" ∷ "if" ∷ "in" ∷ "into" ∷ "is" ∷ "it" ∷ "its" ∷ "itself" ∷ "just" ∷ "let"
    ∷ "lets" ∷ "me" ∷ "might" ∷ "more" ∷ "most" ∷ "much" ∷ "must" ∷ "my" ∷ "no" ∷ "nor" ∷ "not"
    ∷ "now" ∷ "of" ∷ "off" ∷ "on" ∷ "once" ∷ "one" ∷ "only" ∷ "or" ∷ "other" ∷ "our" ∷ "out"
    ∷ "over" ∷ "own" ∷ "please" ∷ "same" ∷ "shall" ∷ "she" ∷ "should" ∷ "so" ∷ "some" ∷ "such"
    ∷ "than" ∷ "that" ∷ "the" ∷ "their" ∷ "them" ∷ "then" ∷ "there" ∷ "these" ∷ "they" ∷ "this"
    ∷ "those" ∷ "through" ∷ "thus" ∷ "to" ∷ "too" ∷ "under" ∷ "until" ∷ "up" ∷ "upon" ∷ "us"
    ∷ "very" ∷ "via" ∷ "was" ∷ "we" ∷ "were" ∷ "what" ∷ "when" ∷ "where" ∷ "whether" ∷ "which"
    ∷ "while" ∷ "who" ∷ "whom" ∷ "whose" ∷ "why" ∷ "will" ∷ "with" ∷ "within" ∷ "without" ∷ "would"
    ∷ "yes" ∷ "yet" ∷ "you" ∷ "your" ∷ "yours" ∷ [])

abbrev pub meta_words : List Text
meta_words = map codes (
    "answer" ∷ "briefly" ∷ "codebase" ∷ "comma" ∷ "describe" ∷ "efficient" ∷ "efficiently"
    ∷ "exactly" ∷ "explain" ∷ "find" ∷ "following" ∷ "give" ∷ "help" ∷ "identify" ∷ "implements"
    ∷ "look" ∷ "need" ∷ "needs" ∷ "please" ∷ "project" ∷ "relevant" ∷ "repository" ∷ "separated"
    ∷ "show" ∷ "tell" ∷ "understand" ∷ "want" ∷ [])

abbrev pub prompt_stoplist : List Text
prompt_stoplist = function_words ++ meta_words

abbrev pub back_references : List Text
back_references = map codes ("same" ∷ "above" ∷ "previous" ∷ "earlier" ∷ "aforementioned" ∷ [])

abbrev pub test_words : List Text
test_words = map codes ("test" ∷ "tests" ∷ "tested" ∷ "testing" ∷ "coverage" ∷ [])

abbrev pub caller_words : List Text
caller_words = map codes (
    "caller" ∷ "callers" ∷ "callsite" ∷ "callsites" ∷ "invoke" ∷ "invokes" ∷ "invoked" ∷ "usage"
    ∷ "usages" ∷ [])

abbrev pub output_format_markers : List Text
output_format_markers = map codes (
    "your answer" ∷ "your response" ∷ "of the form" ∷ "answer with" ∷ "respond with" ∷ "reply with"
    ∷ "output format" ∷ "be efficient" ∷ "be concise" ∷ "be brief" ∷ "read only what" ∷ [])
