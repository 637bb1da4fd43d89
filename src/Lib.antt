-- ===== src/Lib.antt =====
-- laya-codex indexes a repository and hands the code that a task needs to an assistant. Files are cut
-- into chunks of whole rows, chunks are kept in a store behind a connection pool, and queries rank
-- them into spans. These modules model its Rust crates, each function by clauses beside the source:
--
-- - Common: shared lists, text, and the stable sort that stands for slice::sort_by.
-- - Core: crates/laya-core/src/lib.rs, the types that the crates exchange.
-- - Parse: crates/laya-parse. Lines is src/lines.rs. Windows is chunk_text of src/text.rs, whose two
--   loops are `cut` and `merge`. Tree, Segments and its children are src/cast.rs: Segments/Walk is
--   `Segmenter`, with `out` kept newest first and the recursion depth counted down from MAX_DEPTH, and
--   Segments/Finish is `finish` and `merge_small`. Merging is the walk that both merge loops perform,
--   as a step relation over spans; Chunking is what both chunkers promise. Source is
--   chunk_source_with of src/lib.rs and the rest of chunk_tree; what the parser reports is its input.
-- - Breaker: crates/laya-store/src/breaker.rs, time being an argument in nanoseconds.
-- - Executor: crates/laya-store/src/conn.rs over Breaker. What the redis client, the locks and the
--   clock answer is an input, one `Round` for each attempt; a pooled connection is the generation in
--   which it was opened.
-- - Spans: crates/laya-rank/src/span.rs, over any type of scores; the iteration order of its hash map
--   is an argument.
-- - Session: crates/laya-cli/src/session.rs, its hash maps as lists and the clock an argument.
-- - Query: prepare_terms and select_terms of crates/laya-store/src/query.rs.
-- - Sizing: crates/laya-rank/src/sizing.rs up to the rendering, a candidate carried with its index.
-- - Serving: how crates/laya-cli/src/serving.rs combines the settings of model and environment.
-- - Ident: crates/laya-core/src/ident.rs, a text being the list of its code points.
-- - Store: crates/laya-store/src/keys.rs and src/store.rs. Codec is a chunk as the fields of a hash,
--   Pipeline the commands of put_file, Write and Read the operations as actions on a `World`: the
--   database and the trips made. The server is a parameter (`Server`), with what is documented of its
--   commands as `IsServer`; a trip may lose attempts that applied part of a pipeline. Memory is one such
--   server, for the examples.
-- - Related: crates/laya-rank/src/related.rs, over the lookups of a store as an interface.
-- - Signals: crates/laya-rank/src/signals.rs; Tokens are the paths and identifiers named in a prompt,
--   Focus the part that describes the task.
-- - Fusion: crates/laya-rank/src/fusion.rs, and the fusion of hits of crates/laya-store/src/query.rs, over
--   the operations of `f32` as a record.
-- - Retrieval: crates/laya-rank/src/retriever.rs; Gate is laya_gate, Query the whole of a query, from
--   its prompt over the answers of the store and of the scorer to its result and capture.
-- - Search: bm25 of crates/laya-store/src/store.rs and the replies of src/query.rs, the trips to the
--   server as a record of functions; Replies is the form of a reply, as the comments of the source give
--   it.
--
-- Loops that the source writes with `while` run on fuel: one round for each row that is left, or for
-- each position of a walk (twice the spans, plus one). The theorems on them show that this is enough.
-- Rows and offsets are unbounded numbers, since they are lengths of a file in memory; the casts to
-- u32 and the wrapping counters keep their modulus. Scores are `f32` in the source and a type with the
-- operations that the code uses here; that their order is a strict weak order, as it is without NaN, is
-- a hypothesis where a theorem needs it.
--
-- Not modelled: tree-sitter, the redis client and the model's tensor library, which are not part of
-- the repository; the renderer of results, the daemon, the command line, and the file system work
-- around them.
pub mod Breaker
pub mod Common
pub mod Core
pub mod Executor
pub mod Fusion
pub mod Ident
pub mod Parse
pub mod Query
pub mod Related
pub mod Retrieval
pub mod Search
pub mod Serving
pub mod Session
pub mod Signals
pub mod Sizing
pub mod Spans
pub mod Store
