-- ===== src/Lib.antt =====
-- Verification of aide-mcp, an MCP server that keeps code indexes of repositories, talks to language
-- servers, searches code and runs jobs. The paths below are from the repository's root.
--
-- How the parts interact. The tool handlers of crates/aide-mcp/src/server.rs call every other part. After
-- a request they enqueue the head commit of a repository with the indexer, whose worker builds an index
-- and records it in a store on disk; the queries of crates/aide-scip read such an index. Language servers
-- are taken from a pool, documents are opened in them before a query, and the edits that they answer are
-- applied through byte offsets. They and the debug adapters speak a framed protocol. Jobs run as child
-- processes, of whose output a prefix is kept, and can be signalled by the id that a registry gives them.
--
-- What models what:
-- - Indexer: crates/aide-mcp/src/indexer. State and Store are the records and the methods of `Store`
--   (state.rs, and crates/aide-proto/src/ipc.rs), each method with the outcome of its flush as an argument,
--   since memory is changed before the file is written and stays changed when the write fails. Recovery is
--   `take_recoverable_jobs`. Queue is `Indexer` (mod.rs) and the worker (worker.rs): a call of
--   `enqueue_inner` has three stretches (`store_commit`, `send_job`, `undo_call`), the worker has three
--   (`take_job`, `mark_job`, `finish_job`), other tasks run between them, and a run is a sequence of such steps.
--   `enqueue_inner` itself is a call with nothing between its stretches.
-- - Lsp: crates/aide-lsp. Position holds `position_to_byte_offset`, `compute_line_offsets` and
--   `byte_offset`, Position/Splice holds `splice_range`, Symbols holds `find_enclosing_symbol`, Edits holds
--   `apply_text_edits`, Workspace holds `apply_workspace_edit` and the write that all edits share, SafeEdit
--   holds `safe_edit` and the four edits by symbol with their report, CodeActions holds
--   `list_code_actions` and `apply_code_action`, Session puts all these and `rename` in sequence, Documents holds
--   `ensure_document_current` with the server as the notifications that it gets (all ops.rs), Client is
--   the requests, the reader task and `shutdown` of `LspClient` (client.rs), and Pool is `LspPool` (pool.rs)
--   with the two stretches of `get_or_spawn` as two steps.
-- - Lang: crates/aide-lang/src/languages. Classify holds the conventions for tests, binaries and examples of
--   all plugins, TextDiag is textdiag.rs, Diagnostics holds the messages of cargo (rust.rs).
-- - Github: crates/aide-github, the loop over pages and what is made of responses (client.rs), and the
--   names of repositories (repo.rs).
-- - Proto: `write_message` and `read_message` of crates/aide-proto/src/framing.rs.
-- - Exec: `read_capped_tee` of crates/aide-mcp/src/exec.rs.
-- - Jobs: `Registry` and `Signal` of crates/aide-mcp/src/jobs.rs.
-- - Search: Grep holds the loops of `grep` and `grep_at` with their sink (crates/aide-search/src/grep.rs),
--   Ls holds `list_files` and `list_files_at` (ls.rs).
-- - Dap: the requests, answers, events and waits of crates/aide-dap/src/client.rs, with the end of the
--   reader task; a run is a sequence of such steps.
-- - Scip: the queries of crates/aide-scip/src/lib.rs.
-- - Memory: crates/aide-mcp/src/memory.rs without `list` and `edit`; a directory is a map from file names
--   to texts.
-- - Server: crates/aide-mcp/src/server.rs. ScipCache holds `cached_scip_load` in its four stretches, with
--   the files changing between them; a file gets the time of a clock that may stand still between writes and never
--   goes back.
--   ScipQueries holds the resolution of an index and what edits ask of it, Annotate the symbols of search hits and diagnostics, SafeDelete holds
--   `safe_delete_symbol`, which joins Indexer, Scip and Lsp.
-- - Base: what they share. The children of each module are named for what they prove; the Tests modules
--   apply the theorems to concrete inputs.
--
-- Representation. Texts are lists of code points, byte streams are lists of bytes. Numbers are native
-- naturals: times are never negative, a counter that wraps is written with its modulus, and the signed
-- columns of an index are integers. A hash map is an association list whose order stands for the
-- unspecified order of iteration; theorems that need distinct keys say so. File systems, processes, clocks
-- and libraries are arguments: how a flush goes, what a searcher reports, whether a client lives, what
-- decoding gives. A recursion is structural everywhere but in two places: the printing of a number, whose
-- fuel is the number and one more, which the round trip of a message shows to be enough, and the loop over
-- pages, whose fuel is the limit of items and one more, which is enough by the theorem on it. Requests and
-- their answers are shared between the language server client and the debug adapter client: the module
-- Base/Channels.
--
-- Not modelled: the JSON and protobuf formats, git, the single requests to GitHub, the installation of
-- tools, the parsers of the plugins other than those above, the conversion of answers of language servers,
-- and the other tool handlers. Of the store, the
-- handle by which a change of the configuration sets the number of ready commits to keep is not modelled:
-- it is constant. Of `ensure_document_current`, a notification that
-- cannot be sent is not modelled.
pub mod Base
pub mod Dap
pub mod Exec
pub mod Github
pub mod Indexer
pub mod Jobs
pub mod Lang
pub mod Lsp
pub mod Memory
pub mod Proto
pub mod Scip
pub mod Search
pub mod Server
pub mod Tests
