-- ===== src/Lib.antt =====
-- A verification library for synthgen-core: the storage and language parts of a generator of
-- synthetic tables.
--
-- Parts and files. Paths are from the repository's root.
-- - Common: src/common/. Result is result.h, Types is types.h, Hash is hash.cpp. Double is the
--   operations on doubles that the code uses, as a record; Sample has whole numbers in its place.
-- - Audit: src/storage/audit/. A log of records, each with a hash of its content and a hash that
--   chains it to the record before. AuditLog is the state; a call returns its result and the log
--   after it.
-- - Schema: src/schema/. Schemas are built from the type definitions of the parser, validated, and kept in a registry.
-- - Version: src/storage/version/. The chain of the versions of the models: ModelVersionChain is
--   the state, and create_version adds a version under a new id.
-- - Gc: src/storage/gc/. GcCompactor merges a model's old versions that nothing protects into a new
--   one, which it adds to the chain by create_version. ProtectionChecker holds what is protected.
-- - ModelStorage: src/storage/model/. The layer that keeps the data of the versions in files, with a
--   cache of the ones used last. Its calls take the operations on files of Common.Files, of which
--   FileLaws says what is relied on; Memory is files in memory, for the examples.
-- - Lexer: src/parser/lexer.cpp and token.h. The tokens of a source text.
-- - Parser: src/parser/parser.cpp, parser.h and ast.h. The statements of a source text. Parser.State
--   has the state and the token helpers, Columns, Statements and Run the parse functions; each goes
--   from the parser to an answer (a value, an error or an exception) and the parser after it. The
--   tokens come from Lexer, and Schema builds its schemas from the type definitions.
-- - TimeTravel: src/storage/timetravel/. A query of a version over the chain, which falls back to
--   another version; the storage layer is a parameter with its own state, and Stored
--   takes ModelStorage for it.
-- - Router: src/engine/router/. ConstraintClassifier divides constraints into two phases, and
--   ExecutionRouter chooses from that the path that generates the rows.
-- - ValueRange: src/engine/constraint/value_range_validator.cpp. The items of a constraint as rules on
--   columns, and the check of a batch by them. A batch is an Arrow table, of which the model has what
--   the code reads.
-- - InterRow: src/engine/constraint/inter_row_engine.cpp. The rows of a batch that stand in the right
--   relation to the last row that passed, with the states that go from one batch to the next.
-- - Prelude: lists, texts as lists of bytes, maps as association lists, sorting, integers.
--
-- How the model reads the source.
-- - A std::string is the list of its bytes. A std::map is an association list sorted by key.
-- - Numbers are natural numbers, or integers where the source lets a value be negative; an addition
--   that would overflow a signed integer is not modelled. The counter of generate_version_id wraps
--   at 2 ^ 64 as in the source.
-- - The clocks and the random numbers are arguments of the calls that read them. OpenSSL's SHA256,
--   the operations on doubles and those on files are parameters.
-- - A path is a text, and `join` is the operator / of std::filesystem on POSIX. What is said of the
--   files of ModelStorage is for model names that are file names (without `/` and a zero byte, not
--   empty, `.` or `..`) and for version ids without `/` and a zero byte; with other names two keys of
--   the cache may stand for one file, and the cache may be stale. The disk has no links among the
--   folders of the models, and nothing else writes their files while a call runs. A write of a file is
--   done as one operation, which may stop in the middle of the file; the code between two operations is
--   not interrupted. Where load_model opens a file of which tellg does not tell the size (a directory
--   at the path of a checkpoint), the code throws std::length_error: LoadAnswer has a value for this.
-- - The limit of list_versions is not negative. The counter of generate_version_id is a static of the
--   process, and the model has one chain, with the counter as a field. The times of the records of the
--   audit log are not negative, while the bounds of scan may be. A batch of InterRow has the columns
--   of its schema with a value in every row.
-- - std::sort leaves the order of equal elements open; the model keeps their order.
-- - Loops are structural recursion, except where fuel is named: the walk of has_cycle has a round
--   for each version and one more, the loop of tokenize a round for each character and one more,
--   the loops of the parser a round for each token and one more.
--   The bounds are the ones that the results name.
--
-- Not modelled: locks and threads (each call runs by itself), traces, metrics and explanations,
-- which no result depends on; the HTTP server and the Python bindings; Parquet and object-store
-- files; the metadata in JSON; the aggregate engine; the
-- statistics and the sampling of doubles.
pub mod Prelude
pub mod Common
pub mod Audit
pub mod Schema
pub mod Version
pub mod Gc
pub mod Lexer
pub mod Router
pub mod InterRow
pub mod ValueRange
pub mod ModelStorage
pub mod TimeTravel
pub mod Parser
