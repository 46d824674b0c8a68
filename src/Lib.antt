-- ===== src/Lib.antt =====
-- Verification of TimeLakeDB, a time-series database over an object store.
--
-- A write is parsed into lines, logged in a write-ahead log, kept in a buffer of its table, and flushed
-- to a file in the object store. A catalog of append-only manifest entries says which files make up a
-- table; nodes agree on it by conditional puts of numbered objects. A query reads the files and the
-- buffers, and shows a row to those whose authorizations satisfy its visibility label.
--
-- What the files model, by the paths of the repository:
--   * Base: helpers. Strings are their UTF-8 bytes, i64 values integers over the native numbers, hash
--     maps association lists whose order nothing depends on.
--   * Store (crates/store/src/lib.rs, LocalStore): `get`, `put_if_absent` and `list` on a directory of
--     objects. The disk does not fail; the temporary file of a put is not visible.
--   * Catalog (crates/catalog/src/lib.rs): Entry has the entries and their application, `apply_entry`,
--     and the fence `first_absent`; Manifest reads an entry from its bytes, a codec of a third-party
--     library being a parameter; Commit has `load`, `catch_up` and `commit_guarded`, with its callers;
--     Queries has the reads of the folded state. Other nodes act between the steps of a commit: a
--     `Rivals` list gives, for each round, what they land before the put and before the catch-up. A
--     commit makes at most 100 attempts, as the code does. Entries are numbered below 10^12, the width
--     of a manifest's key.
--   * Visibility (crates/query/src/visibility.rs): `evaluate` and `is_visible`, the parser's position
--     being the input that is left. Fuel is twice the label's length and two,
--     since every second call at least reads a byte.
--   * Wal (crates/wal/src/lib.rs): Frame has the frames' bytes; Replay the replay of one generation's
--     file, with fuel of one more than its bytes; Log the log and its directory (`Wal::open`, `append`,
--     `rotate`, `delete_generations_upto`, `size`). AES-256-GCM and the store's key are parameters:
--     what was encrypted decrypts to itself. A file is known by its generation's number.
--   * Buffer (crates/buffer/src/lib.rs): Columns has the columns, Table the append of a line to a table's
--     buffer and the schema. A float is its bits or the conversion it comes from.
--     Flush has the module `flush`: `prepare_ordered` gives the hours with the indices of the rows that they
--     keep, which are `u32`s; the keys that the third-party row converter makes are a parameter.
--   * Compaction (crates/server/src/compaction.rs): Trigger has `trigger_for` and `has_overlap`, Owner the
--     hash that shares partitions and rollups out to compactors.
--   * Ratelimit (crates/server/src/ratelimit.rs): `ClientLimiter::admit` and the drop of its guards.
--   * Audit (crates/audit/src/lib.rs): Record has the records and `verify_records`, Date the times,
--     Segments the files, Sink `AuditSink` with rotation, retention and recovery, Log `AuditLog`. A record's
--     JSON and SHA-256 are parameters. A rotated segment is known by the number in its name, below 10^12.
--     A `Fault` says which step on the disk fails; the clock stands during a call.
--   * Auth (crates/auth/src): Base64 and Header read a credential (token.rs), Token has the records and
--     their index (token.rs), Guard `decide` (guard.rs), Tokens the tokens of `Auth` and the file that the
--     nodes share (lib.rs). SHA-256, the JSON of records, the hash of bytes and the random bytes are
--     parameters. Sessions has the logins, the sessions and the change of a password, Argon2 being a
--     parameter and the random strings arguments.
--   * Ingest (crates/ingest/src/lib.rs): Scan reads names and their escapes, Value a field's value, Parse
--     has `parse_line` and `parse_lines`, the position being the input that is left, Print `to_line_protocol`.
--     The parsing and the printing of a float are parameters. The loops have fuel of one more than the
--     line's bytes.
--   * Router (crates/server/src/router.rs): Shards has the split of a body, `line_measurement` and `shard_of`,
--     Write the write handler, Queries the targets and the handler of a query. What an ingester or a querier
--     answers is a parameter, and so is gzip.
--   * Keys (crates/store/src/kms_cache.rs): the cache of data keys, `CachingKms`, ahead of a key management
--     service that is a parameter. Instants are nanoseconds.
--
-- Not modelled: failures of the disk and of the store's backends but in the audit trail and the tokens'
-- and principals' files, the texts of errors, the Arrow and Parquet encodings, the query engine and the
-- servers, which are glue over third-party libraries, the cache of last values, which is one over a
-- third-party map, and the settings that a node reads from its environment (crates/config, crates/cluster).
pub mod Base
pub mod Store
pub mod Catalog
pub mod Visibility
pub mod Wal
pub mod Buffer
pub mod Compaction
pub mod Ratelimit
pub mod Audit
pub mod Auth
pub mod Ingest
pub mod Router
pub mod Keys
