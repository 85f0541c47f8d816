-- ===== src/Lib.antt =====
-- gline collects log lines with agents and takes them in at a server. This library models how a line
-- gets from an agent's disk into the server's tables: the agent's write-ahead log, the dispatcher that
-- delivers it, the server's wire format, access, admission and ingestion, and how the entries are found
-- again, with the domain types that both sides share.
--
-- How the parts interact. An agent commits a batch with a checkpoint to the log
-- (internal/agent/spool/wal.go). The dispatcher (internal/agent/reliable/dispatcher.go) takes the
-- oldest pending batch that is not blocked, sends it through a transport
-- (internal/agent/reliable/transport.go) and acknowledges, postpones or quarantines it in the log by
-- the class of the answer. On the server, the HTTP interface (internal/server/httpapi) finds out who
-- makes a request (internal/server/auth/authenticator.go), and its handler of batches decodes the body
-- and normalizes it to a batch (internal/protocol/ingestv1/protocol.go) before it calls Accept. Errors go
-- back as statuses, which the agent's transport classifies. Accept (internal/server/ingest/service.go) checks the
-- principal (internal/server/auth/principal.go) and the batch (internal/domain/models.go), reserves
-- capacity at the limiter (internal/server/admission/limiter.go), writes the batch, its entries and
-- the usage in one transaction (internal/storage/postgres, internal/server/bootstrap/transactions.go)
-- and settles the reservation. A search (internal/server/query/service.go) builds a query from a
-- request's parameters, reads a page of the entries (internal/storage/postgres/entry.go) and gives a
-- signed cursor for the next one.
--
-- Which file models which part:
--   Base         shared types and lemmas: tests, lists, texts as bytes and their order, maps, results,
--                integers and their decimal texts
--   Domain       internal/domain: Ids (validUUID), Status (statuses and scopes), Models (the types and
--                their Validate, CanIngest, CanQuery, UsableAt, VerifyRetry), Queries (EntryQuery)
--   Spool        internal/agent/spool/wal.go: Model (types and state), Codec (encodeCommit, decodeCommit,
--                validateCheckpoint over an interface for encoding/json), Frame (frameRecord,
--                parseHeader, recordChecksum), Index (the maps: applyCommit, applyQuarantine,
--                removeActive, applyRecovered), Recover (recover), File (appendRecord,
--                rollbackAppend), Compact (compactLocked), Operations (Open and the methods),
--                Durability (their proofs, and Histories of calls and crashes) and Accounting
--   Admission    internal/server/admission/limiter.go: Bucket (tokenBucket), Limiter (New, AllowIngest,
--                cleanupLocked, Commit, Release, finish)
--   Auth         internal/server/auth/principal.go, and Keys for authenticator.go (ParseKey,
--                Authenticate)
--   Storage      internal/storage/postgres: the statements that ingestion runs, on tables as lists, and
--                Entries for entry.go (List, buildEntryQuery)
--   Ingest       internal/server/ingest/service.go: Transaction (the callback of Accept and its
--                runner), Service (Accept)
--   Protocol     internal/protocol/ingestv1/protocol.go: Validator (validator, Limits), Numbers
--                (canonicalNumber), Json (canonicalJSON), Batches (Decode, Normalize, CanonicalPayload)
--   Query        internal/server/query/service.go: Cursor (CursorCodec), Service (Search, buildQuery,
--                normalizeFilter), Filters (a proof), Slots (internal/server/bootstrap/limiter.go)
--   Api          internal/server/httpapi: Errors (mapError, writeError), Access (authenticate,
--                projectPrincipal, queryProjectPrincipal), Batches (ingestBatch)
--   Reliable     internal/agent/reliable: Transport (the classes of answers), Dispatcher (Backoff,
--                nextPending and a round of Run), Control (PipelineState)
--   Tests        the theorems at concrete inputs
--
-- State and effects. Each method that holds a mutex is one function from state to state. What the
-- outside does in a call (the file system, the database, the transport, clocks, a context that is
-- done) is an argument of the function, so a theorem speaks of every way in which it can fail. Errors
-- are values of data types. An instant is its distance from Go's zero time in nanoseconds.
--
-- Bounds and fuel. Recovery runs on fuel of one more than the length of the file; a round consumes at
-- least a header of 16 bytes, and a theorem below says that the fuel is enough for a log's file. Numbers
-- are unbounded where the source's int64 counts bytes, entries or nanoseconds; the 32-bit fields of a
-- record's header are written out. The limiter's tokens are float64 in the source and exact here, in units of
-- 1/(60*10^9) of a token: the rounding of refills and waits is not modelled, and no theorem below is about
-- the amount that a bucket gains or the length of a wait that a rejection names. Durations of the
-- Retry-After header do not wrap at 2^63 nanoseconds. Identifiers are compared as they are
-- written, where the database ignores the case of letters, and instants in nanoseconds, where it
-- keeps microseconds: the tables are those of the source for identifiers in lower case and instants of
-- whole microseconds.
--
-- Parameters. encoding/json is a record of functions with the round trips that its documentation
-- promises for text that is valid UTF-8, and for cursors also with the most bytes that it writes. The transport's decoders, the parsing of the Retry-After
-- header's number and date, and the product of a delay with a random factor are arguments. So are, on
-- the server, the decoder of requests, the quoting of JSON texts, sha256 and HMAC, base64, upper and lower
-- case, the format of times, the matching of ILIKE and the repository of keys; where a theorem relies on
-- what they document, a record of laws says so.
--
-- Not modelled: metrics, logging and deep copies (values here are not shared); files that cannot be
-- read at opening; recoverReplacement and the directory entries around a compaction, of which only
-- whether the swap happened is kept; transactions that interleave; the record of when a key was last
-- used; of the HTTP interface the other handlers, CORS, request identifiers, and the messages and details
-- of errors; and the components that are glue, configuration or I/O: the control, operations and
-- maintenance services, the agent's sources,
-- parsers, senders and supervision, the migrations and the commands.
pub mod Base
pub mod Domain
pub mod Spool
pub mod Admission
pub mod Auth
pub mod Storage
pub mod Ingest
pub mod Protocol
pub mod Query
pub mod Api
pub mod Reliable
pub mod Tests
