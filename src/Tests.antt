-- ===== src/Tests.antt =====
-- The theorems at concrete inputs: a log with a small codec in JSON's place, a limiter, tables, batches on
-- their way, a search with a small codec of cursors, a batch on the wire and a request with a key.
mod Codec
mod Spool
mod Admission
mod Ingest
mod Reliable
mod Cursors
mod Query
mod Protocol
mod Api
