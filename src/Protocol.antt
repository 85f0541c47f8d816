-- ===== src/Protocol.antt =====
-- The wire format of internal/protocol/ingestv1/protocol.go.
pub mod Numbers
pub mod Json
pub mod Validator
pub mod Batches
