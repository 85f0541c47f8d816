-- ===== src/Api.antt =====
-- The HTTP interface, internal/server/httpapi: who may do what, what an error is answered with, and the
-- handler that takes batches.
pub mod Errors
pub mod Access
pub mod Batches
