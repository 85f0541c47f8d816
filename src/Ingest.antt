-- ===== src/Ingest.antt =====
-- internal/server/ingest/service.go: the acceptance of a batch, from the principal to the end of the
-- transaction, with the transaction runner of internal/server/bootstrap/transactions.go.
pub mod Transaction
pub mod Service
