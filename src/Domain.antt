-- ===== src/Domain.antt =====
-- internal/domain: identifiers, statuses and the values that the server's services exchange.
pub mod Ids
pub mod Status
pub mod Models
pub mod Queries
