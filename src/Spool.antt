-- ===== src/Spool.antt =====
-- internal/agent/spool/wal.go: the write-ahead log of the agent. The children define it; their
-- proof modules stand below them.
pub mod Model
pub mod Codec
pub mod Frame
pub mod Index
pub mod Recover
pub mod File
pub mod Compact
pub mod Operations
pub mod Durability
pub mod Accounting
