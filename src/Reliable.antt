-- ===== src/Reliable.antt =====
-- internal/agent/reliable: the delivery of what the spool holds, and the control of pipelines.
pub mod Transport
pub mod Dispatcher
pub mod Control
