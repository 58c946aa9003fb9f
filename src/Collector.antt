-- ===== src/Collector.antt =====
-- crates/rpglot-core/src/collector: what reads the logs of PostgreSQL.
pub mod Tailer
pub mod Normalize
pub mod Texts
pub mod Parser
pub mod Log
