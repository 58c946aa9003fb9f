-- ===== src/Model.antt =====
-- crates/rpglot-core/src/storage/model: the data that a snapshot holds.
pub mod Statements
pub mod Relations
pub mod Activity
pub mod Server
pub mod Log
pub mod Process
pub mod Cgroup
pub mod System
pub mod Snapshot
