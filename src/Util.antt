-- ===== src/Util.antt =====
-- crates/rpglot-core/src/util
pub mod ProcessIo
pub mod TimeParser
