-- ===== src/Storage.antt =====
-- crates/rpglot-core/src/storage: strings, the write-ahead log and chunk files.
pub mod Interner
pub mod External
pub mod Wal
pub mod Chunk
pub mod Hashes
pub mod Flush
pub mod Manager
pub mod Rotate
pub mod Heatmap
