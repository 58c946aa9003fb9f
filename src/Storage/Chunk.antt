-- ===== src/Storage/Chunk.antt =====
-- crates/rpglot-core/src/storage/chunk.rs: the chunk file. A file is its bytes. What a write leaves
-- behind is the content of the renamed file, and an error is what `?` returns.
pub mod Write
pub mod Read
pub mod Layout
pub mod Stored
pub mod Opened
pub mod Parts
pub mod RoundTrip
pub mod Loaded
