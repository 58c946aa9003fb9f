-- ===== src/Provider.antt =====
-- crates/rpglot-core/src/provider: what the viewers read snapshots from.
pub mod History
