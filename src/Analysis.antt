-- ===== src/Analysis.antt =====
-- crates/rpglot-core/src/analysis: the health score, anomalies and incidents. A `u64` sum wraps, as it
-- does in a release build.
pub mod Blocks
pub mod Sample
pub mod Health
pub mod Incidents
pub mod Correlate
