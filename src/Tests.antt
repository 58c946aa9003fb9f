-- ===== src/Tests.antt =====
-- Runs of the model on small inputs, and the theorems at inputs that meet their hypotheses.
pub mod Codecs
pub mod Floats
mod Wal
mod Chunk
pub mod Flush
mod Manager
mod Timed
mod Rotate
mod Interner
mod Heatmap
mod History
mod Incidents
mod Tailer
mod ProcessIo
mod Normalize
mod Rates
mod Logs
mod TimeParser
