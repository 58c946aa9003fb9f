-- ===== src/Lib.antt =====
-- A verification library for rpglot, the collector of system and PostgreSQL metrics. A daemon
-- takes a snapshot of the machine every few seconds and hands it to the storage, which appends it
-- to a write-ahead log and, once an hour or at a size limit, packs the log into a compressed chunk
-- file. Beside a chunk is a heatmap, a small entry for each snapshot with a health score. The
-- viewers read chunks and the log back through a history provider, which has an index of both and
-- a cursor. The library models the data that is stored, the storage, the heatmap, the history
-- provider, of the analysis the health score and the incidents with their groups, the rates of
-- statements, plans, tables and indexes, and the log collector.
--
-- The parts and their files:
--
-- Model: the snapshot and its blocks, crates/rpglot-core/src/storage/model: one file of this
--   library for each file there, one record for each struct, one data type for each enum, with
--   the source's fields in their order. An unsigned integer is a natural number, a signed one an
--   integer, a float is its bits.
-- Storage/Interner: crates/rpglot-core/src/storage/interner.rs, the strings by their hashes;
--   each method is a function of its name. Interner/Laws says what a hash resolves to after
--   each.
-- Storage/Wal: the write-ahead log of crates/rpglot-core/src/storage/manager.rs.
--   write_wal_frame appends a frame (length, checksum, payload); read_wal_frame_validated reads
--   one; load_wal_snapshots_with_interner, scan_wal_metadata and load_wal_snapshot_at are the
--   readers; recover_from_wal runs when the daemon starts and cuts the file behind the last
--   frame that is whole. The file is the list of its bytes, which the functions take and return.
--   Wal/Frame is about one frame, Wal/Walk about the walk over the frames of a file, Wal/Written
--   about a file that was written entry by entry, Wal/Access about the readers, Wal/Recovery
--   about recover_from_wal.
-- Storage/Chunk: crates/rpglot-core/src/storage/chunk.rs. Chunk/Write has write_chunk_inner
--   and its callers, Chunk/Read has read_chunk_metadata and ChunkReader. Chunk/Layout is about
--   the bytes of the header and the index, Chunk/Stored about the frames behind them,
--   Chunk/Opened about a file that was put together by the writer, Chunk/Parts about what a
--   write leaves, Chunk/RoundTrip about reading it.
-- Storage/Hashes, Storage/Flush and Storage/Manager: the storage manager, the rest of
--   crates/rpglot-core/src/storage/manager.rs. Hashes has collect_snapshot_hashes; Flush has the
--   two passes of flush_chunk_with_time, from the log to the bytes of the chunk; Manager has its
--   state (the chunks by name, the log, its count, the current hour), flush_chunk_with_time and
--   add_snapshot_at. A date is a number of days. Flush/Scan is about the first pass, Flush/Kept
--   about what the chunk has of the log, Manager/Steps about a flush as a step of the manager,
--   Manager/Added and Manager/Conserved about add_snapshot_at. Which calls fail during a flush,
--   and the time, are a record, Machine; which calls of write_wal_frame fail is another,
--   AppendFaults of Storage/Wal. Rotate has rotate, over the files that read_dir and
--   parse_date_from_filename give, and Rotate/Bounds is about what it leaves.
--
-- Storage/Heatmap: crates/rpglot-core/src/storage/heatmap.rs. The file itself has the counts
--   and the shares, Codec the sidecar file, Build build_heatmap_from_snapshots and
--   build_heatmap_streaming, Buckets bucket_heatmap. Counts is about the ranges of an entry,
--   Flushed about the heatmap of a chunk that a flush made, Buckets/Cover about what a bucket
--   shows.
-- Analysis: crates/rpglot-core/src/analysis/mod.rs. Blocks has find_block and what reads a
--   block, Sample has PrevSample::extract, Health has compute_health_score, and Health/Bounds is
--   about its range. Incidents has merge_anomalies, with Incidents/Merged about the counts and
--   Incidents/Ordered about the times; Correlate has correlate_incidents and flush_group, with
--   Correlate/Grouped about the incidents of the groups and Correlate/Spans about what a group
--   says of them.
-- Provider/History: crates/rpglot-core/src/provider/history.rs. The file itself has the state,
--   build_index, ensure_initialized and resolve_position; Load has load_from_chunk and
--   load_into_buffer, Navigate the cursor and the jumps, Refresh has refresh. A directory is a
--   list of files with their bytes, which an operation takes. Index is about the places that
--   positions resolve to, Offsets about an index that was built, Sorted about the timestamps,
--   Cursor about the steps, Timed about the jumps to a time, Walk about many steps, Refreshed
--   about refresh.
--
-- Util/ProcessIo: crates/rpglot-core/src/util/process_io.rs. Util/TimeParser: time_parser.rs
--   of the same folder. Collector/Tailer:
--   crates/rpglot-core/src/collector/log_collector/tailer.rs, with what BufReader and lines do
--   written out; Tailer/Lines is about one read, Tailer/Growth about a file that grows in steps.
--   Collector/Texts: what the log collector calls of str, on lists of code points.
--   Collector/Normalize: crates/rpglot-core/src/collector/log_collector/normalize.rs; the file
--   itself has the replacement of quotes, delimiters and numbers, Normalize/Patterns the rest of
--   normalize_error, Normalize/Classify classify_error; Normalize/Quotes and Normalize/Fuel are
--   about them. Collector/Parser: parser.rs of the same folder, with Parser/Messages for
--   classify_log_message, Parser/Lines for StderrParser and Parser/Csv for CsvlogParser.
--   Collector/Log: mod.rs of the same folder; the file itself has the state, Log/Slow
--   flush_pending_slow_query, Log/Accumulate accumulate, Log/Events the detailed events,
--   Log/Drain drain_pending, Log/Collect the loop of collect and what it gives out,
--   Log/Collector init, locate_log_file and collect with its timers. Log/Counts and Log/Counted
--   are about one line and many lines, Log/Room about the groups of slow queries, Log/Drained
--   about drain_pending, Log/Conserved about collect, Log/Bounds about limits.
--
-- Rates: crates/rpglot-core/src/rates.rs. Rates/Rows has the rates of one row, Rates/Update
--   the four update functions: update_pgs_rates and update_pgp_rates are update_merged,
--   update_pgt_rates and update_pgi_rates are update_replaced, with a record for what differs.
--   Rates/Merged and Rates/Replaced are about one update, Rates/Stale about two, Rates/Replay
--   about many.
--
-- Storage/External: what the storage calls and the repository does not hold, as parameters:
--   the serializer (postcard), the checksum (crc32fast) and the compressor (zstd). Of each the
--   documented behaviour is a field of its record: what was serialized parses back, what was
--   compressed decompresses with the same dictionary into a buffer that is large enough, a
--   checksum is below 2 ^ 32. Hashing by xxh3_64 is a function argument.
-- Prelude: numbers and their bytes, lists, maps, text, a stable sort, results. Prelude/Float
--   has the operations on f64 as a parameter, with the ranges of casts as its laws. Tests:
--   codecs, and whole numbers in the place of floats, that are instances of the parameters, and
--   the results at concrete inputs.
--
-- How they interact: a log entry is a snapshot with the interner of its strings; loading the log
-- merges the interners of its entries with Interner.merge. A chunk holds the snapshots, which the
-- writer takes one by one from a closure, and one interner for all.
--
-- Bounds and fuel: the loops of the log run on fuel, one more than the length of the file. A round
-- that goes on has read a frame of 8 bytes or more, so that the fuel is enough for every file.
-- Machine integers keep their wrap-around: the length of a payload is taken modulo 2 ^ 32 as the
-- cast to u32 does, sums of two offsets of a chunk modulo 2 ^ 64. The largest frame that is read
-- has 256 MiB. A slice whose end is before its start is the error `panicked`. In the log collector
-- a result `none` is a panic. The loop of replace_wal_address runs on as much fuel as there are
-- bytes, and a round takes a byte at least.
--
-- Not modelled: I/O other than as the bytes of a file, with the faults of recover_from_wal as a
-- record of flags; the removal of the obsolete strings.bin; when a flush writes the heatmap beside
-- a chunk; loading all chunks; the parsing of file names; load_heatmap_range of the history
-- provider and the live provider; the rules and the advisor of the analysis; of the log collector
-- the queries to the server, whose answers are parameters; the other collectors, the terminal and
-- web front ends. The difference of two counters wraps as in a release build.
pub mod Prelude
pub mod Model
pub mod Storage
pub mod Analysis
pub mod Provider
pub mod Util
pub mod Collector
pub mod Rates
pub mod Tests
