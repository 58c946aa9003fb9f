-- ===== src/Collector/Log/Collector.antt =====
-- collector/log_collector/mod.rs: LogCollector with its tailer, its settings and its timers. What the server
-- answers, the paths of the standard library and the clock, in nanoseconds, are parameters. A result `none`
-- is a panic.
use rpglot.Prelude.{
  ℕ, ◌-◌, ◌/◌, ◌^◌, Bool, false, Option, none, some, String, List, [], map, leb, if◌then◌else◌,
}
use rpglot.Prelude.Bytes.{Bytes}
use rpglot.Prelude.Result.{Result, ok, err}
use rpglot.Prelude.Text.{codes, same_text}
use rpglot.Storage.Interner.{StringInterner}
use rpglot.Collector.Tailer.{Files, FileTailer, IoError, new_tailer, read_new_lines, switch_file}
use rpglot.Collector.Texts.{contains, map_option, unwrap_or}
use rpglot.Collector.Log.{LogFormat, stderr, csvlog, Pending, Runtime, nothing_pending}
use rpglot.Collector.Log.Collect.{Collected, LogCollectResult, collect_lines}

abbrev pub log_rotation_check_secs : ℕ
log_rotation_check_secs = 60

abbrev pub settings_refresh_secs : ℕ
settings_refresh_secs = 600

pub data LocateError : Type 0 where
  no_result : LocateError
  switch_failed open_failed : IoError → LocateError

-- Which of the two parsers there is goes by the format.
pub record LogCollector : Type 0 where
  pub tailer : Option FileTailer
  pub log_format : Option LogFormat
  pub data_directory : Option String
  pub log_directory : Option String
  pub log_line_prefix : Option String
  pub settings_last_check : Option ℕ
  pub rotation_last_check : Option ℕ
  pub pending : Pending
  pub last_error : Option LocateError

abbrev pub new_collector : LogCollector
new_collector = record {
  tailer = none;
  log_format = none;
  data_directory = none;
  log_directory = none;
  log_line_prefix = none;
  settings_last_check = none;
  rotation_last_check = none;
  pending = nothing_pending;
  last_error = none;
}

-- `show` is the value of `SHOW name`, `current_logfile` that of `pg_current_logfile('format')`.
pub record Server : Type 0 where
  pub show : String → Option String
  pub current_logfile : String → Option String
  pub is_absolute : String → Bool
  pub join : String → String → String
  pub from_utf8 : Bytes → Option String

abbrev format_arg : Option LogFormat → String
format_arg (some csvlog) = "csvlog"
format_arg (some stderr) = "stderr"
format_arg none = "stderr"

abbrev unless_blank : Option String → Option String
unless_blank none = none
unless_blank (some path) = if same_text path "" then none else some path

unfoldable pub query_current_logfile : Server → Option LogFormat → Option String
query_current_logfile server format = unless_blank (server.current_logfile (format_arg format))

-- A relative path is one in the data directory, where that is known.
unfoldable pub full_path_of : Server → Option String → String → String
full_path_of server none path = path
full_path_of server (some directory) path =
    if server.is_absolute path then path else server.join directory path

unfoldable pub switched : LogCollector → Result IoError FileTailer → Result LocateError LogCollector
switched c (ok tailer) = ok (record c { tailer = some tailer })
switched c (err e) = err (switch_failed e)

unfoldable pub opened : LogCollector → Result IoError FileTailer → Result LocateError LogCollector
opened c (ok tailer) = ok (record c { tailer = some tailer })
opened c (err e) = err (open_failed e)

unfoldable pub locate_at :
    Server → Files → Option FileTailer → String → LogCollector → Result LocateError LogCollector
unfolding switched opened switch_file new_tailer
locate_at server files none full_path c = opened c (new_tailer files full_path)
locate_at server files (some tailer) full_path c =
    if same_text tailer.path full_path
    then ok c
    else switched c (switch_file server.from_utf8 files full_path tailer)

-- The collector is changed only where this succeeds.
unfoldable pub locate_log_file : Server → Files → LogCollector → Result LocateError LogCollector
unfolding query_current_logfile full_path_of locate_at
locate_log_file server files c = elim (query_current_logfile server c.log_format) [
  | none ↦ err no_result
  | some path ↦ locate_at server files c.tailer (full_path_of server c.data_directory path) c
]

unfoldable pub format_of : Option String → LogFormat
unfolding contains
format_of destination =
    if contains (codes "csvlog") (codes (unwrap_or destination "stderr")) then csvlog else stderr

unfoldable pub located : LogCollector → Result LocateError LogCollector → LogCollector
located c (ok found) = found
located c (err e) = record c { last_error = some e }

unfoldable pub init : Server → Files → ℕ → LogCollector → LogCollector
unfolding locate_log_file format_of located
init server files now c =
    let set = record c {
      last_error = none;
      data_directory = server.show "data_directory";
      log_directory = server.show "log_directory";
      log_line_prefix = server.show "log_line_prefix";
      settings_last_check = some now;
      log_format = some (format_of (server.show "log_destination"));
    } in
    record (located set (locate_log_file server files set)) { rotation_last_check = some now }

-- `last.elapsed().as_secs() >= secs`
abbrev pub is_due : ℕ → ℕ → Option ℕ → Bool
is_due secs now none = false
is_due secs now (some last) = leb secs ((now - last) / 10 ^ 9)

-- The error of a check is dropped.
unfoldable pub checked : LogCollector → Result LocateError LogCollector → LogCollector
checked c (ok found) = found
checked c (err e) = c

unfoldable pub check_rotation : Server → Files → ℕ → LogCollector → LogCollector
unfolding locate_log_file checked
check_rotation server files now c =
    if is_due log_rotation_check_secs now c.rotation_last_check
    then record (checked c (locate_log_file server files c)) { rotation_last_check = some now }
    else c

unfoldable pub refresh_settings : Server → Files → ℕ → LogCollector → LogCollector
unfolding init
refresh_settings server files now c =
    if is_due settings_refresh_secs now c.settings_last_check then init server files now c else c

abbrev nothing_new : LogCollectResult
nothing_new = record {
  errors = [];
  checkpoint_count = 0;
  autovacuum_count = 0;
  slow_query_count = 0;
  events = [];
}

abbrev pub CollectorRun : Type 0
CollectorRun = LogCollectResult × StringInterner × LogCollector

abbrev with_collector : LogCollector → Collected → CollectorRun
with_collector c (result, interner, pending) = (result, interner, record c { pending = pending })

unfoldable pub collect_read :
    Runtime
    → LogCollector
    → FileTailer × Result IoError (List String)
    → StringInterner
    → Option CollectorRun
unfolding collect_lines
collect_read runtime c (tailer, err e) interner =
    some (nothing_new, interner, record c { tailer = some tailer })
collect_read runtime c (tailer, ok lines) interner =
    map_option (with_collector (record c { tailer = some tailer }))
      (collect_lines runtime c.log_format (map (λ line. codes line) lines) c.pending interner)

unfoldable pub collect_from :
    Runtime
    → Server
    → Files
    → LogCollector
    → Option FileTailer
    → StringInterner
    → Option CollectorRun
unfolding collect_read read_new_lines
collect_from runtime server files c none interner = some (nothing_new, interner, c)
collect_from runtime server files c (some tailer) interner =
    collect_read runtime c (read_new_lines server.from_utf8 files tailer) interner

unfoldable pub collect :
    Runtime → Server → Files → ℕ → LogCollector → StringInterner → Option CollectorRun
unfolding check_rotation refresh_settings collect_from
collect runtime server files now c interner =
    let ready = refresh_settings server files now (check_rotation server files now c) in
    collect_from runtime server files ready ready.tailer interner
