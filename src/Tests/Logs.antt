-- ===== src/Tests/Logs.antt =====
-- Two lines of a log, and an error message in Russian that is too long.
use mathlib.Core.List.Perm
use rpglot.Prelude.{
  ◌+◌, ◌≤◌, ◌≡◌, refl, arith, true, false, none, some, List, [], ◌∷◌, ◌++◌, length, replicate,
}
use rpglot.Prelude.Sort.{insert_by}
use rpglot.Prelude.Text.{codes}
use rpglot.Model.Log.{error, other}
use rpglot.Storage.Interner.{StringInterner, intern}
use rpglot.Collector.Texts.{Chars, encode_utf8, len, len_utf8}
use rpglot.Collector.Normalize.{delimited_loop, find, quoted_loop, replace_word}
use rpglot.Collector.Parser.Csv.{split_csv_line, split-write_line, write_line}
use rpglot.Collector.Parser.Lines.{failed_with}
use rpglot.Collector.Log.{Pending, Runtime, stderr, nothing_pending}
use rpglot.Collector.Log.Accumulate.{accumulate}
use rpglot.Collector.Log.Bounds.{split_character_panics, take_all_room}
use rpglot.Collector.Log.Collect.{Collected, collect_lines, take_all}
use rpglot.Collector.Log.Conserved.{collect_conserves, held_once}
use rpglot.Collector.Log.Counts.{error_total}
use rpglot.Collector.Log.Counted.{failures}
use rpglot.Collector.Log.Drained.{reported}
use rpglot.Tests.Floats.{whole_numbers}

-- No number is read, no letter changes its case, and every text has the hash 1.
abbrev runtime : Runtime
runtime = record {
  ops = whole_numbers;
  parse_f64 = λ text. none;
  to_lowercase = λ text. text;
  xxh3_64 = λ text. 1;
  error_order = λ m. m;
  slow_order = λ m. m;
  error_order-Perm = λ m. Perm.rfl;
  slow_order-Perm = λ m. Perm.rfl;
}

abbrev lines : List Chars
lines = codes "ERROR:  boom" ∷ codes "DETAIL:  none" ∷ []

abbrev empty_interner : StringInterner
empty_interner = record { strings = [] }

abbrev held : Pending
held = record nothing_pending {
  pending_errors =
      ((codes "boom", error), record { count = 1; sample = codes "boom"; statement = [] }) ∷ [];
  last_error_key = some (codes "boom", error);
  error_held_back = true;
}

abbrev nothing_out : Collected
nothing_out = (
  record {
    errors = [];
    checkpoint_count = 0;
    autovacuum_count = 0;
    slow_query_count = 0;
    events = [];
  },
  empty_interner,
  held,
)

collected :
    collect_lines runtime (some stderr) lines nothing_pending empty_interner ≡ some nothing_out
unfolding collect_lines replace_word find delimited_loop quoted_loop encode_utf8
collected = refl

one_failure : failures runtime (some stderr) lines ≡ 1
unfolding failures
one_failure = refl

no_failure : failures runtime (some stderr) [] ≡ 0
unfolding failures
no_failure = refl

nothing_counted : error_total nothing_pending.pending_errors ≡ 0
unfolding error_total
nothing_counted = refl

one_counted : error_total held.pending_errors ≡ 1
unfolding error_total
one_counted = refl

abbrev given_out : Collected
given_out = (
  record {
    errors =
        record {
          pattern_hash = 1;
          severity = error;
          count = 1;
          sample_hash = 1;
          statement_hash = 0;
          category = other;
        }
        ∷ [];
    checkpoint_count = 0;
    autovacuum_count = 0;
    slow_query_count = 0;
    events = [];
  },
  record { strings = (1, "boom") ∷ [] },
  record nothing_pending { last_error_key = some (codes "boom", error) },
)

collected_again : collect_lines runtime (some stderr) [] held empty_interner ≡ some given_out
unfolding collect_lines intern insert_by
collected_again = refl

taken :
    take_all runtime (some stderr) lines nothing_pending
    ≡ some (record held { error_held_back = false })
unfolding take_all replace_word find delimited_loop quoted_loop encode_utf8
taken = refl

collect_conserves_example :
    (reported [] + error_total held.pending_errors
      ≡ error_total nothing_pending.pending_errors + failures runtime (some stderr) lines)
    × (0 ≤ 32)
    × (1 ≤ 1)
collect_conserves_example =
    collect_conserves runtime (some stderr) lines nothing_pending empty_interner
      (record held { error_held_back = false }) nothing_out
      (omega (arith, one_failure, nothing_counted)) taken (omega arith) collected

held_once_example : given_out.2.pending_errors ≡ []
held_once_example =
    held_once runtime (some stderr) lines [] nothing_pending empty_interner nothing_out given_out
      (omega (arith, one_failure, nothing_counted)) (omega (arith, one_counted)) no_failure
      collected collected_again

take_all_room_example : length held.slow_queries ≤ 16
take_all_room_example =
    take_all_room runtime nothing_pending (record held { error_held_back = false }) (some stderr)
      lines (omega (arith, one_failure, nothing_counted)) (omega arith) taken

split_character_panics_example :
    accumulate runtime
      (failed_with error (replicate 255 b'a' ++ 1073 ∷ codes " done"))
      nothing_pending
    ≡ none
unfolding len len_utf8
split_character_panics_example =
    split_character_panics runtime error (replicate 255 b'a') 1073 (codes " done") (omega arith)
      (omega arith)

split-write_line_example :
    split_csv_line (write_line (codes "ERROR") (codes "say \"no\", twice" ∷ []))
    ≡ codes "ERROR" ∷ codes "say \"no\", twice" ∷ []
split-write_line_example = split-write_line (codes "ERROR") (codes "say \"no\", twice" ∷ [])
