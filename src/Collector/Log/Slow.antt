-- ===== src/Collector/Log/Slow.antt =====
-- collector/log_collector/mod.rs: flush_pending_slow_query. A result `none` is a panic.
use rpglot.Prelude.{ℕ, ◌+◌, ◌-◌, ◌^◌, Option, none, some, [], ◌∷◌, length, ltb, if◌then◌else◌}
use rpglot.Prelude.Float.{F64, FloatOps, of_nat}
use rpglot.Collector.Texts.{Chars, same_chars, map_option}
use rpglot.Collector.Normalize.Patterns.{normalize_error}
use rpglot.Collector.Log.{
  Pending, PendingSlowQuery, GroupedSlowQuery, SlowQueries, Runtime, dict_get, dict_set,
  dict_remove, max_slow_queries_per_snapshot,
}

-- `saturating_add(1)` of a `u16`
abbrev pub one_more_u16 : ℕ → ℕ
one_more_u16 n = if ltb n (2 ^ 16 - 1) then n + 1 else n

unfoldable pub min_by_elapsed :
    FloatOps → Chars × GroupedSlowQuery → SlowQueries → Chars × GroupedSlowQuery
min_by_elapsed ops least [] = least
min_by_elapsed ops least (entry ∷ entries) =
    min_by_elapsed ops (if ops.lt entry.1.max_elapsed_s least.1.max_elapsed_s then entry else least)
      entries

abbrev pub group_of : Chars → F64 → GroupedSlowQuery
group_of sql duration_s = record { sample_sql = sql; max_elapsed_s = duration_s; count = 1 }

-- No room: the least of the groups gives way to a longer query.
unfoldable pub evict_least :
    FloatOps → SlowQueries → Chars → Chars → F64 → SlowQueries → SlowQueries
unfolding min_by_elapsed dict_remove dict_set same_chars
evict_least ops [] normalized sql duration_s groups = groups
evict_least ops (entry ∷ entries) normalized sql duration_s groups =
    let least = min_by_elapsed ops entry entries in
    if ops.lt least.1.max_elapsed_s duration_s
    then dict_set same_chars normalized (group_of sql duration_s)
        (dict_remove same_chars least.0 groups)
    else groups

unfoldable pub longest_of : FloatOps → GroupedSlowQuery → Chars → F64 → GroupedSlowQuery
longest_of ops group sql duration_s =
    if ops.lt group.max_elapsed_s duration_s
    then record { sample_sql = sql; max_elapsed_s = duration_s; count = one_more_u16 group.count }
    else record group { count = one_more_u16 group.count }

module _ (runtime : Runtime) where
  -- The group of the pattern, where there is one, and the groups.
  unfoldable pub add_to : Option GroupedSlowQuery → Chars → Chars → F64 → SlowQueries → SlowQueries
  unfolding dict_set same_chars evict_least longest_of
  add_to (some group) normalized sql duration_s groups =
      dict_set same_chars normalized (longest_of runtime.ops group sql duration_s) groups
  add_to none normalized sql duration_s groups =
      if ltb (length groups) max_slow_queries_per_snapshot
      then dict_set same_chars normalized (group_of sql duration_s) groups
      else evict_least runtime.ops (runtime.slow_order groups) normalized sql duration_s groups

  unfoldable pub add_slow : Chars → Chars → F64 → SlowQueries → SlowQueries
  unfolding dict_get same_chars add_to
  add_slow normalized sql duration_s groups =
      add_to (dict_get same_chars normalized groups) normalized sql duration_s groups

  abbrev pub flushed : Pending → PendingSlowQuery → Chars → Pending
  flushed p query normalized = record p {
    pending_slow_query = none;
    slow_query_count = one_more_u16 p.slow_query_count;
    slow_queries =
        add_slow normalized query.sql (runtime.ops.div query.duration_ms (of_nat runtime.ops 1000))
          p.slow_queries;
  }

  unfoldable pub flush_query : Option PendingSlowQuery → Pending → Option Pending
  unfolding normalize_error add_slow
  flush_query none p = some p
  flush_query (some query) p =
      map_option (flushed p query) (normalize_error runtime.to_lowercase query.sql)

  unfoldable pub flush_pending_slow_query : Pending → Option Pending
  unfolding flush_query
  flush_pending_slow_query p = flush_query p.pending_slow_query p
