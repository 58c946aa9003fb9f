-- ===== src/Collector/Log/Room.antt =====
-- collector/log_collector/mod.rs: flush_pending_slow_query keeps no more groups than there is room for.
use rpglot.Prelude.{
  ◌≤◌, Bool, true, false, Option, none, some, [], ◌∷◌, ◌≡◌, refl, arith, length, if◌then◌else◌,
}
use rpglot.Prelude.Float.{F64, FloatOps}
use rpglot.Prelude.Sort.{sum_of}
use rpglot.Prelude.Sums.{sum_of-Perm}
use rpglot.Collector.Texts.{Chars, same_chars, same_chars_refl}
use rpglot.Collector.Log.{GroupedSlowQuery, SlowQueries, Runtime, dict_get, dict_remove}
use rpglot.Collector.Log.Slow.{add_slow, add_to, evict_least, group_of, longest_of, min_by_elapsed}
use rpglot.Collector.Log.Dicts.{
  entries_at, length-dict_set, length-dict_set_known, length-dict_remove,
}

picked_in :
    (first : Bool) (k : Chars) (entry least : Chars × GroupedSlowQuery) (entries : SlowQueries)
    → 1 ≤ entries_at same_chars k ((if first then entry else least) ∷ entries)
    → 1 ≤ entries_at same_chars k (least ∷ entry ∷ entries)
unfolding entries_at sum_of
picked_in true k entry least entries h = omega arith
picked_in false k entry least entries h = omega arith

-- A key is at its own entry.
entries_at-cons :
    (entry : Chars × GroupedSlowQuery) (entries : SlowQueries)
    → 1 ≤ entries_at same_chars entry.0 (entry ∷ entries)
unfolding entries_at sum_of
entries_at-cons entry entries = rw (same_chars_refl entry.0) (omega arith)

-- The least group is one of them.
min_by_elapsed_in :
    (ops : FloatOps) (least : Chars × GroupedSlowQuery) (entries : SlowQueries)
    → 1 ≤ entries_at same_chars (min_by_elapsed ops least entries).0 (least ∷ entries)
unfolding min_by_elapsed
min_by_elapsed_in ops least [] = entries_at-cons least []
min_by_elapsed_in ops least (entry ∷ entries) =
    let next = if ops.lt entry.1.max_elapsed_s least.1.max_elapsed_s then entry else least in
    picked_in (ops.lt entry.1.max_elapsed_s least.1.max_elapsed_s)
      (min_by_elapsed ops next entries).0 entry least entries (min_by_elapsed_in ops next entries)

-- A group that is among those in some order is among them in any.
evict_least-room :
    (ops : FloatOps) (ordered groups : SlowQueries) (normalized sql : Chars) (duration_s : F64)
    → ((k : Chars) → entries_at same_chars k ordered ≡ entries_at same_chars k groups)
    → length (evict_least ops ordered normalized sql duration_s groups) ≤ length groups
unfolding evict_least
evict_least-room ops [] groups normalized sql duration_s same = omega arith
evict_least-room ops (entry ∷ entries) groups normalized sql duration_s same =
    let least = (min_by_elapsed ops entry entries).0 in
    let present = min_by_elapsed_in ops entry entries in
    let moved = same least in
    let removed = length-dict_remove same_chars least groups (omega arith) in
    let added =
      length-dict_set same_chars normalized (group_of sql duration_s)
        (dict_remove same_chars least groups) in
    ground (arith, removed, added)

module _ (runtime : Runtime) where
  slow_order-entries_at :
      (groups : SlowQueries) (k : Chars)
      → entries_at same_chars k (runtime.slow_order groups) ≡ entries_at same_chars k groups
  unfolding entries_at
  slow_order-entries_at groups k =
      sum_of-Perm (λ entry. if same_chars entry.0 k then 1 else 0) (runtime.slow_order-Perm groups)

  add_to-room :
      (found : Option GroupedSlowQuery) (normalized sql : Chars) (duration_s : F64)
      (groups : SlowQueries)
      → dict_get same_chars normalized groups ≡ found
      → length groups ≤ 16
      → length (add_to runtime found normalized sql duration_s groups) ≤ 16
  unfolding add_to
  add_to-room (some group) normalized sql duration_s groups known few =
      let longest = longest_of runtime.ops group sql duration_s in
      omega (arith, length-dict_set_known same_chars normalized longest group groups known)
  add_to-room none normalized sql duration_s groups new few = ground (
    arith,
    length-dict_set same_chars normalized (group_of sql duration_s) groups,
    evict_least-room runtime.ops (runtime.slow_order groups) groups normalized sql duration_s
        (slow_order-entries_at groups),
  )

  pub add_slow-room :
      (normalized sql : Chars) (duration_s : F64) (groups : SlowQueries)
      → length groups ≤ 16
      → length (add_slow runtime normalized sql duration_s groups) ≤ 16
  unfolding add_slow
  add_slow-room normalized sql duration_s groups few =
      add_to-room (dict_get same_chars normalized groups) normalized sql duration_s groups refl few
