-- ===== src/Collector/Log/Drained.antt =====
-- collector/log_collector/mod.rs: what drain_pending gives out and what it leaves.
use rpglot.Prelude.{
  ℕ, suc, ◌+◌, ◌≤◌, Bool, true, false, Option, none, some, String, List, [], ◌∷◌, ◌≡◌, refl, subst,
  ap, ◌∙◌, arith, inl, inr, ◌⊎◌, length, Bool-cases,
}
use rpglot.Prelude.Sort.{sum_of, sort_by, sum_of-sort_by}
use rpglot.Prelude.Sums.{sum_of-Perm, sum_of_ones, take_whole, length-take_le}
use rpglot.Model.Log.{PgLogEntry}
use rpglot.Storage.Interner.{StringInterner}
use rpglot.Collector.Texts.{
  is_empty, truncate, and_then-eq-some, map_option-eq-some, some_injective,
}
use rpglot.Collector.Normalize.Patterns.{max_log_message_len}
use rpglot.Collector.Log.{
  Errors, ErrorKey, PendingError, Pending, Runtime, same_key, dict_get, dict_remove,
}
use rpglot.Collector.Log.Drain.{
  drain_errors, drain_held, drain_pending, Drained, held_entry, log_entries, log_entry,
  more_frequent, prepend, top_errors, without_statement, with_pending,
}
use rpglot.Collector.Log.Counts.{error_total}

-- How many errors the entries of a snapshot stand for.
unfoldable pub reported : List PgLogEntry → ℕ
unfolding sum_of
reported entries = sum_of (λ entry. entry.count) entries

log_entries-reported :
    (xxh3_64 : String → ℕ) (errors : Errors) (interner : StringInterner)
    {made : List PgLogEntry × StringInterner}
    → log_entries xxh3_64 errors interner ≡ some made
    → (reported made.0 ≡ error_total errors) × (length made.0 ≡ length errors)
unfolding log_entries reported error_total sum_of
log_entries-reported xxh3_64 [] interner h =
    subst (λ made. (reported made.0 ≡ 0) × (length made.0 ≡ 0)) (some_injective h) (refl, refl)
log_entries-reported xxh3_64 ((key, pending) ∷ errors) interner h =
    let cut = and_then-eq-some (truncate max_log_message_len key.0) _ h in
    let first = log_entry xxh3_64 key pending cut.0 interner in
    let more = map_option-eq-some (prepend first.0) (log_entries xxh3_64 errors first.1) cut.2 in
    let rest = log_entries-reported xxh3_64 errors first.1 more.1 in
    subst
      (λ made.
        (reported made.0 ≡ error_total ((key, pending) ∷ errors))
        × (length made.0 ≡ suc (length errors)))
      more.2 (ap (λ n. pending.count + n) rest.0, ap suc rest.1)

error_total-dict_remove :
    (key : ErrorKey) (entry : PendingError) (errors : Errors)
    → dict_get same_key key errors ≡ some entry
    → (error_total (dict_remove same_key key errors) + entry.count ≡ error_total errors)
      × (length (dict_remove same_key key errors) + 1 ≡ length errors)
unfolding error_total dict_remove dict_get sum_of
error_total-dict_remove key entry [] h = cc
error_total-dict_remove key entry ((other, pending) ∷ errors) h =
    ground (arith, error_total-dict_remove key entry errors)

without_statement-eq-some :
    (key k : ErrorKey) (found : Option PendingError) (entry : PendingError)
    → without_statement key found ≡ some (k, entry)
    → (k ≡ key) × (found ≡ some entry)
without_statement-eq-some key k none entry h = cc
without_statement-eq-some key k (some pending) entry h =
    elim (Bool-cases (is_empty pending.statement)) [
      | inl missing ↦ let same = some_injective (rw missing at h) in (cc, cc)
      | inr present ↦ let never = rw present at h in cc
    ]

held_entry-get :
    (flag : Bool) (last : Option ErrorKey) (errors : Errors) (k : ErrorKey) (entry : PendingError)
    → held_entry flag last errors ≡ some (k, entry)
    → dict_get same_key k errors ≡ some entry
unfolding held_entry
held_entry-get true last errors k entry h = cc
held_entry-get false none errors k entry h = cc
held_entry-get false (some key) errors k entry h =
    let same = without_statement-eq-some key k (dict_get same_key key errors) entry h in
    rw same.0 same.1

reported_nil : reported [] ≡ 0
unfolding reported sum_of
reported_nil = refl

error_total_nil : error_total [] ≡ 0
unfolding error_total sum_of
error_total_nil = refl

error_total_one :
    (key : ErrorKey) (entry : PendingError) → error_total ((key, entry) ∷ []) ≡ entry.count
unfolding error_total sum_of
error_total_one key entry = omega arith

-- What an interval leaves behind: no error, or one that is marked as held back.
abbrev pub IsDrained : Pending → Type 0
IsDrained p = (p.pending_errors ≡ []) ⊎ (p.error_held_back ≡ true)

pub record IsGivenOut (before : Pending) (entries : List PgLogEntry) (after : Pending)
    : Type 0 where
  pub total :
      length before.pending_errors ≤ 32
      → reported entries + error_total after.pending_errors ≡ error_total before.pending_errors
  pub few : length entries ≤ 32
  pub left : length after.pending_errors ≤ 1
  pub drained : IsDrained after
  pub events : after.pending_events ≡ before.pending_events
  pub slow : after.slow_queries ≡ before.slow_queries

module _ (runtime : Runtime) where
  top_errors-total :
      (errors : Errors)
      → length errors ≤ 32
      → error_total (top_errors runtime errors) ≡ error_total errors
  unfolding top_errors error_total
  top_errors-total errors few =
      let ordered = runtime.error_order errors in
      let sorted = sort_by more_frequent ordered in
      let same = sum_of-Perm (λ entry. 1) (runtime.error_order-Perm errors) in
      let size : length sorted ≤ 32 = omega (
        arith,
        same,
        sum_of_ones sorted,
        sum_of_ones ordered,
        sum_of_ones errors,
        sum_of-sort_by more_frequent (λ entry. 1) ordered,
      ) in
      ap (sum_of (λ entry. entry.1.count)) (take_whole 32 sorted size)
      ∙ sum_of-sort_by more_frequent (λ entry. entry.1.count) ordered
      ∙ sum_of-Perm (λ entry. entry.1.count) (runtime.error_order-Perm errors)

  length-top_errors : (errors : Errors) → length (top_errors runtime errors) ≤ 32
  unfolding top_errors
  length-top_errors errors = length-take_le 32 (sort_by more_frequent (runtime.error_order errors))

  drain_held-IsGivenOut :
      (held : Option (ErrorKey × PendingError)) (p : Pending) (interner : StringInterner)
      (made : Drained)
      → held_entry p.error_held_back p.last_error_key p.pending_errors ≡ held
      → drain_held runtime held p interner ≡ some made
      → IsGivenOut p made.0 made.2
  unfolding drain_held
  drain_held-IsGivenOut none p interner made source h =
      let q = record p { pending_errors = []; error_held_back = false } in
      let given = map_option-eq-some (with_pending q) _ h in
      let logged =
        log_entries-reported runtime.xxh3_64 (top_errors runtime p.pending_errors) interner
          given.1 in
      subst (λ made. IsGivenOut p made.0 made.2) given.2
        (record {
          total = λ few.
              let l = logged.0 in
              let t = top_errors-total p.pending_errors few in omega (arith, error_total_nil);
          few = let l = logged.1 in omega (arith, length-top_errors p.pending_errors);
          left = omega arith;
          drained = inl refl;
          events = refl;
          slow = refl;
        })
  drain_held-IsGivenOut (some (key, entry)) p interner made source h =
      let q = record p { pending_errors = (key, entry) ∷ []; error_held_back = true } in
      let rest = dict_remove same_key key p.pending_errors in
      let given = map_option-eq-some (with_pending q) _ h in
      let logged =
        log_entries-reported runtime.xxh3_64 (top_errors runtime rest) interner given.1 in
      let known =
        held_entry-get p.error_held_back p.last_error_key p.pending_errors key entry source in
      let removed = error_total-dict_remove key entry p.pending_errors known in
      subst (λ made. IsGivenOut p made.0 made.2) given.2
        (record {
          total = λ few.
              let l = logged.0 in
              let r = removed.0 in
              let size = removed.1 in
              let t = top_errors-total rest (omega arith) in
              omega (arith, error_total_one key entry);
          few = let l = logged.1 in omega (arith, length-top_errors rest);
          left = omega arith;
          drained = inr refl;
          events = refl;
          slow = refl;
        })

  drain_errors-IsGivenOut :
      (errors : Errors) (p : Pending) (interner : StringInterner) (made : Drained)
      → p.pending_errors ≡ errors
      → drain_errors runtime errors p interner ≡ some made
      → IsGivenOut p made.0 made.2
  unfolding drain_errors
  drain_errors-IsGivenOut [] p interner made known h =
      subst (λ made. IsGivenOut p made.0 made.2) (some_injective h)
        (record {
          total = λ few. omega (arith, reported_nil);
          few = omega arith;
          left = rw known (omega arith);
          drained = inl known;
          events = refl;
          slow = refl;
        })
  drain_errors-IsGivenOut (entry ∷ errors) p interner made known h =
      drain_held-IsGivenOut (held_entry p.error_held_back p.last_error_key p.pending_errors) p
        interner made refl h

  -- With the mark set, nothing is held back again.
  drain_errors_marked :
      (errors : Errors) (p : Pending) (interner : StringInterner) (made : Drained)
      → p.pending_errors ≡ errors
      → p.error_held_back ≡ true
      → drain_errors runtime errors p interner ≡ some made
      → made.2.pending_errors ≡ []
  unfolding drain_errors drain_held held_entry
  drain_errors_marked [] p interner made known marked h =
      subst (λ made. made.2.pending_errors ≡ []) (some_injective h) known
  drain_errors_marked (entry ∷ errors) p interner made known marked h =
      let given =
        map_option-eq-some
          (with_pending (record p { pending_errors = []; error_held_back = false }))
          (log_entries runtime.xxh3_64 (top_errors runtime p.pending_errors) interner)
          (rw marked at h) in
      subst (λ made. made.2.pending_errors ≡ []) given.2 refl

  pub drain_pending-IsGivenOut :
      (p : Pending) (interner : StringInterner) (made : Drained)
      → drain_pending runtime p interner ≡ some made
      → IsGivenOut p made.0 made.2
  unfolding drain_pending
  drain_pending-IsGivenOut p interner made h =
      drain_errors-IsGivenOut p.pending_errors p interner made refl h

  drain_errors_empty :
      (errors : Errors) (p : Pending) (interner : StringInterner) (made : Drained)
      → p.pending_errors ≡ errors
      → errors ≡ []
      → drain_errors runtime errors p interner ≡ some made
      → made.2.pending_errors ≡ []
  unfolding drain_errors
  drain_errors_empty [] p interner made known empty h =
      subst (λ made. made.2.pending_errors ≡ []) (some_injective h) known
  drain_errors_empty (entry ∷ errors) p interner made known empty h = cc

  pub drained_again :
      (p : Pending) (interner : StringInterner) (made : Drained)
      → IsDrained p
      → drain_pending runtime p interner ≡ some made
      → made.2.pending_errors ≡ []
  unfolding drain_pending
  drained_again p interner made (inl empty) h =
      drain_errors_empty p.pending_errors p interner made refl empty h
  drained_again p interner made (inr marked) h =
      drain_errors_marked p.pending_errors p interner made refl marked h
