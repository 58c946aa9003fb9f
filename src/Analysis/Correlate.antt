-- ===== src/Analysis/Correlate.antt =====
-- analysis/mod.rs, correlate_incidents: incidents become groups, one for each persistent rule, and one
-- for each run of the others that begin close to each other. A map by rule is a list with a rule once;
-- its order is lost in the sort. Group ids are `u32`s.
pub mod Grouped
pub mod Spans
use rpglot.Prelude.{
  ℕ, ◌+◌, ◌-◌, ◌%◌, ◌^◌, Bool, true, false, not, List, [], ◌∷◌, ◌++◌, String, length, ltb, ◌==◌,
  if◌then◌else◌,
}
use rpglot.Prelude.Int.{ℤ, pos, negsuc, ◌+ℤ◌, ◌-ℤ◌, ◌*ℕ◌, leb_ℤ, ltb_ℤ, wrap_i64}
use rpglot.Prelude.Float.{FloatOps}
use rpglot.Prelude.Sort.{sort_by, keep_if}
use rpglot.Prelude.Text.{same_text, text_le}
use rpglot.Analysis.Incidents.{Severity, info, Incident, rank, worse, quotient}

pub record IncidentGroup : Type 0 where
  pub id : ℕ
  pub first_ts : ℤ
  pub last_ts : ℤ
  pub severity : Severity
  pub persistent : Bool
  pub incidents : List Incident

abbrev pub earlier : ℤ → ℤ → ℤ
earlier a b = if ltb_ℤ b a then b else a

abbrev pub later : ℤ → ℤ → ℤ
later a b = if ltb_ℤ a b then b else a

-- The 30 percent of the window. The window is 1 at least.
unfoldable pub persistent_threshold : ℤ → ℤ → ℤ
persistent_threshold start_ts end_ts =
    quotient (wrap_i64 (later (wrap_i64 (end_ts -ℤ start_ts)) (pos 1) *ℕ 30)) 100

-- The sum of the durations of a rule, behind `sum`.
unfoldable pub rule_duration : String → ℤ → List Incident → ℤ
rule_duration rule sum [] = sum
rule_duration rule sum (i ∷ incidents) =
    let added = wrap_i64 (sum +ℤ wrap_i64 (i.last_ts -ℤ i.first_ts)) in
    rule_duration rule (if same_text i.rule_id rule then added else sum) incidents

-- `persistent_rules.contains(&inc.rule_id)`
unfoldable pub is_persistent : List Incident → ℤ → Incident → Bool
is_persistent incidents threshold i = ltb_ℤ threshold (rule_duration i.rule_id (pos 0) incidents)

abbrev pub first_le : Incident → Incident → Bool
first_le a b = leb_ℤ a.first_ts b.first_ts

unfoldable pub add_to_rule :
    Incident → List (String × List Incident) → List (String × List Incident)
add_to_rule i [] = (i.rule_id, i ∷ []) ∷ []
add_to_rule i ((rule, incidents) ∷ entries) =
    let rest = add_to_rule i entries in
    if same_text rule i.rule_id
    then (rule, incidents ++ i ∷ []) ∷ entries
    else (rule, incidents) ∷ rest

unfoldable pub by_rule_loop :
    List (String × List Incident) → List Incident → List (String × List Incident)
by_rule_loop entries [] = entries
by_rule_loop entries (i ∷ incidents) = by_rule_loop (add_to_rule i entries) incidents

unfoldable pub max_severity : List Incident → Severity
max_severity [] = info
max_severity (i ∷ incidents) = worse i.severity (max_severity incidents)

-- `min().unwrap_or(0)` and `max().unwrap_or(0)`
unfoldable pub min_first : List Incident → ℤ
min_first [] = pos 0
min_first (i ∷ []) = i.first_ts
min_first (i ∷ j ∷ incidents) = earlier i.first_ts (min_first (j ∷ incidents))

unfoldable pub max_last : List Incident → ℤ
max_last [] = pos 0
max_last (i ∷ []) = i.last_ts
max_last (i ∷ j ∷ incidents) = later i.last_ts (max_last (j ∷ incidents))

unfoldable pub entry_le : String × List Incident → String × List Incident → Bool
entry_le a b =
    let sev_a = rank (max_severity a.1) in
    let sev_b = rank (max_severity b.1) in
    if sev_a == sev_b then text_le a.0 b.0 else ltb sev_b sev_a

abbrev pub next_id : ℕ → ℕ
next_id id = (id + 1) % 2 ^ 32

module _ (ops : FloatOps) where
  -- The most severe first, then the highest peak: numbers that do not compare are equal.
  unfoldable pub peak_le : Incident → Incident → Bool
  peak_le a b =
      if rank a.severity == rank b.severity
      then not (ops.lt a.peak_value b.peak_value)
      else ltb (rank b.severity) (rank a.severity)

  unfoldable pub flush_group : List Incident → ℕ → Bool → IncidentGroup
  flush_group incidents id persistent =
      let taken = sort_by peak_le incidents in
      record {
        id = id;
        first_ts = min_first taken;
        last_ts = max_last taken;
        severity = max_severity taken;
        persistent = persistent;
        incidents = taken;
      }

  unfoldable pub persistent_groups : List (String × List Incident) → ℕ → List IncidentGroup
  persistent_groups [] id = []
  persistent_groups ((rule, incidents) ∷ entries) id =
      flush_group (sort_by first_le incidents) id true ∷ persistent_groups entries (next_id id)

  -- The loop over the transient incidents, with those that are pending.
  unfoldable pub transient_groups : List Incident → ℤ → ℕ → List Incident → List IncidentGroup
  transient_groups [] latest id [] = []
  transient_groups (p ∷ pending) latest id [] = flush_group (p ∷ pending) id false ∷ []
  transient_groups [] latest id (i ∷ incidents) = transient_groups (i ∷ []) i.first_ts id incidents
  transient_groups (p ∷ pending) latest id (i ∷ incidents) =
      let joined =
        transient_groups (p ∷ (pending ++ i ∷ [])) (later latest i.first_ts) id incidents in
      let begun = transient_groups (i ∷ []) i.first_ts (next_id id) incidents in
      if leb_ℤ i.first_ts (wrap_i64 (latest +ℤ pos 30))
      then joined
      else flush_group (p ∷ pending) id false ∷ begun

  unfoldable pub correlate_incidents : List Incident → ℤ → ℤ → List IncidentGroup
  correlate_incidents incidents start_ts end_ts =
      let threshold = persistent_threshold start_ts end_ts in
      let persistent = keep_if (is_persistent incidents threshold) incidents in
      let transient = keep_if (λ i. not (is_persistent incidents threshold i)) incidents in
      let entries = sort_by entry_le (by_rule_loop [] persistent) in
      persistent_groups entries 0
      ++ transient_groups [] (negsuc (2 ^ 63 - 1)) (length entries % 2 ^ 32)
          (sort_by first_le transient)
