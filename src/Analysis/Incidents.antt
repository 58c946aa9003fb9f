-- ===== src/Analysis/Incidents.antt =====
-- analysis/mod.rs, merge_anomalies: anomalies of one rule that follow each other closely become one
-- incident. A counter of anomalies stays below the length of a list in memory. `sort_by` is stable; its
-- tests are `cmp` being less or equal.
pub mod Merged
pub mod Ordered
use rpglot.Prelude.{
  ℕ, suc, ◌+◌, ◌/◌, Bool, true, false, ◌&&◌, Option, none, some, List, [], ◌∷◌, String, ltb, ◌==◌,
  if◌then◌else◌,
}
use rpglot.Prelude.Int.{ℤ, pos, negsuc, sub_ℕ, ◌-ℤ◌, leb_ℤ, ltb_ℤ, wrap_i64}
use rpglot.Prelude.Float.{F64, FloatOps}
use rpglot.Prelude.Sort.{sort_by}
use rpglot.Prelude.Text.{same_text, text_le}

pub data Category : Type 0 where
  cpu memory disk network psi pg_activity pg_statements pg_locks pg_tables pg_indexes pg_bgwriter
        pg_events pg_errors cgroup :
      Category

pub data Severity : Type 0 where
  info warning critical : Severity

pub record Anomaly : Type 0 where
  pub timestamp : ℤ
  pub rule_id : String
  pub category : Category
  pub severity : Severity
  pub title : String
  pub detail : Option String
  pub value : F64
  pub merge_key : Option String
  pub entity_id : Option ℤ

pub record Incident : Type 0 where
  pub rule_id : String
  pub category : Category
  pub severity : Severity
  pub first_ts : ℤ
  pub last_ts : ℤ
  pub merge_key : Option String
  pub peak_ts : ℤ
  pub peak_value : F64
  pub title : String
  pub detail : Option String
  pub snapshot_count : ℕ
  pub entity_id : Option ℤ

-- The derived order of Severity.
abbrev pub rank : Severity → ℕ
rank info = 0
rank warning = 1
rank critical = 2

abbrev pub same_key : Option String → Option String → Bool
same_key none none = true
same_key (some s) (some t) = same_text s t
same_key _ _ = false

-- None comes before every key.
abbrev pub key_le : Option String → Option String → Bool
key_le none k = true
key_le (some s) none = false
key_le (some s) (some t) = text_le s t

-- By rule, then by key, then by time.
unfoldable pub anomaly_le : Anomaly → Anomaly → Bool
anomaly_le a b =
    if same_text a.rule_id b.rule_id
    then (if same_key a.merge_key b.merge_key
        then leb_ℤ a.timestamp b.timestamp
        else key_le a.merge_key b.merge_key)
    else text_le a.rule_id b.rule_id

-- The most severe first, then by time.
unfoldable pub incident_le : Incident → Incident → Bool
incident_le a b =
    if rank a.severity == rank b.severity
    then leb_ℤ a.first_ts b.first_ts
    else ltb (rank b.severity) (rank a.severity)

-- An `i64` division rounds towards 0.
unfoldable pub quotient : ℤ → ℕ → ℤ
quotient (pos n) k = pos (n / k)
quotient (negsuc n) k = sub_ℕ 0 (suc n / k)

abbrev pub clamp_ℤ : ℤ → ℤ → ℤ → ℤ
clamp_ℤ a low high = if ltb_ℤ a low then low else if ltb_ℤ high a then high else a

unfoldable pub adaptive_gap : Incident → ℤ
adaptive_gap last =
    clamp_ℤ (quotient (wrap_i64 (last.last_ts -ℤ last.first_ts)) 5) (pos 60) (pos 300)

unfoldable pub should_merge : Incident → Anomaly → Bool
should_merge last a =
    same_text last.rule_id a.rule_id
    && same_key last.merge_key a.merge_key
    && leb_ℤ (wrap_i64 (a.timestamp -ℤ last.last_ts)) (adaptive_gap last)

unfoldable pub new_incident : Anomaly → Incident
new_incident a = record {
  rule_id = a.rule_id;
  category = a.category;
  severity = a.severity;
  first_ts = a.timestamp;
  last_ts = a.timestamp;
  merge_key = a.merge_key;
  peak_ts = a.timestamp;
  peak_value = a.value;
  title = a.title;
  detail = a.detail;
  snapshot_count = 1;
  entity_id = a.entity_id;
}

unfoldable pub worse : Severity → Severity → Severity
worse a b = if ltb (rank a) (rank b) then b else a

module _ (ops : FloatOps) where
  unfoldable pub with_peak : Incident → Anomaly → Incident
  with_peak i a =
      if ops.lt i.peak_value a.value
      then record i {
        peak_value = a.value;
        peak_ts = a.timestamp;
        title = a.title;
        detail = a.detail;
        entity_id = a.entity_id;
      }
      else i

  unfoldable pub merge_into : Incident → Anomaly → Incident
  merge_into last a =
      with_peak
        (record last {
          last_ts = a.timestamp;
          snapshot_count = last.snapshot_count + 1;
          severity = worse last.severity a.severity;
        })
        a

  -- The incidents from the last one on that was pushed.
  unfoldable pub merge_loop : Incident → List Anomaly → List Incident
  merge_loop last [] = last ∷ []
  merge_loop last (a ∷ anomalies) =
      let merged = merge_loop (merge_into last a) anomalies in
      let pushed = merge_loop (new_incident a) anomalies in
      if should_merge last a then merged else last ∷ pushed

  unfoldable pub merge_sorted : List Anomaly → List Incident
  merge_sorted [] = []
  merge_sorted (a ∷ anomalies) = merge_loop (new_incident a) anomalies

  unfoldable pub merge_anomalies : List Anomaly → List Incident
  merge_anomalies anomalies = sort_by incident_le (merge_sorted (sort_by anomaly_le anomalies))
