-- ===== src/Tests/Incidents.antt =====
-- Three anomalies of two rules, and the groups of their incidents.
use mathlib.Core.List.{Perm}
use rpglot.Prelude.{ℕ, ◌%◌, ◌^◌, false, none, some, List, [], ◌∷◌, String, get_elem?, ◌≡◌, refl}
use rpglot.Prelude.Int.{pos, ◌+ℤ◌, ◌-ℤ◌, wrap_i64}
use rpglot.Prelude.Sort.{sort_by, insert_by, keep_if, sum_of}
use rpglot.Analysis.Incidents
use rpglot.Analysis.Incidents.{
  Anomaly, Incident, warning, critical, anomaly_le, incident_le, adaptive_gap, should_merge,
  new_incident, with_peak, merge_into, merge_loop, merge_sorted, merge_anomalies, quotient, worse,
}
use rpglot.Analysis.Incidents.Merged.{count_of, counted_of, merge_counts}
use rpglot.Analysis.Incidents.Ordered.{IsTimed, merge-IsTimed}
use rpglot.Analysis.Correlate.{
  IncidentGroup, correlate_incidents, persistent_groups, transient_groups, flush_group,
  is_persistent, rule_duration, persistent_threshold, by_rule_loop, add_to_rule, max_severity,
  min_first, max_last,
}
use rpglot.Analysis.Correlate.Grouped.{members, correlate-Perm}
use rpglot.Analysis.Correlate.Spans.{Spans, correlate-Spans}
use rpglot.Tests.Floats.{whole_numbers}

abbrev anomaly : String → ℕ → ℕ → Anomaly
anomaly rule time value = record {
  timestamp = pos time;
  rule_id = rule;
  category = Incidents.cpu;
  severity = warning;
  title = "title";
  detail = none;
  value = value;
  merge_key = none;
  entity_id = none;
}

-- The second follows the first closely, and has the peak.
abbrev three_anomalies : List Anomaly
three_anomalies =
    anomaly "cpu_high" 100 70 ∷ anomaly "cpu_high" 130 90 ∷ anomaly "disk_busy" 400 20 ∷ []

abbrev cpu_incident : Incident
cpu_incident = record {
  rule_id = "cpu_high";
  category = Incidents.cpu;
  severity = warning;
  first_ts = pos 100;
  last_ts = pos 130;
  merge_key = none;
  peak_ts = pos 130;
  peak_value = 90;
  title = "title";
  detail = none;
  snapshot_count = 2;
  entity_id = none;
}

merge_counts_example :
    sum_of (counted_of "cpu_high") (merge_anomalies whole_numbers three_anomalies)
    ≡ sum_of (count_of "cpu_high") three_anomalies
merge_counts_example = merge_counts whole_numbers "cpu_high" three_anomalies

first_merged : get_elem? (merge_anomalies whole_numbers three_anomalies) 0 ≡ some cpu_incident
unfolding merge_anomalies merge_sorted merge_loop merge_into with_peak new_incident should_merge
    adaptive_gap incident_le anomaly_le sort_by insert_by quotient wrap_i64 ◌-ℤ◌ worse
first_merged = refl

merge-IsTimed_example : IsTimed cpu_incident
merge-IsTimed_example = merge-IsTimed whole_numbers three_anomalies 0 cpu_incident first_merged

abbrev disk_incident : Incident
disk_incident = record cpu_incident {
  rule_id = "disk_busy";
  first_ts = pos 400;
  last_ts = pos 420;
  peak_ts = pos 410;
}

abbrev two_incidents : List Incident
two_incidents = cpu_incident ∷ disk_incident ∷ []

correlate-Perm_example :
    Perm
      (members (correlate_incidents whole_numbers two_incidents (pos 0) (pos 3600)))
      two_incidents
correlate-Perm_example = correlate-Perm whole_numbers two_incidents (pos 0) (pos 3600)

abbrev second_group : IncidentGroup
second_group = record {
  id = 1;
  first_ts = pos 400;
  last_ts = pos 420;
  severity = warning;
  persistent = false;
  incidents = disk_incident ∷ [];
}

second_correlated :
    get_elem? (correlate_incidents whole_numbers two_incidents (pos 0) (pos 3600)) 1
    ≡ some second_group
unfolding correlate_incidents persistent_groups transient_groups flush_group keep_if is_persistent
    rule_duration persistent_threshold by_rule_loop add_to_rule max_severity min_first max_last
    sort_by insert_by quotient worse wrap_i64 ◌-ℤ◌ ◌+ℤ◌
second_correlated = refl

correlate-Spans_example : (second_group.id ≡ 1 % 2 ^ 32) × Spans second_group disk_incident
correlate-Spans_example =
    correlate-Spans whole_numbers two_incidents (pos 0) (pos 3600) 1 0 second_group disk_incident
      second_correlated refl
