-- ===== src/Analysis/Incidents/Merged.antt =====
-- What merging keeps of the anomalies.
use rpglot.Prelude.{
  ℕ, ◌+◌, true, List, [], ◌∷◌, String, ◌≡◌, refl, ap, ◌∙◌, arith, Bool-cases, inl, inr,
  if◌then◌else◌,
}
use rpglot.Prelude.Float.{FloatOps}
use rpglot.Prelude.Sort.{sort_by, sum_of, sum_of-sort_by}
use rpglot.Prelude.Text.{same_text, same_text-path}
use rpglot.Analysis.Incidents.{
  Anomaly, Incident, anomaly_le, incident_le, should_merge, new_incident, with_peak, merge_into,
  merge_loop, merge_sorted, merge_anomalies,
}

-- The anomalies of a rule, and those that its incidents stand for.
abbrev pub count_of : String → Anomaly → ℕ
count_of rule a = if same_text a.rule_id rule then 1 else 0

abbrev pub counted_of : String → Incident → ℕ
counted_of rule i = if same_text i.rule_id rule then i.snapshot_count else 0

should_merge-same :
    (last : Incident) (a : Anomaly) → should_merge last a ≡ true → last.rule_id ≡ a.rule_id
unfolding should_merge
should_merge-same last a h = same_text-path last.rule_id a.rule_id (ground arith)

module _ (ops : FloatOps) (rule : String) where
  counted-merge_into :
      (last : Incident) (a : Anomaly)
      → last.rule_id ≡ a.rule_id
      → counted_of rule (merge_into ops last a) ≡ counted_of rule last + count_of rule a
  unfolding merge_into with_peak
  counted-merge_into last a same =
      let alike : same_text last.rule_id rule ≡ same_text a.rule_id rule =
        ap (λ s. same_text s rule) same in
      ground (arith, alike)

  counted-merge_loop :
      (last : Incident) (anomalies : List Anomaly)
      → sum_of (counted_of rule) (merge_loop ops last anomalies)
        ≡ counted_of rule last + sum_of (count_of rule) anomalies
  unfolding merge_loop sum_of new_incident
  counted-merge_loop last [] = refl
  counted-merge_loop last (a ∷ anomalies) = elim (Bool-cases (should_merge last a)) [
    | inl merges ↦ rw merges (
        omega (
          arith,
          counted-merge_into last a (should_merge-same last a merges),
          counted-merge_loop (merge_into ops last a) anomalies,
        ))
    | inr apart ↦ rw apart (omega (arith, counted-merge_loop (new_incident a) anomalies))
  ]

  counted-merge_sorted :
      (anomalies : List Anomaly)
      → sum_of (counted_of rule) (merge_sorted ops anomalies) ≡ sum_of (count_of rule) anomalies
  unfolding merge_sorted sum_of new_incident
  counted-merge_sorted [] = refl
  counted-merge_sorted (a ∷ anomalies) = counted-merge_loop (new_incident a) anomalies

  -- For each rule the snapshot counts of its incidents add up to the number of its anomalies.
  pub merge_counts :
      (anomalies : List Anomaly)
      → sum_of (counted_of rule) (merge_anomalies ops anomalies) ≡ sum_of (count_of rule) anomalies
  unfolding merge_anomalies
  merge_counts anomalies =
      sum_of-sort_by incident_le (counted_of rule) (merge_sorted ops (sort_by anomaly_le anomalies))
      ∙ counted-merge_sorted (sort_by anomaly_le anomalies)
      ∙ sum_of-sort_by anomaly_le (count_of rule) anomalies
