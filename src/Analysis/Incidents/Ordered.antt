-- ===== src/Analysis/Incidents/Ordered.antt =====
-- The order of the anomalies, and the times of the incidents that are made of them.
use rpglot.Prelude.{
  ℕ, zero, suc, ◌<◌, true, false, Option, none, some, List, [], ◌∷◌, String, get_elem?, ◌≡◌, refl,
  sym, ap, ◌∙◌, subst, arith, Bool-cases, inl, inr,
}
use rpglot.Prelude.Int.{◌≤ℤ◌, leb_ℤ}
use rpglot.Prelude.Float.{FloatOps}
use rpglot.Prelude.Sort.{sort_by, insert_by, IsChain, sort_by-IsChain}
use rpglot.Prelude.Text.{same_text, same_text-path}
use rpglot.Prelude.TextOrder.{text_le-total, same_text_flip}
use rpglot.Analysis.Incidents.{
  Anomaly, Incident, same_key, key_le, anomaly_le, incident_le, should_merge, new_incident,
  with_peak, merge_into, merge_loop, merge_sorted, merge_anomalies,
}

same_key-path : (k l : Option String) → same_key k l ≡ true → k ≡ l
same_key-path none none h = refl
same_key-path none (some t) h = cc
same_key-path (some s) none h = cc
same_key-path (some s) (some t) h = ap some (same_text-path s t h)

same_key_flip : (k l : Option String) → same_key k l ≡ same_key l k
same_key_flip none none = refl
same_key_flip none (some t) = refl
same_key_flip (some s) none = refl
same_key_flip (some s) (some t) = same_text_flip s t

key_le-total : (k l : Option String) → key_le k l ≡ false → key_le l k ≡ true
key_le-total none l h = cc
key_le-total (some s) none h = refl
key_le-total (some s) (some t) h = text_le-total s t h

anomaly_le-total : (a b : Anomaly) → anomaly_le a b ≡ false → anomaly_le b a ≡ true
unfolding anomaly_le
anomaly_le-total a b h = ground (
  arith,
  same_text_flip a.rule_id b.rule_id,
  same_key_flip a.merge_key b.merge_key,
  key_le-total a.merge_key b.merge_key,
  text_le-total a.rule_id b.rule_id,
)

-- The peak of an incident is within it, and it stands for an anomaly at least.
abbrev pub IsTimed : Incident → Type 0
IsTimed i = (i.first_ts ≤ℤ i.peak_ts) × (i.peak_ts ≤ℤ i.last_ts) × (0 < i.snapshot_count)

abbrev AllTimed : List Incident → Type 0
AllTimed [] = Unit
AllTimed (i ∷ incidents) = IsTimed i × AllTimed incidents

-- The last incident has the rule, the key and the time of the anomaly before.
abbrev Follows : Incident → Anomaly → Type 0
Follows last a =
    (last.rule_id ≡ a.rule_id) × (last.merge_key ≡ a.merge_key) × (last.last_ts ≡ a.timestamp)

-- An anomaly that is merged is not before the one before it.
merged_later :
    (last : Incident) (before a : Anomaly)
    → Follows last before
    → anomaly_le before a ≡ true
    → should_merge last a ≡ true
    → (last.rule_id ≡ a.rule_id) × (last.merge_key ≡ a.merge_key) × (last.last_ts ≤ℤ a.timestamp)
unfolding anomaly_le should_merge
merged_later last before a (rule, key, time) order merges =
    let alike : same_text last.rule_id a.rule_id ≡ true = ground arith in
    let close : same_key last.merge_key a.merge_key ≡ true = ground arith in
    let alike₁ : same_text before.rule_id a.rule_id ≡ true =
      ap (λ s. same_text s a.rule_id) (sym rule) ∙ alike in
    let close₁ : same_key before.merge_key a.merge_key ≡ true =
      ap (λ k. same_key k a.merge_key) (sym key) ∙ close in
    let later : leb_ℤ before.timestamp a.timestamp ≡ true = ground (arith, alike₁, close₁, order) in
    (
      same_text-path last.rule_id a.rule_id alike,
      same_key-path last.merge_key a.merge_key close,
      subst (λ t. t ≤ℤ a.timestamp) (sym time) (ground (arith, later)),
    )

insert-AllTimed :
    (i : Incident) (incidents : List Incident)
    → IsTimed i
    → AllTimed incidents
    → AllTimed (insert_by incident_le i incidents)
unfolding insert_by
insert-AllTimed i [] timed all = (timed, tt)
insert-AllTimed i (j ∷ incidents) timed (first, all) = elim (Bool-cases (incident_le i j)) [
  | inl before ↦ rw before (timed, (first, all))
  | inr behind ↦ rw behind (first, insert-AllTimed i incidents timed all)
]

sort-AllTimed :
    (incidents : List Incident) → AllTimed incidents → AllTimed (sort_by incident_le incidents)
unfolding sort_by
sort-AllTimed [] all = tt
sort-AllTimed (i ∷ incidents) (timed, all) =
    insert-AllTimed i (sort_by incident_le incidents) timed (sort-AllTimed incidents all)

get-IsTimed :
    (incidents : List Incident) (k : ℕ) (i : Incident)
    → AllTimed incidents
    → get_elem? incidents k ≡ some i
    → IsTimed i
get-IsTimed [] k i all at = cc
get-IsTimed (j ∷ incidents) zero i (timed, all) at =
    let same : j ≡ i = cc at in subst IsTimed same timed
get-IsTimed (j ∷ incidents) (suc k) i (timed, all) at = get-IsTimed incidents k i all at

new_incident-IsTimed : (a : Anomaly) → IsTimed (new_incident a) × Follows (new_incident a) a
unfolding new_incident
new_incident-IsTimed a = ((omega arith, omega arith, omega arith), (refl, refl, refl))

module _ (ops : FloatOps) where
  merge_into-IsTimed :
      (last : Incident) (a : Anomaly)
      → last.rule_id ≡ a.rule_id
      → last.merge_key ≡ a.merge_key
      → last.last_ts ≤ℤ a.timestamp
      → IsTimed last
      → IsTimed (merge_into ops last a) × Follows (merge_into ops last a) a
  unfolding merge_into with_peak
  merge_into-IsTimed last a rule key time (from, to, some_anomalies) =
      elim (Bool-cases (ops.lt last.peak_value a.value)) [
        | inl higher ↦ rw higher ((omega arith, omega arith, omega arith), (rule, key, refl))
        | inr lower ↦ rw lower ((omega arith, omega arith, omega arith), (rule, key, refl))
      ]

  merge_loop-AllTimed :
      (last : Incident) (before : Anomaly) (anomalies : List Anomaly)
      → IsTimed last
      → Follows last before
      → IsChain anomaly_le (before ∷ anomalies)
      → AllTimed (merge_loop ops last anomalies)
  unfolding merge_loop
  merge_loop-AllTimed last before [] timed follows chain = (timed, tt)
  merge_loop-AllTimed last before (a ∷ anomalies) timed follows (order, chain) =
      elim (Bool-cases (should_merge last a)) [
        | inl merges ↦
            let (rule, key, time) = merged_later last before a follows order merges in
            let (merged, next) = merge_into-IsTimed last a rule key time timed in
            rw merges (merge_loop-AllTimed (merge_into ops last a) a anomalies merged next chain)
        | inr apart ↦
            let (begun, next) = new_incident-IsTimed a in
            rw apart (timed, merge_loop-AllTimed (new_incident a) a anomalies begun next chain)
      ]

  merge_sorted-AllTimed :
      (anomalies : List Anomaly)
      → IsChain anomaly_le anomalies
      → AllTimed (merge_sorted ops anomalies)
  unfolding merge_sorted
  merge_sorted-AllTimed [] chain = tt
  merge_sorted-AllTimed (a ∷ anomalies) chain =
      let (begun, next) = new_incident-IsTimed a in
      merge_loop-AllTimed (new_incident a) a anomalies begun next chain

  -- Whatever the order of the anomalies, an incident that they become begins no later than its peak,
  -- ends no earlier, and stands for an anomaly at least.
  pub merge-IsTimed :
      (anomalies : List Anomaly) (k : ℕ) (i : Incident)
      → get_elem? (merge_anomalies ops anomalies) k ≡ some i
      → IsTimed i
  unfolding merge_anomalies
  merge-IsTimed anomalies k i at =
      get-IsTimed _ k i
        (sort-AllTimed (merge_sorted ops (sort_by anomaly_le anomalies)) (
          merge_sorted-AllTimed (sort_by anomaly_le anomalies)
            (sort_by-IsChain anomaly_le anomalies anomaly_le-total)))
        at
