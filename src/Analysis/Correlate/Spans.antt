-- ===== src/Analysis/Correlate/Spans.antt =====
-- The number of a group, and what it says of its incidents.
use rpglot.Prelude.{
  ℕ, zero, suc, ◌+◌, ◌-◌, ◌%◌, ◌^◌, ◌≤◌, ◌<◌, Bool, true, false, not, some, List, [], ◌∷◌, ◌++◌,
  String, length, get_elem?, ◌≡◌, refl, ap, ◌∙◌, subst, arith, Bool-cases, inl, inr,
}
use rpglot.Prelude.Int.{ℤ, pos, negsuc, ◌≤ℤ◌, leb_ℤ, ◌+ℤ◌, wrap_i64}
use rpglot.Prelude.Float.{FloatOps}
use rpglot.Prelude.Sort.{sort_by, keep_if}
use rpglot.Analysis.Incidents.{Incident, rank, worse}
use rpglot.Analysis.Correlate.{
  IncidentGroup, persistent_threshold, is_persistent, first_le, by_rule_loop, max_severity,
  min_first, max_last, entry_le, next_id, later, peak_le, flush_group, persistent_groups,
  transient_groups, correlate_incidents,
}

abbrev pub Spans : IncidentGroup → Incident → Type 0
Spans g i =
    (g.first_ts ≤ℤ i.first_ts) × (i.last_ts ≤ℤ g.last_ts) × (rank i.severity ≤ rank g.severity)

min_first_le :
    (incidents : List Incident) (k : ℕ) (i : Incident)
    → get_elem? incidents k ≡ some i
    → min_first incidents ≤ℤ i.first_ts
unfolding min_first
min_first_le [] k i h = cc
min_first_le (j ∷ []) zero i h = let same : j ≡ i = cc h in rw same (omega arith)
min_first_le (j ∷ []) (suc k) i h = cc
min_first_le (j ∷ l ∷ incidents) zero i h = let same : j ≡ i = cc h in rw same (ground arith)
min_first_le (j ∷ l ∷ incidents) (suc k) i h = ground (arith, min_first_le (l ∷ incidents) k i h)

max_last_le :
    (incidents : List Incident) (k : ℕ) (i : Incident)
    → get_elem? incidents k ≡ some i
    → i.last_ts ≤ℤ max_last incidents
unfolding max_last
max_last_le [] k i h = cc
max_last_le (j ∷ []) zero i h = let same : j ≡ i = cc h in rw same (omega arith)
max_last_le (j ∷ []) (suc k) i h = cc
max_last_le (j ∷ l ∷ incidents) zero i h = let same : j ≡ i = cc h in rw same (ground arith)
max_last_le (j ∷ l ∷ incidents) (suc k) i h = ground (arith, max_last_le (l ∷ incidents) k i h)

max_severity_le :
    (incidents : List Incident) (k : ℕ) (i : Incident)
    → get_elem? incidents k ≡ some i
    → rank i.severity ≤ rank (max_severity incidents)
unfolding max_severity worse
max_severity_le [] k i h = cc
max_severity_le (j ∷ incidents) zero i h = let same : j ≡ i = cc h in rw same (ground arith)
max_severity_le (j ∷ incidents) (suc k) i h = ground (arith, max_severity_le incidents k i h)

abbrev SpansAll : IncidentGroup → Type 0
SpansAll g = (k : ℕ) (i : Incident) → get_elem? g.incidents k ≡ some i → Spans g i

-- Groups that span their incidents, numbered from a number on.
abbrev IsNumbered : ℕ → List IncidentGroup → Type 0
IsNumbered id [] = Unit
IsNumbered id (g ∷ groups) = (g.id ≡ id) × SpansAll g × IsNumbered (next_id id) groups

numbered_at :
    (groups : List IncidentGroup) (id n : ℕ) (g : IncidentGroup)
    → id < 2 ^ 32
    → IsNumbered id groups
    → get_elem? groups n ≡ some g
    → (g.id ≡ (id + n) % 2 ^ 32) × SpansAll g
numbered_at [] id n g small h at = cc
numbered_at (d ∷ groups) id zero g small (here, spans, rest) at =
    let same : d ≡ g = cc at in
    subst (λ e. (e.id ≡ (id + 0) % 2 ^ 32) × SpansAll e) same (omega (arith, here), spans)
numbered_at (d ∷ groups) id (suc n) g small (here, spans, rest) at =
    let (ih, all) = numbered_at groups (next_id id) n g (omega arith) rest at in
    (ih ∙ omega arith, all)

append-IsNumbered :
    (xs ys : List IncidentGroup) (id : ℕ)
    → id < 2 ^ 32
    → IsNumbered id xs
    → IsNumbered ((id + length xs) % 2 ^ 32) ys
    → IsNumbered id (xs ++ ys)
append-IsNumbered [] ys id small h k = subst (λ n. IsNumbered n ys) (omega arith) k
append-IsNumbered (x ∷ xs) ys id small (here, spans, rest) k = (
  here,
  spans,
  append-IsNumbered xs ys (next_id id) (omega arith) rest
      (subst (λ n. IsNumbered n ys) (omega arith) k),
)

module _ (ops : FloatOps) where
  flush_group-SpansAll :
      (incidents : List Incident) (id : ℕ) (persistent : Bool)
      → SpansAll (flush_group ops incidents id persistent)
  unfolding flush_group
  flush_group-SpansAll incidents id persistent k i at = (
    min_first_le (sort_by (peak_le ops) incidents) k i at,
    max_last_le (sort_by (peak_le ops) incidents) k i at,
    max_severity_le (sort_by (peak_le ops) incidents) k i at,
  )

  persistent_groups-IsNumbered :
      (entries : List (String × List Incident)) (id : ℕ)
      → IsNumbered id (persistent_groups ops entries id)
        × (length (persistent_groups ops entries id) ≡ length entries)
  unfolding persistent_groups flush_group
  persistent_groups-IsNumbered [] id = (tt, refl)
  persistent_groups-IsNumbered ((rule, incidents) ∷ entries) id =
      let (rest, len) = persistent_groups-IsNumbered entries (next_id id) in
      ((refl, flush_group-SpansAll (sort_by first_le incidents) id true, rest), ap suc len)

  transient_groups-IsNumbered :
      (pending : List Incident) (latest : ℤ) (id : ℕ) (incidents : List Incident)
      → IsNumbered id (transient_groups ops pending latest id incidents)
  unfolding transient_groups flush_group
  transient_groups-IsNumbered [] latest id [] = tt
  transient_groups-IsNumbered (p ∷ pending) latest id [] =
      (refl, flush_group-SpansAll (p ∷ pending) id false, tt)
  transient_groups-IsNumbered [] latest id (i ∷ incidents) =
      transient_groups-IsNumbered (i ∷ []) i.first_ts id incidents
  transient_groups-IsNumbered (p ∷ pending) latest id (i ∷ incidents) =
      elim (Bool-cases (leb_ℤ i.first_ts (wrap_i64 (latest +ℤ pos 30)))) [
        | inl near ↦ rw near (
            transient_groups-IsNumbered (p ∷ (pending ++ i ∷ [])) (later latest i.first_ts) id
              incidents)
        | inr far ↦ rw far (
          refl,
          flush_group-SpansAll (p ∷ pending) id false,
          transient_groups-IsNumbered (i ∷ []) i.first_ts (next_id id) incidents,
        )
      ]

  -- The group at a place has that number, and its span and severity take in each of its incidents.
  pub correlate-Spans :
      (incidents : List Incident) (start_ts end_ts : ℤ) (n k : ℕ) (g : IncidentGroup) (i : Incident)
      → get_elem? (correlate_incidents ops incidents start_ts end_ts) n ≡ some g
      → get_elem? g.incidents k ≡ some i
      → (g.id ≡ n % 2 ^ 32) × Spans g i
  unfolding correlate_incidents
  correlate-Spans incidents start_ts end_ts n k g i at within =
      let threshold = persistent_threshold start_ts end_ts in
      let test : Incident → Bool = is_persistent incidents threshold in
      let entries = sort_by entry_le (by_rule_loop [] (keep_if test incidents)) in
      let (numbered, len) = persistent_groups-IsNumbered entries 0 in
      let first = persistent_groups ops entries 0 in
      let transient = sort_by first_le (keep_if (λ j. not (test j)) incidents) in
      let second =
        transient_groups ops [] (negsuc (2 ^ 63 - 1)) (length entries % 2 ^ 32) transient in
      let behind : IsNumbered ((0 + length first) % 2 ^ 32) second =
        subst (λ m. IsNumbered (m % 2 ^ 32) second) {x = length entries} {y = 0 + length first}
          (omega (arith, len))
          (transient_groups-IsNumbered [] (negsuc (2 ^ 63 - 1)) (length entries % 2 ^ 32)
            transient) in
      let all = append-IsNumbered first second 0 (omega arith) numbered behind in
      let (number, spans) = numbered_at (first ++ second) 0 n g (omega arith) all at in
      (number ∙ omega arith, spans k i within)
