-- ===== src/Analysis/Correlate/Grouped.antt =====
-- Every incident is in one group, the groups are numbered, and a group spans its incidents.
use mathlib.Core.List.{Perm, perm_middle}
use mathlib.Core.List.Perm
use rpglot.Prelude.{
  ℕ, ◌-◌, ◌%◌, ◌^◌, Bool, true, false, not, List, [], ◌∷◌, ◌++◌, String, length, append_assoc,
  append-nil, ◌≡◌, refl, sym, subst, Bool-cases, ◌⊎◌, inl, inr,
}
use rpglot.Prelude.Int.{ℤ, pos, negsuc, leb_ℤ, ◌+ℤ◌, wrap_i64}
use rpglot.Prelude.Float.{FloatOps}
use rpglot.Prelude.Sort.{
  sort_by, keep_if, sort_by-Perm, keep_if-Perm, concat_of, concat_of-append, concat_of-sort_by,
}
use rpglot.Prelude.Text.{same_text}
use rpglot.Analysis.Incidents.{Incident}
use rpglot.Analysis.Correlate.{
  IncidentGroup, persistent_threshold, is_persistent, first_le, add_to_rule, by_rule_loop, entry_le,
  next_id, later, peak_le, flush_group, persistent_groups, transient_groups, correlate_incidents,
}

abbrev pub members : List IncidentGroup → List Incident
members groups = concat_of (λ (g : IncidentGroup). g.incidents) groups

abbrev entry_members : List (String × List Incident) → List Incident
entry_members entries = concat_of (λ (e : String × List Incident). e.1) entries

add_to_rule-Perm :
    (i : Incident) (entries : List (String × List Incident))
    → Perm (entry_members (add_to_rule i entries)) (i ∷ entry_members entries)
unfolding add_to_rule concat_of
add_to_rule-Perm i [] = Perm.rfl
add_to_rule-Perm i ((rule, incidents) ∷ entries) = elim (Bool-cases (same_text rule i.rule_id)) [
  | inl same ↦ rw same (
      subst (λ l. Perm l (i ∷ (incidents ++ entry_members entries)))
        (sym (append_assoc incidents (i ∷ []) (entry_members entries)))
        (perm_middle incidents (entry_members entries)))
  | inr other ↦ rw other (
      Perm.trans (Perm.append_left incidents (add_to_rule-Perm i entries))
        (perm_middle incidents (entry_members entries)))
]

by_rule_loop-Perm :
    (entries : List (String × List Incident)) (incidents : List Incident)
    → Perm (entry_members (by_rule_loop entries incidents)) (entry_members entries ++ incidents)
unfolding by_rule_loop
by_rule_loop-Perm entries [] =
    subst (Perm (entry_members entries)) (sym (append-nil (entry_members entries))) Perm.rfl
by_rule_loop-Perm entries (i ∷ incidents) =
    Perm.trans (by_rule_loop-Perm (add_to_rule i entries) incidents) (
      Perm.trans (Perm.append_right incidents (add_to_rule-Perm i entries))
        (Perm.symm (perm_middle (entry_members entries) incidents)))

passes_or_fails :
    (passed : Bool)
    → ((passed ≡ true) × (not passed ≡ false)) ⊎ ((passed ≡ false) × (not passed ≡ true))
passes_or_fails true = inl (refl, refl)
passes_or_fails false = inr (refl, refl)

module _ (ops : FloatOps) where
  flush_group-Perm :
      (incidents : List Incident) (id : ℕ) (persistent : Bool)
      → Perm (flush_group ops incidents id persistent).incidents incidents
  unfolding flush_group
  flush_group-Perm incidents id persistent = sort_by-Perm (peak_le ops) incidents

  persistent_groups-Perm :
      (entries : List (String × List Incident)) (id : ℕ)
      → Perm (members (persistent_groups ops entries id)) (entry_members entries)
  unfolding persistent_groups concat_of
  persistent_groups-Perm [] id = Perm.rfl
  persistent_groups-Perm ((rule, incidents) ∷ entries) id =
      Perm.append
        (Perm.trans (flush_group-Perm (sort_by first_le incidents) id true)
          (sort_by-Perm first_le incidents))
        (persistent_groups-Perm entries (next_id id))

  transient_groups-Perm :
      (pending : List Incident) (latest : ℤ) (id : ℕ) (incidents : List Incident)
      → Perm (members (transient_groups ops pending latest id incidents)) (pending ++ incidents)
  unfolding transient_groups concat_of
  transient_groups-Perm [] latest id [] = Perm.rfl
  transient_groups-Perm (p ∷ pending) latest id [] =
      Perm.append_right [] (flush_group-Perm (p ∷ pending) id false)
  transient_groups-Perm [] latest id (i ∷ incidents) =
      transient_groups-Perm (i ∷ []) i.first_ts id incidents
  transient_groups-Perm (p ∷ pending) latest id (i ∷ incidents) =
      elim (Bool-cases (leb_ℤ i.first_ts (wrap_i64 (latest +ℤ pos 30)))) [
        | inl near ↦ rw near (
            subst
              (Perm (
                members (
                  transient_groups ops (p ∷ (pending ++ i ∷ [])) (later latest i.first_ts) id
                    incidents)))
              (append_assoc (p ∷ pending) (i ∷ []) incidents)
              (transient_groups-Perm (p ∷ (pending ++ i ∷ [])) (later latest i.first_ts) id
                incidents))
        | inr far ↦ rw far (
            Perm.append (flush_group-Perm (p ∷ pending) id false)
              (transient_groups-Perm (i ∷ []) i.first_ts (next_id id) incidents))
      ]

  -- Every incident is in exactly one group, as often as it was given, whatever the window.
  pub correlate-Perm :
      (incidents : List Incident) (start_ts end_ts : ℤ)
      → Perm (members (correlate_incidents ops incidents start_ts end_ts)) incidents
  unfolding correlate_incidents concat_of
  correlate-Perm incidents start_ts end_ts =
      let threshold = persistent_threshold start_ts end_ts in
      let test : Incident → Bool = is_persistent incidents threshold in
      let persistent = keep_if test incidents in
      let transient = keep_if (λ i. not (test i)) incidents in
      let entries = sort_by entry_le (by_rule_loop [] persistent) in
      let first = persistent_groups ops entries 0 in
      let second =
        transient_groups ops [] (negsuc (2 ^ 63 - 1)) (length entries % 2 ^ 32)
          (sort_by first_le transient) in
      subst (λ l. Perm l incidents) (sym (concat_of-append _ first second))
        (Perm.trans
          (Perm.append
            (Perm.trans (persistent_groups-Perm entries 0) (
              Perm.trans (concat_of-sort_by entry_le _ (by_rule_loop [] persistent))
                (by_rule_loop-Perm [] persistent)))
            (Perm.trans
              (transient_groups-Perm [] _ (length entries % 2 ^ 32) (sort_by first_le transient))
              (sort_by-Perm first_le transient)))
          (keep_if-Perm test (λ i. not (test i)) incidents (λ i. passes_or_fails (test i))))
