-- ===== src/Provider/History/Sorted.antt =====
-- Sorted timestamps, and what partition_point finds in them.
use mathlib.Core.List.{Perm}
use mathlib.Core.List.Perm
use rpglot.Prelude.{
  ℕ, zero, suc, ◌≤◌, ◌<◌, Bool, some, List, [], ◌∷◌, ◌≡◌, arith, length, get_elem?, ◌↔◌, Bool-cases,
  inl, inr,
}
use rpglot.Prelude.Int.{ℤ, ◌≤ℤ◌, ◌<ℤ◌, leb_ℤ, ltb_ℤ}
use rpglot.Provider.History.{insert_time, sort_times}
use rpglot.Provider.History.Navigate.{partition_point}

abbrev pub AllFrom : ℤ → List ℤ → Type 0
AllFrom t [] = Unit
AllFrom t (u ∷ times) = (t ≤ℤ u) × AllFrom t times

abbrev pub IsSorted : List ℤ → Type 0
IsSorted [] = Unit
IsSorted (t ∷ times) = AllFrom t times × IsSorted times

AllFrom-insert :
    (s t : ℤ) (times : List ℤ) → s ≤ℤ t → AllFrom s times → AllFrom s (insert_time t times)
unfolding insert_time
AllFrom-insert s t [] h a = (h, tt)
AllFrom-insert s t (u ∷ times) h (first, rest) = elim (Bool-cases (leb_ℤ t u)) [
  | inl before ↦ rw before (h, (first, rest))
  | inr behind ↦ rw behind (first, AllFrom-insert s t times h rest)
]

AllFrom-le : (s t : ℤ) (times : List ℤ) → s ≤ℤ t → AllFrom t times → AllFrom s times
AllFrom-le s t [] h a = tt
AllFrom-le s t (u ∷ times) h (first, rest) = (omega arith, AllFrom-le s t times h rest)

insert-IsSorted : (t : ℤ) (times : List ℤ) → IsSorted times → IsSorted (insert_time t times)
unfolding insert_time
insert-IsSorted t [] s = (tt, tt)
insert-IsSorted t (u ∷ times) (from, s) = elim (Bool-cases (leb_ℤ t u)) [
  | inl before ↦ rw before (((ground arith), AllFrom-le t u times (ground arith) from), (from, s))
  | inr behind ↦ rw behind (AllFrom-insert u t times (ground arith) from, insert-IsSorted t times s)
]

pub sort-IsSorted : (times : List ℤ) → IsSorted (sort_times times)
unfolding sort_times
sort-IsSorted [] = tt
sort-IsSorted (t ∷ times) = insert-IsSorted t (sort_times times) (sort-IsSorted times)

AllFrom-get :
    (t u : ℤ) (times : List ℤ) (i : ℕ) → AllFrom t times → get_elem? times i ≡ some u → t ≤ℤ u
AllFrom-get t u [] i a h = cc
AllFrom-get t u (v ∷ times) zero (first, rest) h = let same : v ≡ u = cc h in rw same at first
AllFrom-get t u (v ∷ times) (suc i) (first, rest) h = AllFrom-get t u times i rest h

-- In sorted timestamps the ones before the partition point are those up to the target.
pub partition_le :
    (target : ℤ) (times : List ℤ) (i : ℕ) (u : ℤ)
    → IsSorted times
    → get_elem? times i ≡ some u
    → (i < partition_point (λ t. leb_ℤ t target) times) ↔ (u ≤ℤ target)
unfolding partition_point
partition_le target [] i u s h = cc
partition_le target (t ∷ times) zero u (from, s) h = let same : t ≡ u = cc h in ground (arith, same)
partition_le target (t ∷ times) (suc i) u (from, s) h =
    ground (arith, partition_le target times i u s h, AllFrom-get t u times i from h)

-- And those below the target, where the test is strict.
pub partition_lt :
    (target : ℤ) (times : List ℤ) (i : ℕ) (u : ℤ)
    → IsSorted times
    → get_elem? times i ≡ some u
    → (i < partition_point (λ t. ltb_ℤ t target) times) ↔ (u <ℤ target)
unfolding partition_point
partition_lt target [] i u s h = cc
partition_lt target (t ∷ times) zero u (from, s) h = let same : t ≡ u = cc h in ground (arith, same)
partition_lt target (t ∷ times) (suc i) u (from, s) h =
    ground (arith, partition_lt target times i u s h, AllFrom-get t u times i from h)

pub partition_le_length :
    (test : ℤ → Bool) (times : List ℤ) → partition_point test times ≤ length times
unfolding partition_point
partition_le_length test [] = omega arith
partition_le_length test (t ∷ times) = ground (arith, partition_le_length test times)

insert_time-Perm : (t : ℤ) (times : List ℤ) → Perm (insert_time t times) (t ∷ times)
unfolding insert_time
insert_time-Perm t [] = Perm.rfl
insert_time-Perm t (u ∷ times) = elim (Bool-cases (leb_ℤ t u)) [
  | inl before ↦ rw before Perm.rfl
  | inr behind ↦
      rw behind (Perm.trans (Perm.cons u (insert_time-Perm t times)) (Perm.swap t u times))
]

pub sort_times-Perm : (times : List ℤ) → Perm (sort_times times) times
unfolding sort_times
sort_times-Perm [] = Perm.rfl
sort_times-Perm (t ∷ times) =
    Perm.trans (insert_time-Perm t (sort_times times)) (Perm.cons t (sort_times-Perm times))
