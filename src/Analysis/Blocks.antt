-- ===== src/Analysis/Blocks.antt =====
-- analysis/mod.rs, its helpers: find_block and the tests of devices.
use rpglot.Prelude.{
  ℕ, ◌+◌, ◌%◌, ◌^◌, Bool, true, false, not, ◌&&◌, ◌||◌, Option, none, some, List, [], ◌∷◌, ◌==◌,
  if◌then◌else◌,
}
use rpglot.Prelude.Int.{negsuc, eqb_ℤ}
use rpglot.Prelude.Text.{codes, starts_with, last_code, is_ascii_digit}
use rpglot.Model.System.{SystemCpuInfo, SystemDiskInfo, SystemNetInfo}
use rpglot.Model.Cgroup.{CgroupInfo}
use rpglot.Model.Activity.{PgStatActivityInfo}
use rpglot.Model.Server.{PgStatDatabaseInfo}
use rpglot.Model.Snapshot.{
  Snapshot, DataBlock, pg_stat_activity, system_cpu, system_disk, system_net, cgroup,
  pg_stat_database,
}

-- `iter().find_map(extract)`
unfoldable pub find_map {ℓ} : {A B : Type ℓ} → (A → Option B) → List A → Option B
find_map extract [] = none
find_map extract (a ∷ items) =
    let rest = find_map extract items in elim (extract a) [ some b ↦ some b | none ↦ rest ]

unfoldable pub find_block : {B : Type 0} → (DataBlock → Option B) → Snapshot → Option B
unfolding find_map
find_block extract snapshot = find_map extract snapshot.blocks

-- The closures that pick a block of one kind.
abbrev pub as_activity : DataBlock → Option (List PgStatActivityInfo)
as_activity (pg_stat_activity rows) = some rows
as_activity _ = none

abbrev pub as_disks : DataBlock → Option (List SystemDiskInfo)
as_disks (system_disk disks) = some disks
as_disks _ = none

abbrev pub as_nets : DataBlock → Option (List SystemNetInfo)
as_nets (system_net nets) = some nets
as_nets _ = none

abbrev pub as_databases : DataBlock → Option (List PgStatDatabaseInfo)
as_databases (pg_stat_database dbs) = some dbs
as_databases _ = none

abbrev pub as_cgroup : DataBlock → Option CgroupInfo
as_cgroup (cgroup cg) = some cg
as_cgroup _ = none

abbrev pub when {ℓ} : {A : Type ℓ} → (A → Bool) → A → Option A
when test a = if test a then some a else none

-- `iter().find(|c| c.cpu_id == -1)`
unfoldable pub find_aggregate : List SystemCpuInfo → Option SystemCpuInfo
unfolding find_map
find_aggregate cpus = find_map (when (λ c. eqb_ℤ c.cpu_id (negsuc 0))) cpus

unfoldable pub as_aggregate_cpu : DataBlock → Option SystemCpuInfo
as_aggregate_cpu (system_cpu cpus) = find_aggregate cpus
as_aggregate_cpu _ = none

unfoldable pub find_aggregate_cpu : Snapshot → Option SystemCpuInfo
find_aggregate_cpu snapshot = find_block as_aggregate_cpu snapshot

unfoldable pub any_cgroup : List DataBlock → Bool
any_cgroup [] = false
any_cgroup (cgroup _ ∷ blocks) = true
any_cgroup (_ ∷ blocks) = any_cgroup blocks

unfoldable pub is_container_snapshot : Snapshot → Bool
is_container_snapshot snapshot = any_cgroup snapshot.blocks

abbrev pub ends_in_digit : Option ℕ → Bool
ends_in_digit none = false
ends_in_digit (some c) = is_ascii_digit c

unfoldable pub is_relevant_disk : Bool → SystemDiskInfo → Bool
is_relevant_disk is_container disk =
    if is_container && (disk.major == 0 && disk.minor == 0)
    then false
    else if starts_with disk.device_name "loop" || starts_with disk.device_name "ram"
    then false
    else not (
        not is_container
        && (ends_in_digit (last_code (codes disk.device_name))
            && not (starts_with disk.device_name "nvme")))

unfoldable pub relevant_disks : Bool → List SystemDiskInfo → List SystemDiskInfo
relevant_disks is_container [] = []
relevant_disks is_container (d ∷ disks) =
    let rest = relevant_disks is_container disks in
    if is_relevant_disk is_container d then d ∷ rest else rest

-- `map(field).sum()` of `u64`s
unfoldable pub sum_u64 : {A : Type 0} → (A → ℕ) → List A → ℕ
sum_u64 field [] = 0
sum_u64 field (a ∷ items) = (field a + sum_u64 field items) % 2 ^ 64

unfoldable pub sum_cpu_ticks : SystemCpuInfo → ℕ
sum_cpu_ticks cpu =
    (cpu.user + cpu.nice + cpu.system + cpu.idle + cpu.iowait + cpu.irq + cpu.softirq + cpu.steal)
    % 2 ^ 64
