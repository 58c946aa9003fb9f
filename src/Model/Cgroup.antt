-- ===== src/Model/Cgroup.antt =====
-- crates/rpglot-core/src/storage/model/cgroup.rs: control groups.
use rpglot.Prelude.{ℕ, Option, List}
use rpglot.Prelude.Int.{ℤ}

pub record CgroupIoInfo : Type 0 where
  pub major : ℕ
  pub minor : ℕ
  pub rbytes : ℕ
  pub wbytes : ℕ
  pub rios : ℕ
  pub wios : ℕ

pub record CgroupCpuInfo : Type 0 where
  pub quota : ℤ
  pub period : ℕ
  pub usage_usec : ℕ
  pub user_usec : ℕ
  pub system_usec : ℕ
  pub throttled_usec : ℕ
  pub nr_throttled : ℕ

pub record CgroupMemoryInfo : Type 0 where
  pub max : ℕ
  pub current : ℕ
  pub anon : ℕ
  pub file : ℕ
  pub kernel : ℕ
  pub slab : ℕ
  pub oom_kill : ℕ

pub record CgroupPidsInfo : Type 0 where
  pub current : ℕ
  pub max : ℕ

pub record CgroupInfo : Type 0 where
  pub cpu : Option CgroupCpuInfo
  pub memory : Option CgroupMemoryInfo
  pub pids : Option CgroupPidsInfo
  pub io : List CgroupIoInfo
