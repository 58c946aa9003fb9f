-- ===== src/Model/Process.antt =====
-- crates/rpglot-core/src/storage/model/process.rs: processes.
use rpglot.Prelude.{ℕ, Char}
use rpglot.Prelude.Int.{ℤ}

pub record ProcessMemInfo : Type 0 where
  pub minflt : ℕ
  pub majflt : ℕ
  pub vexec : ℕ
  pub vmem : ℕ
  pub rmem : ℕ
  pub pmem : ℕ
  pub vdata : ℕ
  pub vstack : ℕ
  pub vlibs : ℕ
  pub vswap : ℕ
  pub vlock : ℕ

pub record ProcessCpuInfo : Type 0 where
  pub utime : ℕ
  pub stime : ℕ
  pub nice : ℤ
  pub prio : ℤ
  pub rtprio : ℤ
  pub policy : ℤ
  pub curcpu : ℤ
  pub wchan_hash : ℕ
  pub rundelay : ℕ
  pub blkdelay : ℕ
  pub nvcsw : ℕ
  pub nivcsw : ℕ

pub record ProcessDskInfo : Type 0 where
  pub rio : ℕ
  pub rsz : ℕ
  pub rchar : ℕ
  pub wio : ℕ
  pub wchar : ℕ
  pub wsz : ℕ
  pub cwsz : ℕ

pub record ProcessInfo : Type 0 where
  pub pid : ℕ
  pub ppid : ℕ
  pub uid : ℕ
  pub euid : ℕ
  pub gid : ℕ
  pub egid : ℕ
  pub tty : ℕ
  pub state : Char
  pub num_threads : ℕ
  pub exit_signal : ℤ
  pub btime : ℕ
  pub name_hash : ℕ
  pub cmdline_hash : ℕ
  pub mem : ProcessMemInfo
  pub cpu : ProcessCpuInfo
  pub dsk : ProcessDskInfo
